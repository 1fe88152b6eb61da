-- ===== src/TypeEngine/Complete.antt =====
-- What the rules give a type, `infer` gives that type.
use nexus_smarttrading.Prelude.{◌≡◌, refl, ap, true, Option}
use nexus_smarttrading.TypeEngine.{
  StaticType, integer, float, string, boolean, BinaryOperator, UnaryOperator, AstNode, SymbolTable,
  inferred, symbol_type, is_numeric, unary_type, addition, arithmetic, division, logical,
  relational, equality, binary_type, infer,
}
use nexus_smarttrading.TypeEngine.Typing.{
  IsNumeric, Promotes, UnaryRule, BinaryRule, HasType, whole, fractional, stays, widens_left,
  widens_right, negation, minus, plus, adds, subtracts, multiplies, remains, conjunction,
  disjunction, less, at_most, greater, at_least, equal, unequal, concatenates, computes, divides,
  combines, compares, sorts, equates, matches, of_literal, of_identifier, of_unary, of_binary,
}

numeric : {a : StaticType} → IsNumeric a → is_numeric a ≡ true
numeric whole = refl
numeric fractional = refl

unary_complete :
    {op : UnaryOperator} {a t : StaticType} → UnaryRule op a t → unary_type op a ≡ inferred t
unfolding unary_type
unary_complete negation = refl
unary_complete (minus h) = rw (numeric h) refl
unary_complete (plus h) = rw (numeric h) refl

promoted :
    {a b t : StaticType}
    → Promotes a b t
    → (addition a b ≡ inferred t) × (arithmetic a b ≡ inferred t)
unfolding addition arithmetic
promoted stays = (refl, refl)
promoted (widens_left whole) = (refl, refl)
promoted (widens_left fractional) = (refl, refl)
promoted (widens_right whole) = (refl, refl)
promoted (widens_right fractional) = (refl, refl)

equality_self : (a : StaticType) → equality a a ≡ inferred boolean
unfolding equality
equality_self integer = refl
equality_self float = refl
equality_self string = refl
equality_self boolean = refl

binary_complete :
    {op : BinaryOperator} {a b t : StaticType}
    → BinaryRule op a b t
    → binary_type op a b ≡ inferred t
unfolding binary_type addition arithmetic division logical relational equality
binary_complete concatenates = refl
binary_complete (computes adds p) = (promoted p).0
binary_complete (computes subtracts p) = (promoted p).1
binary_complete (computes multiplies p) = (promoted p).1
binary_complete (computes remains p) = (promoted p).1
binary_complete (divides h k) = rw (numeric h, numeric k) refl
binary_complete (combines conjunction) = refl
binary_complete (combines disjunction) = refl
binary_complete (compares less h k) = rw (numeric h, numeric k) refl
binary_complete (compares at_most h k) = rw (numeric h, numeric k) refl
binary_complete (compares greater h k) = rw (numeric h, numeric k) refl
binary_complete (compares at_least h k) = rw (numeric h, numeric k) refl
binary_complete (sorts less) = refl
binary_complete (sorts at_most) = refl
binary_complete (sorts greater) = refl
binary_complete (sorts at_least) = refl
binary_complete (equates equal h k) = rw (numeric h, numeric k) refl
binary_complete (equates unequal h k) = rw (numeric h, numeric k) refl
binary_complete (matches {a = a} equal) = equality_self a
binary_complete (matches {a = a} unequal) = equality_self a

pub infer_complete :
    {table : Option SymbolTable} {n : AstNode} {t : StaticType}
    → HasType table n t
    → infer n table ≡ inferred t
unfolding infer
infer_complete of_literal = refl
infer_complete (of_identifier {name = name} e h) = rw e (ap (symbol_type name) h)
infer_complete (of_unary d rule) =
    let first = infer_complete d in let last = unary_complete rule in rw (first, last) refl
infer_complete (of_binary d f rule) =
    let first = infer_complete d in
    let second = infer_complete f in
    let last = binary_complete rule in rw (first, second, last) refl

-- ===== src/TypeEngine/Rules.antt =====
-- Inference decides the typing rules (TypeEngine/Typing.antt).
use nexus_smarttrading.Prelude.{ℕ, ◌≡◌, refl, ◌↔◌, Option, none, some, arith}
use mathlib.Core.Path.{subst}
use nexus_smarttrading.Prelude.Dict.{lookup}
use nexus_smarttrading.TypeEngine.{
  StaticType, integer, float, string, boolean, BinaryOperator, add, sub, mul, div, mod_, and_, or_,
  eq, ne, lt, le, gt, ge, UnaryOperator, not_, neg, pos_, AstNode, literal, identifier, binary_op,
  unary_op, SymbolTable, Inferred, inferred, type_mismatch, undefined_symbol, symbol_type, and_then,
  unary_type, addition, arithmetic, division, logical, relational, equality, binary_type, infer,
}
use nexus_smarttrading.TypeEngine.Typing.{
  UnaryRule, Arithmetic, Logical, Relational, Equality, BinaryRule, HasType, whole, fractional,
  stays, widens_left, widens_right, negation, minus, plus, adds, subtracts, multiplies, remains,
  conjunction, disjunction, less, at_most, greater, at_least, equal, unequal, concatenates,
  computes, divides, combines, compares, sorts, equates, matches, of_literal, of_identifier,
  of_unary, of_binary,
}
use nexus_smarttrading.TypeEngine.Complete.{infer_complete}

-- An outcome with a type that satisfies a predicate, or an exception.
data Gives (Q : StaticType → Type 0) : Inferred → Type 0 where
  gives : {t : StaticType} → Q t → Gives Q (inferred t)
  mismatches : {expected actual : StaticType} → Gives Q (type_mismatch expected actual)
  misses : {name : ℕ} → Gives Q (undefined_symbol name)

inferred_injective : {a b : StaticType} → inferred a ≡ inferred b → a ≡ b
inferred_injective h = cc

given : {Q : StaticType → Type 0} {r : Inferred} {t : StaticType} → Gives Q r → r ≡ inferred t → Q t
given {Q = Q} (gives q) h = let same = inferred_injective h in subst Q same q
given mismatches h = absurd (ground (arith, h))
given misses h = absurd (ground (arith, h))

weaken :
    {P Q : StaticType → Type 0} {r : Inferred}
    → ((t : StaticType) → P t → Q t)
    → Gives P r
    → Gives Q r
weaken h (gives {t = t} p) = gives (h t p)
weaken h mismatches = mismatches
weaken h misses = misses

and_then-Gives :
    {P Q : StaticType → Type 0} {r : Inferred} (next : StaticType → Inferred)
    → Gives P r
    → ((t : StaticType) → P t → Gives Q (next t))
    → Gives Q (and_then r next)
and_then-Gives next (gives {t = t} p) h = h t p
and_then-Gives next mismatches h = mismatches
and_then-Gives next misses h = misses

unary_sound : (op : UnaryOperator) (a : StaticType) → Gives (UnaryRule op a) (unary_type op a)
unfolding unary_type
unary_sound not_ boolean = gives negation
unary_sound not_ _ = mismatches
unary_sound neg integer = gives (minus whole)
unary_sound neg float = gives (minus fractional)
unary_sound neg _ = mismatches
unary_sound pos_ integer = gives (plus whole)
unary_sound pos_ float = gives (plus fractional)
unary_sound pos_ _ = mismatches

addition_sound : (a b : StaticType) → Gives (BinaryRule add a b) (addition a b)
unfolding addition
addition_sound string string = gives concatenates
addition_sound integer integer = gives (computes adds stays)
addition_sound integer float = gives (computes adds (widens_right whole))
addition_sound float integer = gives (computes adds (widens_left whole))
addition_sound float float = gives (computes adds (widens_left fractional))
addition_sound boolean string = mismatches
addition_sound _ _ = mismatches

arithmetic_sound :
    {op : BinaryOperator}
    → Arithmetic op
    → (a b : StaticType) → Gives (BinaryRule op a b) (arithmetic a b)
unfolding arithmetic
arithmetic_sound k integer integer = gives (computes k stays)
arithmetic_sound k integer float = gives (computes k (widens_right whole))
arithmetic_sound k float integer = gives (computes k (widens_left whole))
arithmetic_sound k float float = gives (computes k (widens_left fractional))
arithmetic_sound k _ _ = mismatches

division_sound : (a b : StaticType) → Gives (BinaryRule div a b) (division a b)
unfolding division
division_sound integer integer = gives (divides whole whole)
division_sound integer float = gives (divides whole fractional)
division_sound float integer = gives (divides fractional whole)
division_sound float float = gives (divides fractional fractional)
division_sound _ _ = mismatches

logical_sound :
    {op : BinaryOperator}
    → Logical op
    → (a b : StaticType) → Gives (BinaryRule op a b) (logical a b)
unfolding logical
logical_sound k boolean boolean = gives (combines k)
logical_sound k _ _ = mismatches

relational_sound :
    {op : BinaryOperator}
    → Relational op
    → (a b : StaticType) → Gives (BinaryRule op a b) (relational a b)
unfolding relational
relational_sound k string string = gives (sorts k)
relational_sound k integer integer = gives (compares k whole whole)
relational_sound k integer float = gives (compares k whole fractional)
relational_sound k float integer = gives (compares k fractional whole)
relational_sound k float float = gives (compares k fractional fractional)
relational_sound k boolean string = mismatches
relational_sound k boolean integer = mismatches
relational_sound k boolean float = mismatches
relational_sound k _ _ = mismatches

equality_sound :
    {op : BinaryOperator}
    → Equality op
    → (a b : StaticType) → Gives (BinaryRule op a b) (equality a b)
unfolding equality
equality_sound k string string = gives (matches k)
equality_sound k boolean boolean = gives (matches k)
equality_sound k integer integer = gives (equates k whole whole)
equality_sound k integer float = gives (equates k whole fractional)
equality_sound k float integer = gives (equates k fractional whole)
equality_sound k float float = gives (equates k fractional fractional)
equality_sound k _ _ = mismatches

binary_sound :
    (op : BinaryOperator) (a b : StaticType) → Gives (BinaryRule op a b) (binary_type op a b)
unfolding binary_type
binary_sound add a b = addition_sound a b
binary_sound sub a b = arithmetic_sound subtracts a b
binary_sound mul a b = arithmetic_sound multiplies a b
binary_sound mod_ a b = arithmetic_sound remains a b
binary_sound div a b = division_sound a b
binary_sound and_ a b = logical_sound conjunction a b
binary_sound or_ a b = logical_sound disjunction a b
binary_sound lt a b = relational_sound less a b
binary_sound le a b = relational_sound at_most a b
binary_sound gt a b = relational_sound greater a b
binary_sound ge a b = relational_sound at_least a b
binary_sound eq a b = equality_sound equal a b
binary_sound ne a b = equality_sound unequal a b

symbol_sound :
    (name : ℕ) (symbols : SymbolTable) (found : Option StaticType)
    → lookup name symbols ≡ found
    → Gives (HasType (some symbols) (identifier name)) (symbol_type name found)
symbol_sound name symbols none h = misses
symbol_sound name symbols (some t) h = gives (of_identifier refl h)

infer_sound : (n : AstNode) (table : Option SymbolTable) → Gives (HasType table n) (infer n table)
unfolding infer
infer_sound (literal t) table = gives of_literal
infer_sound (identifier name) none = misses
infer_sound (identifier name) (some symbols) = symbol_sound name symbols (lookup name symbols) refl
infer_sound (unary_op op n) table =
    and_then-Gives (unary_type op) (infer_sound n table)
      (λ a d. weaken (λ t rule. of_unary d rule) (unary_sound op a))
infer_sound (binary_op m op n) table = and_then-Gives _ (infer_sound m table) (λ a d.
    and_then-Gives (binary_type op a) (infer_sound n table)
      (λ b f. weaken (λ t rule. of_binary d f rule) (binary_sound op a b)))

-- The engine infers a type for an expression exactly when the rules give the expression that type, so
-- that it refuses the expressions without a type.
pub infer-HasType :
    (table : Option SymbolTable) (n : AstNode) (t : StaticType)
    → (infer n table ≡ inferred t) ↔ HasType table n t
infer-HasType table n t = (given (infer_sound n table), infer_complete)

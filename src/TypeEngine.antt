-- ===== src/TypeEngine.antt =====
-- type_engine/types.py and type_engine/validator.py: expressions, and the types inferred for them.
-- Names are numbers. The value of a literal, which inference never reads, is left out, and so is the
-- case of a node of another class.
pub mod Typing
mod Complete
pub mod Rules
mod Tests
use nexus_smarttrading.Prelude.{
  ℕ, Bool, true, false, ◌&&◌, ◌||◌, Option, none, some, List, [], if◌then◌else◌,
}
use nexus_smarttrading.Prelude.Dict.{contains, insert, lookup}

pub data StaticType : Type 0 where
  integer float string boolean : StaticType

pub data BinaryOperator : Type 0 where
  add sub mul div mod_ and_ or_ eq ne lt le gt ge : BinaryOperator

pub data UnaryOperator : Type 0 where
  not_ neg pos_ : UnaryOperator

pub data AstNode : Type 0 where
  literal : StaticType → AstNode
  identifier : ℕ → AstNode
  binary_op : AstNode → BinaryOperator → AstNode → AstNode
  unary_op : UnaryOperator → AstNode → AstNode

abbrev pub SymbolTable : Type 0
SymbolTable = List (ℕ × StaticType)

abbrev pub define : SymbolTable → ℕ → StaticType → SymbolTable
define table name symbol_type = insert name symbol_type table

-- A type, or one of the exceptions `TypeMismatchError` and `UndefinedSymbolError`.
pub data Inferred : Type 0 where
  inferred : StaticType → Inferred
  type_mismatch : StaticType → StaticType → Inferred
  undefined_symbol : ℕ → Inferred

abbrev pub symbol_type : ℕ → Option StaticType → Inferred
symbol_type name none = undefined_symbol name
symbol_type name (some t) = inferred t

abbrev pub lookup_symbol : SymbolTable → ℕ → Inferred
lookup_symbol table name = symbol_type name (lookup name table)

-- `operand_type = self.infer(...)`, and what follows.
abbrev pub and_then : Inferred → (StaticType → Inferred) → Inferred
and_then (inferred t) next = next t
and_then (type_mismatch expected actual) next = type_mismatch expected actual
and_then (undefined_symbol name) next = undefined_symbol name

abbrev pub is_string : StaticType → Bool
is_string string = true
is_string _ = false

abbrev pub is_boolean : StaticType → Bool
is_boolean boolean = true
is_boolean _ = false

abbrev pub is_float : StaticType → Bool
is_float float = true
is_float _ = false

-- `t in NUMERIC_TYPES`
abbrev pub is_numeric : StaticType → Bool
is_numeric integer = true
is_numeric float = true
is_numeric _ = false

abbrev pub same_type : StaticType → StaticType → Bool
same_type integer t = elim t [ integer ↦ true | float ↦ false | string ↦ false | boolean ↦ false ]
same_type float t = is_float t
same_type string t = is_string t
same_type boolean t = is_boolean t

unfoldable pub unary_type : UnaryOperator → StaticType → Inferred
unary_type not_ t = if is_boolean t then inferred boolean else type_mismatch boolean t
unary_type neg t = if is_numeric t then inferred t else type_mismatch integer t
unary_type pos_ t = if is_numeric t then inferred t else type_mismatch integer t

-- `Type.FLOAT` if one of them is that.
abbrev pub wider : StaticType → StaticType → StaticType
wider a b = if is_float a || is_float b then float else integer

-- The cases of `_infer_binary`, one for each group of operators.
unfoldable pub addition : StaticType → StaticType → Inferred
addition a b =
    if is_string a || is_string b
    then (if is_string a
        then (if is_string b then inferred string else type_mismatch string b)
        else type_mismatch string a)
    else if is_numeric a && is_numeric b
    then inferred (wider a b)
    else if is_numeric a
    then type_mismatch integer b
    else type_mismatch integer a

unfoldable pub arithmetic : StaticType → StaticType → Inferred
arithmetic a b =
    if is_numeric a
    then (if is_numeric b then inferred (wider a b) else type_mismatch a b)
    else type_mismatch (if is_numeric b then b else integer) a

unfoldable pub division : StaticType → StaticType → Inferred
division a b =
    if is_numeric a
    then (if is_numeric b then inferred float else type_mismatch a b)
    else type_mismatch (if is_numeric b then b else float) a

unfoldable pub logical : StaticType → StaticType → Inferred
logical a b =
    if is_boolean a
    then (if is_boolean b then inferred boolean else type_mismatch boolean b)
    else type_mismatch boolean a

unfoldable pub relational : StaticType → StaticType → Inferred
relational a b =
    if is_numeric a && is_numeric b
    then inferred boolean
    else if is_string a && is_string b
    then inferred boolean
    else if is_numeric b
    then type_mismatch b a
    else if is_numeric a
    then type_mismatch a b
    else if is_string b
    then type_mismatch string a
    else type_mismatch a b

unfoldable pub equality : StaticType → StaticType → Inferred
equality a b =
    if is_numeric a && is_numeric b
    then inferred boolean
    else if same_type a b
    then inferred boolean
    else if is_numeric b
    then type_mismatch b a
    else if is_numeric a
    then type_mismatch a b
    else type_mismatch a b

unfoldable pub binary_type : BinaryOperator → StaticType → StaticType → Inferred
binary_type add a b = addition a b
binary_type sub a b = arithmetic a b
binary_type mul a b = arithmetic a b
binary_type mod_ a b = arithmetic a b
binary_type div a b = division a b
binary_type and_ a b = logical a b
binary_type or_ a b = logical a b
binary_type lt a b = relational a b
binary_type gt a b = relational a b
binary_type le a b = relational a b
binary_type ge a b = relational a b
binary_type eq a b = equality a b
binary_type ne a b = equality a b

unfoldable pub infer : AstNode → Option SymbolTable → Inferred
infer (literal t) table = inferred t
infer (identifier name) none = undefined_symbol name
infer (identifier name) (some table) = lookup_symbol table name
infer (unary_op operator operand) table = and_then (infer operand table) (unary_type operator)
infer (binary_op left operator right) table =
    and_then (infer left table) (λ a. and_then (infer right table) (binary_type operator a))

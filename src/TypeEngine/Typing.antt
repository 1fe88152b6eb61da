-- ===== src/TypeEngine/Typing.antt =====
-- The typing rules of expressions.
use nexus_smarttrading.Prelude.{ℕ, ◌≡◌, Option, some}
use nexus_smarttrading.Prelude.Dict.{lookup}
use nexus_smarttrading.TypeEngine.{
  StaticType, integer, float, string, boolean, BinaryOperator, add, sub, mul, div, mod_, and_, or_,
  eq, ne, lt, le, gt, ge, UnaryOperator, not_, neg, pos_, AstNode, literal, identifier, binary_op,
  unary_op, SymbolTable,
}

-- The numeric types, and the type of the result of an operation on two of them.
pub data IsNumeric : StaticType → Type 0 where
  whole : IsNumeric integer
  fractional : IsNumeric float

pub data Promotes : StaticType → StaticType → StaticType → Type 0 where
  stays : Promotes integer integer integer
  widens_left : {b : StaticType} → IsNumeric b → Promotes float b float
  widens_right : {a : StaticType} → IsNumeric a → Promotes a float float

-- What the operators take and give.
pub data UnaryRule : UnaryOperator → StaticType → StaticType → Type 0 where
  negation : UnaryRule not_ boolean boolean
  minus : {t : StaticType} → IsNumeric t → UnaryRule neg t t
  plus : {t : StaticType} → IsNumeric t → UnaryRule pos_ t t

pub data Arithmetic : BinaryOperator → Type 0 where
  adds : Arithmetic add
  subtracts : Arithmetic sub
  multiplies : Arithmetic mul
  remains : Arithmetic mod_

pub data Logical : BinaryOperator → Type 0 where
  conjunction : Logical and_
  disjunction : Logical or_

pub data Relational : BinaryOperator → Type 0 where
  less : Relational lt
  at_most : Relational le
  greater : Relational gt
  at_least : Relational ge

pub data Equality : BinaryOperator → Type 0 where
  equal : Equality eq
  unequal : Equality ne

pub data BinaryRule : BinaryOperator → StaticType → StaticType → StaticType → Type 0 where
  concatenates : BinaryRule add string string string
  computes :
      {op : BinaryOperator} {a b t : StaticType}
      → Arithmetic op
      → Promotes a b t
      → BinaryRule op a b t
  divides : {a b : StaticType} → IsNumeric a → IsNumeric b → BinaryRule div a b float
  combines : {op : BinaryOperator} → Logical op → BinaryRule op boolean boolean boolean
  compares :
      {op : BinaryOperator} {a b : StaticType}
      → Relational op
      → IsNumeric a
      → IsNumeric b
      → BinaryRule op a b boolean
  sorts : {op : BinaryOperator} → Relational op → BinaryRule op string string boolean
  equates :
      {op : BinaryOperator} {a b : StaticType}
      → Equality op
      → IsNumeric a
      → IsNumeric b
      → BinaryRule op a b boolean
  matches : {op : BinaryOperator} {a : StaticType} → Equality op → BinaryRule op a a boolean

pub data HasType (table : Option SymbolTable) : AstNode → StaticType → Type 0 where
  of_literal : {t : StaticType} → HasType table (literal t) t
  of_identifier :
      {name : ℕ} {t : StaticType} {symbols : SymbolTable}
      → table ≡ some symbols
      → lookup name symbols ≡ some t
      → HasType table (identifier name) t
  of_unary :
      {op : UnaryOperator} {n : AstNode} {a t : StaticType}
      → HasType table n a
      → UnaryRule op a t
      → HasType table (unary_op op n) t
  of_binary :
      {op : BinaryOperator} {m n : AstNode} {a b t : StaticType}
      → HasType table m a
      → HasType table n b
      → BinaryRule op a b t
      → HasType table (binary_op m op n) t

-- ===== src/TypeEngine/Tests.antt =====
-- Types of small expressions.
use nexus_smarttrading.Prelude.{◌≡◌, refl, ◌↔◌, some, [], ◌∷◌}
use nexus_smarttrading.Prelude.Dict.{lookup}
use nexus_smarttrading.TypeEngine.{
  integer, float, string, AstNode, literal, identifier, binary_op, add, div, SymbolTable, inferred,
  type_mismatch, infer, binary_type, addition, division,
}
use nexus_smarttrading.TypeEngine.Typing.{HasType}
use nexus_smarttrading.TypeEngine.Rules.{infer-HasType}

abbrev symbols : SymbolTable
symbols = (7, float) ∷ []

-- `x / 2`, for a float `x`
abbrev half : AstNode
half = binary_op (identifier 7) div (literal integer)

infer-HasType_example :
    (infer half (some symbols) ≡ inferred float) ↔ HasType (some symbols) half float
infer-HasType_example = infer-HasType (some symbols) half float

string_and_number :
    infer (binary_op (literal string) add half) (some symbols) ≡ type_mismatch string float
unfolding infer lookup binary_type addition division
string_and_number = refl

-- ===== src/Paginator/Search.antt =====
-- `modelFields`, `relationalCondition` and `searchConditions` of src/utils/paginator.ts. The
-- metadata of a model (Prisma's DMMF) is a parameter; a field path is split at its dots.
use express_core.Base.{Bool, List, Option, if◌then◌else◌, ◌∷◌, ◌==◌, none, ◌==ₛ◌, some}
use Prim.Native.String.{String, []}
use Prim.Native.Char.{Char, code}
use Prim.Native.String
use express_core.Base.{[], ◌∷◌}
use express_core.Store.Exec.{Error, Result, ok, err, other, and_then}

pub data FieldKind : Type 0 where
  scalar object other_kind : FieldKind

pub record FieldMeta : Type 0 where
  pub kind : FieldKind
  pub is_list : Bool
  pub type : String

-- { [leaf]: { contains } }, and a hop to a related row or to some related row.
pub data Condition : Type 0 where
  contains : String → String → Condition
  related : String → Condition → Condition
  some_related : String → Condition → Condition

abbrev pub dot : Char
dot = "."

-- path.split('.'): the first segment and the others.
abbrev extend : Char → String × List String → String × List String
extend c (s, rest) = (String.◌∷◌ c s, rest)

abbrev cut : String × List String → String × List String
cut (s, rest) = ("", s ∷ rest)

unfoldable pub split_dots : String → String × List String
split_dots String.[] = ("", [])
split_dots (String.◌∷◌ c s) =
    let rest = split_dots s in if code c == code dot then cut rest else extend c rest

unfoldable pub field_of : List (String × FieldMeta) → String → Option FieldMeta
field_of [] name = none
field_of ((n, m) ∷ fields) name = if n ==ₛ name then some m else field_of fields name

abbrev hop_to : String → FieldMeta → Condition → Condition
hop_to name meta c = if meta.is_list then some_related name c else related name c

infixr 5 ◌<>◌
abbrev ◌<>◌ : String → String → String
a <> b = String.◌++◌ a b

-- The errors of a path: the segment, the model that it is looked up in, and the whole path.
abbrev not_a_relation : String → String → String → Error
not_a_relation name current path = other (
    "[paginator] \"" <> name <> "\" is not a relation of " <> current <> " (in \"" <> path <> "\")")

abbrev not_a_string : String → String → String → Error
not_a_string leaf current path = other (
    "[paginator] \"" <> leaf <> "\" is not a String field of " <> current <> " (in \"" <> path
    <> "\")")

module _ (metadata : String → Option (List (String × FieldMeta))) where
  unfoldable pub model_fields : String → Result (List (String × FieldMeta))
  model_fields name = elim (metadata name) [
    | none ↦ err (other ("[paginator] Unknown Prisma model \"" <> name <> "\""))
    | some fields ↦ ok fields
  ]

  abbrev leaf_condition : Error → String → String → Option FieldMeta → Result Condition
  leaf_condition failure leaf search none = err failure
  leaf_condition failure leaf search (some m) = elim m.kind [
    | scalar ↦ if m.type ==ₛ "String" then ok (contains leaf search) else err failure
    | object ↦ err failure
    | other_kind ↦ err failure
  ]

  abbrev follow : Error → String → Option FieldMeta → (String → Result Condition) → Result Condition
  follow failure name none k = err failure
  follow failure name (some m) k = elim m.kind [
    | object ↦ and_then (k m.type) (λ c. ok (hop_to name m c))
    | scalar ↦ err failure
    | other_kind ↦ err failure
  ]

  -- From the model `current`: the segment `name`, and those after it.
  unfoldable pub relational_condition :
      String → String → String → List String → String → Result Condition
  relational_condition path current name [] search =
      and_then (model_fields current) (λ fields.
        leaf_condition (not_a_string name current path) name search (field_of fields name))
  relational_condition path current name (next ∷ rest) search =
      and_then (model_fields current) (λ fields.
        follow (not_a_relation name current path) name (field_of fields name)
          (λ target. relational_condition path target next rest search))

  abbrev at_path : Option String → String → String → String × List String → Result Condition
  at_path model_name search field (name, []) = ok (contains field search)
  at_path none search field (name, next ∷ rest) =
      err (
        other ("[paginator] modelName is required for relational search field \"" <> field <> "\""))
  at_path (some model) search field (name, next ∷ rest) =
      if model ==ₛ ""
      then err (
          other
            ("[paginator] modelName is required for relational search field \"" <> field <> "\""))
      else relational_condition field model name (next ∷ rest) search

  unfoldable pub search_conditions : Option String → String → List String → Result (List Condition)
  search_conditions model_name search [] = ok []
  search_conditions model_name search (field ∷ fields) =
      and_then (at_path model_name search field (split_dots field))
        (λ c. and_then (search_conditions model_name search fields) (λ cs. ok (c ∷ cs)))

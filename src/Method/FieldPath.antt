-- ===== src/Method/FieldPath.antt =====
-- internal/apigw/apigw_method.go: `path2fieldNumbers`, which finds the field that a dotted path
-- names. A message is named by its position in the registry; `jsonName` is `json_name` of
-- OpenApi/Schema/Options.antt.
pub mod Laws
mod Tests
use protoc_gen_apigw.Base.Text.{join, codes, text_eq, Text}
use protoc_gen_apigw.Base.{
  [], reverse, if◌then◌else◌, ◌++◌, ◌||◌, get_elem?, some, ◌∷◌, none, ℕ, Bool, Option, List,
}
use protoc_gen_apigw.Base.Outcome.{◌>>=◌, ok, panic, Outcome}
use protoc_gen_apigw.OpenApi.Schema.Options.{json_name}
use protoc_gen_apigw.Descriptor.{embed_type, FieldType, Field, Message}

-- the test of the loop
unfoldable pub matches : Text → Field → Bool
matches next f = text_eq next (json_name f) || text_eq next f.name

-- the loop with its `break`: the first field that matches
unfoldable pub find_field : Text → List Field → Option Field
find_field next [] = none
find_field next (f ∷ fs) = if matches next f then some f else find_field next fs

-- `f.Type().Embed()`
abbrev pub embedded : List Message → FieldType → Option Message
embedded registry (embed_type m) = get_elem? registry m
embedded registry _ = none

abbrev pub unexpected_path {ℓ} : {A : Type ℓ} → List Text → Message → Outcome A
unexpected_path path m = panic (
    codes "apigw: getFieldNumbers: unexpected path: "
    ++ (join path b'.' ++ (codes " on " ++ m.fully_qualified_name)))

-- The part of the loop for a path that goes on, with the nested message.
unfoldable pub go_deeper :
    (Message → Outcome (List ℕ × Option Field))
    → List Text
    → Message
    → Field
    → Option Message
    → Outcome (List ℕ × Option Field)
go_deeper deeper path m f none = unexpected_path path m
go_deeper deeper path m f (some nested) =
    deeper nested >>= λ (nums, edge_field). ok (f.number ∷ nums, edge_field)

-- The body of the loop at the field that matches.
unfoldable pub follow :
    List Message
    → (Message → Outcome (List ℕ × Option Field))
    → List Text
    → List Text
    → Message
    → Option Field
    → Outcome (List ℕ × Option Field)
unfolding go_deeper
follow registry deeper path rest m none = unexpected_path path m
follow registry deeper path [] m (some f) = ok (f.number ∷ [], some f)
follow registry deeper path (p ∷ ps) m (some f) =
    go_deeper deeper path m f (embedded registry f.type)

unfoldable pub path2field_numbers :
    List Message → List Text → Message → Outcome (List ℕ × Option Field)
unfolding follow
path2field_numbers registry [] m = ok ([], none)
path2field_numbers registry (next ∷ rest) m =
    follow registry (λ nested. path2field_numbers registry rest nested) (next ∷ rest) rest m
      (find_field next m.fields)
    >>= λ (nums, edge_field). ok (reverse nums, edge_field)

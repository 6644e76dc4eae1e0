-- ===== src/OpenApi/Tracker.antt =====
-- internal/apigw/apigw_openapi.go: `msgTracker`, the messages that a service's operations use. A
-- message is named by its position in the registry; the map is an association list, whose order
-- stands for the order in which Go iterates over it.
pub mod Keys
pub mod Laws
mod Tests
use protoc_gen_apigw.Base.{
  ◌&&◌, false, ◌∷◌, none, is_empty, if◌then◌else◌, some, true, [], ◌++◌, Bool, Option, List, ℕ,
}
use protoc_gen_apigw.Base.OrderedMap.{value, keys, set, OrderedMap}
use protoc_gen_apigw.Base.Outcome.{panic, ok, Outcome}
use protoc_gen_apigw.Base.Text.{codes, Text, text_eq}
use protoc_gen_apigw.OpenApi.Schema.Data.{SchemaProxy}
use protoc_gen_apigw.Base.Sorting.{sort_by}
use protoc_gen_apigw.OpenApi.Schema.Container.{ref_to}
use protoc_gen_apigw.OpenApi.Schema.Options.{nicer_fqn}

pub record SchemaData : Type 0 where
  pub path : Text
  pub msg : ℕ
  pub filter : List Text

abbrev pub MsgTracker : Type 0
MsgTracker = OrderedMap SchemaData

-- reflect.DeepEqual on two slices of strings that are not empty
unfoldable pub texts_eq : List Text → List Text → Bool
unfolding text_eq
texts_eq [] [] = true
texts_eq [] (b ∷ t) = false
texts_eq (a ∷ s) [] = false
texts_eq (a ∷ s) (b ∷ t) = text_eq a b && texts_eq s t

-- `Add`, for a message with this full name
unfoldable pub add : ℕ → Text → MsgTracker → SchemaProxy × MsgTracker
unfolding nicer_fqn ref_to
add id full_name mt =
    let fqn = nicer_fqn full_name in
    (ref_to fqn, set fqn (record { path = fqn; msg = id; filter = [] }) mt)

-- the branch of `AddInput` on what the map holds under the key
unfoldable pub add_input_under :
    ℕ → List Text → Text → Option SchemaData → MsgTracker → Outcome (SchemaProxy × MsgTracker)
unfolding texts_eq ref_to
add_input_under id filter fqn none mt =
    ok (ref_to fqn, set fqn (record { path = fqn; msg = id; filter = filter }) mt)
add_input_under id filter fqn (some sd) mt =
    if texts_eq sd.filter filter
    then ok (ref_to fqn, mt)
    else panic (
        codes "apigw: AddInput: "
        ++ (fqn ++ codes ": filter must be identical for repeated inputs"))

-- `AddInput`; its panic also prints the filters
unfoldable pub add_input : ℕ → Text → List Text → MsgTracker → Outcome (SchemaProxy × MsgTracker)
unfolding add add_input_under
add_input id full_name filter mt =
    let fqn = nicer_fqn full_name ++ codes "Input" in
    if is_empty filter
    then ok (add id full_name mt)
    else add_input_under id filter fqn (value fqn mt) mt

unfoldable pub sorted_keys : MsgTracker → List Text
unfolding sort_by
sorted_keys mt = sort_by (λ k. k) (keys mt)

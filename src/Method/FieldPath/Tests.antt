-- ===== src/Method/FieldPath/Tests.antt =====
-- Paths through three nested messages.
use protoc_gen_apigw.OpenApi.Schema.Options.{json_name}
use protoc_gen_apigw.Base.{arith, refl, some, false, none, ◌≡◌, [], ◌++◌, ℕ, ◌∷◌, List}
use protoc_gen_apigw.Method.FieldPath.Laws.{
  path2field_numbers-reverse, path2field_numbers-three, at_field, through_field, LeadsTo,
}
use protoc_gen_apigw.Base.Outcome.{ok}
use protoc_gen_apigw.Descriptor.{
  no_oneof, unknown_wkt, string_t, FieldType, embed_type, scalar_type, Field, Message,
}
use protoc_gen_apigw.Base.Text.{text_eq, codes, Text}
use protoc_gen_apigw.Method.FieldPath.{matches, find_field, path2field_numbers}

abbrev a_field : Text → ℕ → FieldType → Field
a_field n i t = record {
  name = n;
  json_name = none;
  snake_name = n;
  number = i;
  type = t;
  leading_comments = [];
  deprecated = false;
  message_name = codes "M";
  membership = no_oneof;
  options = [];
}

abbrev a_message : Text → List Field → Message
a_message n fs = record {
  name = n;
  upper_camel_name = n;
  fully_qualified_name = codes ".p." ++ n;
  leading_comments = [];
  deprecated = false;
  is_well_known = false;
  well_known_type = unknown_wkt;
  fields = fs;
  non_one_of_fields = fs;
  synthetic_one_of_fields = [];
  real_one_ofs = [];
  options = [];
}

abbrev inner : Message
inner = a_message (codes "Inner") (a_field (codes "id") 3 (scalar_type string_t) ∷ [])

abbrev middle : Message
middle = a_message (codes "Middle") (a_field (codes "b") 2 (embed_type 0) ∷ [])

abbrev outer : Message
outer = a_message (codes "Outer") (a_field (codes "a") 1 (embed_type 1) ∷ [])

abbrev nested_messages : List Message
nested_messages = inner ∷ middle ∷ outer ∷ []

abbrev leaf : Field
leaf = a_field (codes "id") 3 (scalar_type string_t)

two_levels : LeadsTo nested_messages middle (codes "b" ∷ codes "id" ∷ []) (2 ∷ 3 ∷ []) leaf
unfolding find_field matches text_eq json_name
two_levels =
    through_field middle inner (codes "b") (codes "id") [] (3 ∷ [])
      (a_field (codes "b") 2 (embed_type 0)) leaf refl refl (at_field inner (codes "id") leaf refl)

three_levels :
    LeadsTo nested_messages outer (codes "a" ∷ codes "b" ∷ codes "id" ∷ []) (1 ∷ 2 ∷ 3 ∷ []) leaf
unfolding find_field matches text_eq json_name
three_levels =
    through_field outer middle (codes "a") (codes "b") (codes "id" ∷ []) (2 ∷ 3 ∷ [])
      (a_field (codes "a") 1 (embed_type 1)) leaf refl refl two_levels

path2field_numbers-reverse_example :
    path2field_numbers nested_messages (codes "b" ∷ codes "id" ∷ []) middle
    ≡ ok (3 ∷ 2 ∷ [], some leaf)
path2field_numbers-reverse_example =
    path2field_numbers-reverse nested_messages middle (codes "b" ∷ codes "id" ∷ []) (2 ∷ 3 ∷ [])
      leaf two_levels (omega arith)

path2field_numbers-three_example :
    path2field_numbers nested_messages (codes "a" ∷ codes "b" ∷ codes "id" ∷ []) outer
    ≡ ok (2 ∷ 3 ∷ 1 ∷ [], some leaf)
path2field_numbers-three_example =
    path2field_numbers-three nested_messages outer (codes "a" ∷ codes "b" ∷ codes "id" ∷ []) 1 2 3
      leaf three_levels

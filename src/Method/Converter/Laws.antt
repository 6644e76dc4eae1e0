-- ===== src/Method/Converter/Laws.antt =====
-- Which fields `generateFieldConverter` takes, and what `generateNestedFieldConverter` makes.
use protoc_gen_apigw.Base.{
  zero, suc, ap, refl, ◌++◌, arith, length, [], ◌+◌, true, ◌∷◌, false, ◌≡◌, ℕ, Bool, List,
}
use protoc_gen_apigw.Descriptor.{
  bytes_t, message_t, group_t, float_t, double_t, embed_type, enum_type, map_type, repeated_type,
  scalar_type, FieldType,
}
use protoc_gen_apigw.Method.Converter.{
  then_line, protopack_message, var_name, ImportTracker, protopack_accessor, ParamContext, Snippet,
  generate_nested_field_converter, nested_messages,
}
use protoc_gen_apigw.Base.Outcome.{exhausted, panic, err, ok, Outcome}
use protoc_gen_apigw.Base.Text.{Text}

-- Fields that a text converts to: singular ones of an integer, enum, string or bool type.
abbrev pub convertible : FieldType → Bool
convertible (scalar_type double_t) = false
convertible (scalar_type float_t) = false
convertible (scalar_type group_t) = false
convertible (scalar_type message_t) = false
convertible (scalar_type bytes_t) = false
convertible (scalar_type _) = true
convertible (enum_type e) = true
convertible (embed_type m) = false
convertible (repeated_type e) = false
convertible (map_type k e) = false

-- A converter that writes its value to this name.
abbrev pub Converts : Text → Outcome (ParamContext × ImportTracker) → Type 0
Converts output (ok (p, ix)) = p.converter_output_name ≡ output
Converts output (err e) = ⊥
Converts output (panic e) = ⊥
Converts output exhausted = ⊥

abbrev pub Refuses : Outcome (ParamContext × ImportTracker) → Type 0
Refuses (err e) = Unit
Refuses _ = ⊥

abbrev pub ConvertsIf : Bool → Text → Outcome (ParamContext × ImportTracker) → Type 0
ConvertsIf true output r = Converts output r
ConvertsIf false output r = Refuses r

-- The field numbers of the templates for nested messages, in their order.
abbrev pub numbers_of : Snippet → List ℕ
numbers_of (protopack_accessor i number v g p) = number ∷ []
numbers_of (protopack_message number v i p) = number ∷ []
numbers_of (then_line s t) = numbers_of s ++ numbers_of t
numbers_of _ = []

-- The variables that the templates read and those that they declare, in their order.
abbrev pub variables_of : Snippet → List (Text × Text)
variables_of (protopack_accessor i number v g p) = (i, v) ∷ []
variables_of (protopack_message number previous v p) = (previous, v) ∷ []
variables_of (then_line s t) = variables_of s ++ variables_of t
variables_of _ = []

-- That many variables from the offset on, each with the next one.
abbrev pub successive : ℕ → ℕ → List (Text × Text)
successive offset zero = []
successive offset (suc n) = (var_name offset, var_name (offset + 1)) ∷ successive (offset + 1) n

nested_messages-numbers :
    (number : ℕ) (ns : List ℕ) (param : Text) (offset : ℕ)
    → (numbers_of (nested_messages number ns param offset).0 ≡ number ∷ ns)
      × (variables_of (nested_messages number ns param offset).0
          ≡ successive offset (length (number ∷ ns)))
      × ((nested_messages number ns param offset).1 ≡ offset + length (number ∷ ns))
unfolding nested_messages
nested_messages-numbers number [] param offset = (refl, refl, omega arith)
nested_messages-numbers number (n ∷ ns) param offset =
    let (numbers, variables, last) = nested_messages-numbers n ns param (offset + 1) in
    (rw numbers refl, rw variables refl, omega arith)

-- The templates of a nested converter that starts at an offset.
abbrev pub IsNested : List ℕ → ℕ → Outcome (ParamContext × ImportTracker × ℕ) → Type 0
IsNested ns start (ok (p, ix, offset)) =
    (numbers_of p.converter ≡ ns)
    × (variables_of p.converter ≡ successive start (length ns))
    × (p.converter_output_name ≡ var_name (start + length ns))
    × (offset ≡ start + length ns)
    × (ix.protobuf_proto_pack ≡ true)
IsNested ns start _ = ⊥

-- For a nonempty list of field numbers, `generateNestedFieldConverter` makes one template for each
-- number, in the order of the list. The first one reads the variable at the offset, each later one
-- reads the variable that the one before it declares, and each declares the variable at the next
-- offset; the last of them is the output name, its offset is returned, and the import of protopack is
-- marked.
pub generate_nested_field_converter_lem :
    (number : ℕ) (ns : List ℕ) (ix : ImportTracker) (getter : Snippet) (offset : ℕ) (param : Text)
    → IsNested
        (number ∷ ns)
        offset
        (generate_nested_field_converter (number ∷ ns) ix getter offset param)
unfolding generate_nested_field_converter
generate_nested_field_converter_lem number [] ix getter offset param =
    (refl, refl, refl, omega arith, refl)
generate_nested_field_converter_lem number (n ∷ ns) ix getter offset param =
    let (numbers, variables, last) = nested_messages-numbers n ns param (offset + 1) in
    (rw numbers refl, rw variables refl, rw last (ap var_name (omega arith)), omega arith, refl)

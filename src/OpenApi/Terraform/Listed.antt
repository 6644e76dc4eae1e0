-- ===== src/OpenApi/Terraform/Listed.antt =====
-- What an entity contributes to the lists of the Terraform extension, by its type and exclusion.
use protoc_gen_apigw.Api.{
  delete, type_unspecified, update, create, other_type, read, MethodType, data_source_only,
  resource_only, OptionalExclusion, TerraformEntity,
}
use protoc_gen_apigw.Base.Int.{int_text, is_zero}
use protoc_gen_apigw.Base.Text.{codes, Text}
use protoc_gen_apigw.Base.{
  Bool-cases, Option, inr, inl, sym, not, refl, ◌&&◌, append-nil, some, arith, false, none, ◌∷◌, [],
  if◌then◌else◌, true, ◌++◌, Bool, ◌≡◌, List,
}
use protoc_gen_apigw.OpenApi.Terraform.{entity_text, method_suffix}

abbrev pub excludes_resource : OptionalExclusion → Bool
excludes_resource data_source_only = true
excludes_resource _ = false

abbrev pub excludes_datasource : OptionalExclusion → Bool
excludes_datasource resource_only = true
excludes_datasource _ = false

-- The word for a type that is listed.
abbrev pub label_of : MethodType → Option Text
label_of create = some (codes "create")
label_of read = some (codes "read")
label_of update = some (codes "update")
label_of delete = some (codes "delete")
label_of _ = none

abbrev is_read : MethodType → Bool
is_read read = true
is_read _ = false

-- An entity as it is listed: its name, its type and its number, if that is not 0.
abbrev listed_as : TerraformEntity → Text → Text
listed_as te label =
    te.name
    ++ (b'#' ∷ label)
    ++ (if is_zero te.operation_number then [] else b'#' ∷ int_text te.operation_number)

abbrev listed : TerraformEntity → Option Text → List Text
listed te none = []
listed te (some label) = listed_as te label ∷ []

-- The names that an entity contributes to the resource, and to the data source.
pub resource_text : TerraformEntity → List Text
resource_text te =
    if excludes_resource te.optional_exclusion then [] else listed te (label_of te.type)

pub datasource_text : TerraformEntity → List Text
datasource_text te =
    if is_read te.type && not (excludes_datasource te.optional_exclusion)
    then listed te (label_of te.type)
    else []

-- What the code makes of a type and of a name.
abbrev pub IsListed : Option (Bool × Text) → MethodType → Type 0
IsListed none t = label_of t ≡ none
IsListed (some (reads, suffix)) t =
    (reads ≡ is_read t) × ((label : Text) × (label_of t ≡ some label) × (suffix ≡ b'#' ∷ label))

pub method_suffix-IsListed : (t : MethodType) → IsListed (method_suffix t) t
unfolding method_suffix
method_suffix-IsListed type_unspecified = refl
method_suffix-IsListed create = (refl, (codes "create", refl, refl))
method_suffix-IsListed read = (refl, (codes "read", refl, refl))
method_suffix-IsListed update = (refl, (codes "update", refl, refl))
method_suffix-IsListed delete = (refl, (codes "delete", refl, refl))
method_suffix-IsListed (other_type n) = refl

entity_text-listed_as :
    (te : TerraformEntity) (label : Text) → entity_text te (b'#' ∷ label) ≡ listed_as te label
unfolding entity_text
entity_text-listed_as te label = elim (Bool-cases (is_zero te.operation_number)) [
  | inl unnumbered ↦ rw unnumbered (sym (append-nil (te.name ++ (b'#' ∷ label))))
  | inr other ↦ rw other refl
]

-- An entity that the code skips contributes nothing.
pub skipped_texts :
    (te : TerraformEntity)
    → label_of te.type ≡ none
    → (datasource_text te ≡ []) × (resource_text te ≡ [])
unfolding datasource_text resource_text
skipped_texts te e = rw e ground arith

-- What an entity contributes, by the suffix that the code gives it.
pub suffix_texts :
    (te : TerraformEntity) (reads : Bool) (suffix : Text)
    → IsListed (some (reads, suffix)) te.type
    → (datasource_text te ≡ (
        if reads && not (excludes_datasource te.optional_exclusion)
        then entity_text te suffix ∷ []
        else []))
      × (resource_text te
          ≡ (if excludes_resource te.optional_exclusion then [] else entity_text te suffix ∷ []))
unfolding datasource_text resource_text
suffix_texts te reads suffix (r, (label, l, s)) =
    rw (r, l, s, entity_text-listed_as te label) (refl, refl)

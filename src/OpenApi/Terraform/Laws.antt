-- ===== src/OpenApi/Terraform/Laws.antt =====
-- What the Terraform extension lists, against filters over the operation's entities.
use protoc_gen_apigw.Api.{data_source_only, resource_only, OptionalExclusion, TerraformEntity}
use protoc_gen_apigw.Base.Text.{Text}
use protoc_gen_apigw.Base.{
  inr, inl, ◌≤◌, Option-cases, append_assoc, ◌∙◌, sym, not, refl, ◌&&◌, ap, append-nil, suc, arith,
  false, ◌+◌, ◌∷◌, [], if◌then◌else◌, true, ℕ, ◌++◌, ◌≡◌, List,
}
use protoc_gen_apigw.OpenApi.Terraform.{
  datasource_entry, no_values, resource_entry, collect_entities, collect_entity, entity_text,
  method_suffix, Entry, Values, add_entry,
}
use mathlib.Core.List.{flat_map}
use protoc_gen_apigw.OpenApi.Yaml.{bool_tag, int_tag, seq_tag, no_tag, str_tag, null_tag}
use protoc_gen_apigw.OpenApi.Terraform.Listed.{
  excludes_resource, excludes_datasource, resource_text, datasource_text, method_suffix-IsListed,
  skipped_texts, suffix_texts,
}

-- The values that are not null, in order.
abbrev pub texts : List Entry → List Text
texts [] = []
texts ((null_tag, v) ∷ es) = texts es
texts ((tag, v) ∷ es) = v ∷ texts es

-- How many values are null.
abbrev pub nulls : List Entry → ℕ
nulls [] = 0
nulls ((null_tag, v) ∷ es) = suc (nulls es)
nulls ((tag, v) ∷ es) = nulls es

texts-append : (es fs : List Entry) → texts (es ++ fs) ≡ texts es ++ texts fs
texts-append [] fs = refl
texts-append ((null_tag, v) ∷ es) fs = texts-append es fs
texts-append ((no_tag, v) ∷ es) fs = ap (◌∷◌ v) (texts-append es fs)
texts-append ((str_tag, v) ∷ es) fs = ap (◌∷◌ v) (texts-append es fs)
texts-append ((seq_tag, v) ∷ es) fs = ap (◌∷◌ v) (texts-append es fs)
texts-append ((int_tag, v) ∷ es) fs = ap (◌∷◌ v) (texts-append es fs)
texts-append ((bool_tag, v) ∷ es) fs = ap (◌∷◌ v) (texts-append es fs)

nulls-append : (es fs : List Entry) → nulls (es ++ fs) ≡ nulls es + nulls fs
nulls-append [] fs = omega arith
nulls-append ((null_tag, v) ∷ es) fs = omega (arith, nulls-append es fs)
nulls-append ((no_tag, v) ∷ es) fs = nulls-append es fs
nulls-append ((str_tag, v) ∷ es) fs = nulls-append es fs
nulls-append ((seq_tag, v) ∷ es) fs = nulls-append es fs
nulls-append ((int_tag, v) ∷ es) fs = nulls-append es fs
nulls-append ((bool_tag, v) ∷ es) fs = nulls-append es fs

-- The flag says whether a null was added, and at most one was.
pub IsTracked : Values → Type 0
IsTracked vs = nulls vs.entries ≡ (if vs.has_null then 1 else 0)

add_null :
    (vs : Values)
    → IsTracked vs
    → IsTracked (add_entry null_tag [] vs)
      × (texts (add_entry null_tag [] vs).entries ≡ texts vs.entries)
unfolding add_entry IsTracked
add_null vs t = ground (
  arith,
  texts-append vs.entries ((null_tag, []) ∷ []),
  nulls-append vs.entries ((null_tag, []) ∷ []),
  append-nil (texts vs.entries),
)

add_text :
    (v : Text) (vs : Values)
    → IsTracked vs
    → IsTracked (add_entry str_tag v vs)
      × (texts (add_entry str_tag v vs).entries ≡ texts vs.entries ++ v ∷ [])
unfolding add_entry IsTracked
add_text v vs t = ground (
  arith,
  texts-append vs.entries ((str_tag, v) ∷ []),
  nulls-append vs.entries ((str_tag, v) ∷ []),
)

add_resource :
    (x : OptionalExclusion) (v : Text) (vs : Values)
    → IsTracked vs
    → IsTracked (add_entry (resource_entry x v).0 (resource_entry x v).1 vs)
      × (texts (add_entry (resource_entry x v).0 (resource_entry x v).1 vs).entries
          ≡ texts vs.entries ++ (if excludes_resource x then [] else v ∷ []))
add_resource data_source_only v vs t =
    let (tracked, same) = add_null vs t in (tracked, same ∙ sym (append-nil (texts vs.entries)))
add_resource _ v vs t = add_text v vs t

add_datasource :
    (x : OptionalExclusion) (v : Text) (vs : Values)
    → IsTracked vs
    → IsTracked (add_entry (datasource_entry x v).0 (datasource_entry x v).1 vs)
      × (texts (add_entry (datasource_entry x v).0 (datasource_entry x v).1 vs).entries
          ≡ texts vs.entries ++ (if true && not (excludes_datasource x) then v ∷ [] else []))
add_datasource resource_only v vs t =
    let (tracked, same) = add_null vs t in (tracked, same ∙ sym (append-nil (texts vs.entries)))
add_datasource _ v vs t = add_text v vs t

-- One round of the loop adds to each list what the entity contributes to it.
collect_entity-IsTracked :
    (te : TerraformEntity) (ds rs : Values)
    → IsTracked ds
    → IsTracked rs
    → (IsTracked (collect_entity te (ds, rs)).0
        × (texts (collect_entity te (ds, rs)).0.entries ≡ texts ds.entries ++ datasource_text te))
      × (IsTracked (collect_entity te (ds, rs)).1
          × (texts (collect_entity te (ds, rs)).1.entries ≡ texts rs.entries ++ resource_text te))
unfolding collect_entity IsTracked
collect_entity-IsTracked te ds rs t u =
    let is_listed = method_suffix-IsListed te.type in
    elim (Option-cases (method_suffix te.type)) [
      | inl skipped ↦
          let (source, target) = skipped_texts te (rw skipped at is_listed) in
          rw (skipped, collect_entity, source, target)
            ((t, sym (append-nil _)), (u, sym (append-nil _)))
      | inr ((true, suffix), e) ↦
          let (source, target) = suffix_texts te true suffix (rw e at is_listed) in
          rw (e, collect_entity, source, target)
            (
              add_datasource te.optional_exclusion (entity_text te suffix) ds t,
              add_resource te.optional_exclusion (entity_text te suffix) rs u,
            )
      | inr ((false, suffix), e) ↦
          let (source, target) = suffix_texts te false suffix (rw e at is_listed) in
          rw (e, collect_entity, source, target)
            (
              (t, sym (append-nil _)),
              add_resource te.optional_exclusion (entity_text te suffix) rs u,
            )
    ]

collect_entities-IsTracked :
    (tes : List TerraformEntity) (ds rs : Values)
    → IsTracked ds
    → IsTracked rs
    → (IsTracked (collect_entities tes (ds, rs)).0 × IsTracked (collect_entities tes (ds, rs)).1)
      × (texts (collect_entities tes (ds, rs)).0.entries
          ≡ texts ds.entries ++ flat_map datasource_text tes)
      × (texts (collect_entities tes (ds, rs)).1.entries
          ≡ texts rs.entries ++ flat_map resource_text tes)
unfolding collect_entities flat_map
collect_entities-IsTracked [] ds rs t u = ((t, u), sym (append-nil _), sym (append-nil _))
collect_entities-IsTracked (te ∷ tes) ds rs t u =
    let ((t', et), (u', eu)) = collect_entity-IsTracked te ds rs t u in
    let next = collect_entity te (ds, rs) in
    let (tracked, source, target) = collect_entities-IsTracked tes next.0 next.1 t' u' in
    (
      tracked,
      source
          ∙ rw et
              (append_assoc (texts ds.entries) (datasource_text te) (flat_map datasource_text tes)),
      target
          ∙ rw eu (append_assoc (texts rs.entries) (resource_text te) (flat_map resource_text tes)),
    )

-- Of the lists that the extension is built from, the data source's holds the names of exactly the
-- read entities that do not exclude it, and the resource's those of exactly the entities of a
-- known type that do not exclude it, both in order; each holds at most one null.
pub collect_entities-texts :
    (tes : List TerraformEntity)
    → (texts (collect_entities tes (no_values, no_values)).0.entries ≡ flat_map datasource_text tes)
      × (texts (collect_entities tes (no_values, no_values)).1.entries ≡ flat_map resource_text tes)
      × (nulls (collect_entities tes (no_values, no_values)).0.entries ≤ 1)
      × (nulls (collect_entities tes (no_values, no_values)).1.entries ≤ 1)
unfolding IsTracked
collect_entities-texts tes =
    let ((t, u), source, target) =
      collect_entities-IsTracked tes no_values no_values (unfold IsTracked in refl)
        (unfold IsTracked in refl) in
    (source, target, ground arith, ground arith)

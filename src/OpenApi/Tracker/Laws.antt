-- ===== src/OpenApi/Tracker/Laws.antt =====
-- What `msgTracker` holds, and the order of its keys.
use protoc_gen_apigw.Base.Text.Laws.{text_eq_iff}
use protoc_gen_apigw.Base.{
  arith, ◌↔◌, ◌⊎◌, none, inr, inl, Bool-cases, refl, ◌≢◌, [], some, ap, ◌++◌, ◌∷◌, map, sym, true,
  Option, ◌≡◌, List, ℕ,
}
use protoc_gen_apigw.OpenApi.Tracker.{
  add, SchemaData, MsgTracker, add_input, add_input_under, sorted_keys, texts_eq,
}
use protoc_gen_apigw.Base.Outcome.{panic, ok, Outcome}
use protoc_gen_apigw.Base.OrderedMap.Laws.{value-set_other, value-set_self}
use protoc_gen_apigw.Base.Text.{codes, Text}
use protoc_gen_apigw.OpenApi.Schema.Container.{ref_to}
use protoc_gen_apigw.Base.OrderedMap.{value, keys}
use protoc_gen_apigw.OpenApi.Schema.Options.{nicer_fqn}
use protoc_gen_apigw.Base.Sorting.Laws.{sort-Perm_eq}
use protoc_gen_apigw.OpenApi.Schema.Data.{SchemaProxy}
use mathlib.Core.Path.{subst}
use mathlib.Core.List.{Perm}
use mathlib.Core.List.Perm

texts_eq_iff : (s t : List Text) → texts_eq s t ≡ true ↔ (s ≡ t)
unfolding texts_eq
texts_eq_iff [] [] = (λ _. refl, λ _. refl)
texts_eq_iff [] (b ∷ t) = (λ e. cc, λ e. cc)
texts_eq_iff (a ∷ s) [] = (λ e. cc, λ e. cc)
texts_eq_iff (a ∷ s) (b ∷ t) = ground (arith, text_eq_iff a b, texts_eq_iff s t)

keys-map : (mt : MsgTracker) → keys mt ≡ map (λ q. q.0) mt
keys-map [] = refl
keys-map ((k, sd) ∷ mt) = ap (λ ks. k ∷ ks) (keys-map mt)

keys-Perm : (mt mt' : MsgTracker) → Perm mt mt' → Perm (keys mt) (keys mt')
keys-Perm mt mt' p =
    subst (λ ks. Perm ks (keys mt')) (sym (keys-map mt))
      (subst (λ ks. Perm (map (λ q. q.0) mt) ks) (sym (keys-map mt')) (Perm.map (λ q. q.0) p))

-- `SortedKeys` does not depend on the order in which Go iterates over the map of messages.
pub sorted_keys-Perm_eq : (mt mt' : MsgTracker) → Perm mt mt' → sorted_keys mt ≡ sorted_keys mt'
unfolding sorted_keys
sorted_keys-Perm_eq mt mt' p = sort-Perm_eq (keys mt) (keys mt') (keys-Perm mt mt' p)

-- The tracker has this data under this key, and the rest as before.
abbrev Holds : Text → SchemaData → MsgTracker → MsgTracker → Type 0
Holds fqn sd mt mt' = (value fqn mt' ≡ some sd) × ((k : Text) → fqn ≢ k → value k mt' ≡ value k mt)

-- What a tracker records under the key of a message's filtered input: the message with the filter
-- where there was no entry; nothing where the entry had the filter; and the panic is for an entry with
-- another one.
abbrev RecordsInput :
    ℕ → Text → List Text → MsgTracker → Outcome (SchemaProxy × MsgTracker) → Type 0
RecordsInput id fqn filter mt (ok (p, mt')) =
    (p ≡ ref_to fqn)
    × (((value fqn mt ≡ none) × Holds fqn (record { path = fqn; msg = id; filter = filter }) mt mt')
        ⊎ ((sd : SchemaData) × (value fqn mt ≡ some sd) × (sd.filter ≡ filter) × (mt' ≡ mt)))
RecordsInput id fqn filter mt (panic e) =
    (sd : SchemaData) × (value fqn mt ≡ some sd) × (sd.filter ≢ filter)
RecordsInput id fqn filter mt _ = ⊥

-- What a tracker records under the key of a message without a filter.
abbrev RecordsMessage : ℕ → Text → MsgTracker → Outcome (SchemaProxy × MsgTracker) → Type 0
RecordsMessage id fqn mt (ok (p, mt')) =
    (p ≡ ref_to fqn) × Holds fqn (record { path = fqn; msg = id; filter = [] }) mt mt'
RecordsMessage id fqn mt _ = ⊥

abbrev pub Records : ℕ → Text → List Text → MsgTracker → Outcome (SchemaProxy × MsgTracker) → Type 0
Records id full_name [] mt out = RecordsMessage id (nicer_fqn full_name) mt out
Records id full_name (f ∷ fs) mt out =
    RecordsInput id (nicer_fqn full_name ++ codes "Input") (f ∷ fs) mt out

add_input_under-RecordsInput :
    (id : ℕ) (filter : List Text) (fqn : Text) (there : Option SchemaData) (mt : MsgTracker)
    → value fqn mt ≡ there
    → RecordsInput id fqn filter mt (add_input_under id filter fqn there mt)
unfolding add_input_under
add_input_under-RecordsInput id filter fqn none mt e =
    (refl, inl (e, (value-set_self fqn _ mt, λ k h. value-set_other fqn k _ mt h)))
add_input_under-RecordsInput id filter fqn (some sd) mt e =
    elim (Bool-cases (texts_eq sd.filter filter)) [
      | inl same ↦ rw same (refl, inr (sd, e, (texts_eq_iff sd.filter filter).0 same, refl))
      | inr other ↦
          rw other (sd, e, λ same. let equal = (texts_eq_iff sd.filter filter).1 same in cc)
    ]

-- `AddInput` with an empty filter records the message under its name, over what was there. With any
-- other filter it returns a reference to the message's input schema, and records the message with the
-- filter under that name where there was no entry, changes nothing where the entry has the same
-- filter, and panics exactly where the entry has another one. All other entries stay.
pub add_input-Records :
    (id : ℕ) (full_name : Text) (filter : List Text) (mt : MsgTracker)
    → Records id full_name filter mt (add_input id full_name filter mt)
unfolding add_input add
add_input-Records id full_name [] mt =
    (refl, (value-set_self _ _ mt, λ k h. value-set_other _ k _ mt h))
add_input-Records id full_name (f ∷ fs) mt =
    add_input_under-RecordsInput id (f ∷ fs) (nicer_fqn full_name ++ codes "Input")
      (value (nicer_fqn full_name ++ codes "Input") mt) mt refl

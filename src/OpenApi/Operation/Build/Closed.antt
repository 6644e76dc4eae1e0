-- ===== src/OpenApi/Operation/Build/Closed.antt =====
-- The references of a built operation resolve among the schemas that are built with it.
use protoc_gen_apigw.Base.{
  none, refl, ◌∷◌, [], inr, ◌++◌, some-eq, ◌∙◌, Option, inl, false, Bool-cases, some, get_elem?,
  is_empty, true, ℕ, ◌≡◌, List,
}
use protoc_gen_apigw.Base.OrderedMap.{value, set}
use protoc_gen_apigw.Base.Text.Laws.{text_eq_iff}
use protoc_gen_apigw.Base.Text.{codes, text_eq, Text}
use mathlib.Core.Path.{subst}
use protoc_gen_apigw.OpenApi.Schema.Container.{ref_to}
use protoc_gen_apigw.OpenApi.Schema.Options.{nicer_fqn}
use protoc_gen_apigw.OpenApi.Schema.Ensures.{AllOk}
use protoc_gen_apigw.Base.OrderedMap.Laws.{value-set, value-set_self}
use protoc_gen_apigw.OpenApi.Operation.Build.Messages.{IsTracked}
use protoc_gen_apigw.OpenApi.Tracker.Keys.{HasKey}
use protoc_gen_apigw.OpenApi.Schema.Build.{message_key}
use protoc_gen_apigw.OpenApi.Tracker.{
  add, add_input, add_input_under, MsgTracker, SchemaData, texts_eq,
}
use protoc_gen_apigw.OpenApi.Schema.Data.{SchemaProxy}
use protoc_gen_apigw.OpenApi.Schema.WellKnown.{is_well_known}
use protoc_gen_apigw.Descriptor.{Message}

HasKey-set :
    (j k : Text) (sd : SchemaData) (tracker : MsgTracker)
    → HasKey tracker k
    → HasKey (set j sd tracker) k
HasKey-set j k sd tracker (d, there) = elim (Bool-cases (text_eq j k)) [
  | inl same ↦ (sd, value-set j k sd tracker ∙ rw same refl)
  | inr other ↦ (d, value-set j k sd tracker ∙ rw other there)
]

HasKey-set_self : (k : Text) (sd : SchemaData) (tracker : MsgTracker) → HasKey (set k sd tracker) k
HasKey-set_self k sd tracker = (sd, value-set_self k sd tracker)

texts_eq-is_empty : (s t : List Text) → texts_eq s t ≡ true → is_empty s ≡ is_empty t
unfolding texts_eq
texts_eq-is_empty [] [] h = refl
texts_eq-is_empty [] (b ∷ t) h = cc
texts_eq-is_empty (a ∷ s) [] h = cc
texts_eq-is_empty (a ∷ s) (b ∷ t) h = refl

module _ (registry : List Message) where
  -- The message at a position, if there is one, is not well known.
  abbrev pub IsOwn : ℕ → Type 0
  IsOwn id = (m : Message) → get_elem? registry id ≡ some m → is_well_known m ≡ false

  module _ (id : ℕ) (m : Message) (found : get_elem? registry id ≡ some m)
      (own : is_well_known m ≡ false) where
    IsTracked-set :
        (k path : Text) (filter : List Text) (tracker : MsgTracker)
        → message_key m filter ≡ k
        → IsTracked registry tracker
        → IsTracked registry (set k (record { path = path; msg = id; filter = filter }) tracker)
    IsTracked-set k path filter tracker key tracked j sd there =
        let new : SchemaData = record { path = path; msg = id; filter = filter } in
        elim (Bool-cases (text_eq k j)) [
          | inl same ↦
              let stored : new ≡ sd = some-eq (rw (value-set, same) at there) in
              subst
                (λ (d : SchemaData).
                  (n : Message) × (get_elem? registry d.msg ≡ some n)
                  × (is_well_known n ≡ false)
                  × (message_key n d.filter ≡ j))
                stored (m, found, own, key ∙ (text_eq_iff k j).0 same)
          | inr other ↦ tracked j sd (rw (value-set, other) at there)
        ]

    -- What `Add` and `AddInput` leave: the tracker's entries are as before, and the reference that they
    -- return is to one of them.
    abbrev pub Reference : MsgTracker → SchemaProxy × MsgTracker → Type 0
    Reference tracker (p, tracker') =
        IsTracked registry tracker'
        × ((k : Text) → HasKey tracker k → HasKey tracker' k)
        × ((k : Text) × (p ≡ ref_to k) × HasKey tracker' k)

    pub add-Reference :
        (tracker : MsgTracker)
        → IsTracked registry tracker
        → Reference tracker (add id m.fully_qualified_name tracker)
    unfolding add message_key
    add-Reference tracker tracked =
        let k = nicer_fqn m.fully_qualified_name in
        (
          IsTracked-set k k [] tracker refl tracked,
          λ j h. HasKey-set k j _ tracker h,
          (k, refl, HasKey-set_self k _ tracker),
        )

    add_input_under-Reference :
        (filter : List Text) (there : Option SchemaData) (tracker : MsgTracker)
        → is_empty filter ≡ false
        → let k = nicer_fqn m.fully_qualified_name ++ codes "Input" in
          value k tracker ≡ there
          → IsTracked registry tracker
          → AllOk (Reference tracker) (add_input_under id filter k there tracker)
    unfolding add_input_under message_key
    add_input_under-Reference filter none tracker full e tracked =
        let k = nicer_fqn m.fully_qualified_name ++ codes "Input" in
        (
          IsTracked-set k k filter tracker (rw full refl) tracked,
          λ j h. HasKey-set k j _ tracker h,
          (k, refl, HasKey-set_self k _ tracker),
        )
    add_input_under-Reference filter (some sd) tracker full e tracked =
        let k = nicer_fqn m.fully_qualified_name ++ codes "Input" in
        elim (Bool-cases (texts_eq sd.filter filter)) [
          | inl same ↦ rw same (tracked, (λ j h. h), (k, refl, (sd, e)))
          | inr other ↦ rw other tt
        ]

    pub add_input-Reference :
        (filter : List Text) (tracker : MsgTracker)
        → IsTracked registry tracker
        → AllOk (Reference tracker) (add_input id m.fully_qualified_name filter tracker)
    unfolding add_input
    add_input-Reference filter tracker tracked = elim (Bool-cases (is_empty filter)) [
      | inl bare ↦ rw bare (add-Reference tracker tracked)
      | inr full ↦ rw full (add_input_under-Reference filter _ tracker full refl tracked)
    ]

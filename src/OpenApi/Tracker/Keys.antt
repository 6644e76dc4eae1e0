-- ===== src/OpenApi/Tracker/Keys.antt =====
-- The keys of `msgTracker`, sorted: a list that contains each key that the tracker holds.
use protoc_gen_apigw.Base.{
  inr, sym, inl, refl, [], Bool-cases, arith, ◌∙◌, some, true, ◌∷◌, All, ◌≡◌, List,
}
use protoc_gen_apigw.OpenApi.Schema.Data.{contains_text}
use protoc_gen_apigw.Base.OrderedMap.{keys, value}
use protoc_gen_apigw.OpenApi.Tracker.{sorted_keys, SchemaData, MsgTracker}
use mathlib.Core.Path.{subst}
use protoc_gen_apigw.Base.Text.Laws.{text_eq_iff}
use protoc_gen_apigw.Base.Text.{text_eq, Text}
use protoc_gen_apigw.Base.Sorting.{insert_by, sort_by}

module _ (P : Text → Type 0) where
  pub All-contains : (k : Text) (ks : List Text) → All P ks → contains_text k ks ≡ true → P k
  unfolding contains_text
  All-contains k [] h found = cc
  All-contains k (j ∷ ks) (h, hs) found = elim (Bool-cases (text_eq k j)) [
    | inl same ↦ subst P (sym ((text_eq_iff k j).0 same)) h
    | inr other ↦ All-contains k ks hs (simp other at found)
  ]

contains_text-insert :
    (k j : Text) (ks : List Text)
    → contains_text k (insert_by (λ t. t) j ks) ≡ contains_text k (j ∷ ks)
unfolding contains_text insert_by
contains_text-insert k j [] = refl
contains_text-insert k j (i ∷ ks) = ground (arith, contains_text-insert k j ks)

contains_text-sort :
    (k : Text) (ks : List Text) → contains_text k (sort_by (λ t. t) ks) ≡ contains_text k ks
unfolding contains_text sort_by
contains_text-sort k [] = refl
contains_text-sort k (j ∷ ks) =
    contains_text-insert k j (sort_by (λ t. t) ks) ∙ ground (arith, contains_text-sort k ks)

-- A key that the tracker holds.
abbrev pub HasKey : MsgTracker → Text → Type 0
HasKey tracker k = (sd : SchemaData) × (value k tracker ≡ some sd)

contains_text-keys :
    (k : Text) (tracker : MsgTracker) (sd : SchemaData)
    → value k tracker ≡ some sd
    → contains_text k (keys tracker) ≡ true
unfolding contains_text value
contains_text-keys k [] sd h = cc
contains_text-keys k ((j, d) ∷ tracker) sd h =
    ground (arith, text_eq_iff k j, text_eq_iff j k, contains_text-keys k tracker sd)

pub contains_text-sorted :
    (tracker : MsgTracker) (k : Text)
    → HasKey tracker k
    → contains_text k (sorted_keys tracker) ≡ true
unfolding sorted_keys
contains_text-sorted tracker k (sd, h) =
    contains_text-sort k (keys tracker) ∙ contains_text-keys k tracker sd h

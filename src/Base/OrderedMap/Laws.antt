-- ===== src/Base/OrderedMap/Laws.antt =====
-- Laws of the ordered map.
use mathlib.Core.List.{[], ◌∷◌}
use mathlib.Core.Logic.{◌≢◌, inl, inr}
use mathlib.Core.Option.{none, some}
use mathlib.Core.Path.{◌≡◌, refl, ◌∙◌}
use native.Mathlib.Omega.{arith}
use protoc_gen_apigw.Base.Tests.{if◌then◌else◌, Bool-cases}
use protoc_gen_apigw.Base.Text.{Text, text_eq}
use protoc_gen_apigw.Base.Text.Laws.{text_eq_iff, text_eq_refl}
use protoc_gen_apigw.Base.OrderedMap.{OrderedMap, value, set}

module _ {ℓ} {V : Type ℓ} where
  pub value-set :
      (k j : Text) (v : V) (m : OrderedMap V)
      → value j (set k v m) ≡ (if text_eq k j then some v else value j m)
  unfolding value set
  value-set k j v [] = refl
  value-set k j v ((i, w) ∷ m) =
      ground (arith, text_eq_iff k j, text_eq_iff i k, text_eq_iff i j, value-set k j v m)

  pub value-set_self : (k : Text) (v : V) (m : OrderedMap V) → value k (set k v m) ≡ some v
  value-set_self k v m = simp (value-set, text_eq_refl)

  -- Setting a key keeps every key that was there.
  pub value-set-ne-none :
      (k j : Text) (v : V) (m : OrderedMap V) → value j m ≢ none → value j (set k v m) ≢ none
  value-set-ne-none k j v m h = ground (arith, value-set k j v m)

  pub value-set_other :
      (k j : Text) (v : V) (m : OrderedMap V) → k ≢ j → value j (set k v m) ≡ value j m
  value-set_other k j v m h = elim (Bool-cases (text_eq k j)) [
    | inl same ↦ absurd (h ((text_eq_iff k j).0 same))
    | inr other ↦ value-set k j v m ∙ rw other refl
  ]

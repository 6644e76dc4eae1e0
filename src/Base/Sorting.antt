-- ===== src/Base/Sorting.antt =====
-- The sort by a text key of Go's `sort.Slice` and `sort.Strings`, where the keys are distinct.
pub mod Laws
use protoc_gen_apigw.Base.{inr, inl, Bool-cases, [], if◌then◌else◌, ◌∷◌, List}
use mathlib.Core.List.{Perm}
use protoc_gen_apigw.Base.Text.{text_lt, Text}
use mathlib.Core.List.Perm

module _ {ℓ} {A : Type ℓ} (key : A → Text) where
  unfoldable pub insert_by : A → List A → List A
  insert_by a [] = a ∷ []
  insert_by a (b ∷ bs) =
      let rest = insert_by a bs in if text_lt (key b) (key a) then b ∷ rest else a ∷ b ∷ bs

  unfoldable pub sort_by : List A → List A
  unfolding insert_by
  sort_by [] = []
  sort_by (a ∷ rest) = insert_by a (sort_by rest)

  pub insert_by-Perm : (a : A) (bs : List A) → Perm (a ∷ bs) (insert_by a bs)
  unfolding insert_by
  insert_by-Perm a [] = Perm.rfl
  insert_by-Perm a (b ∷ bs) = elim (Bool-cases (text_lt (key b) (key a))) [
    | inl lower ↦ rw lower (Perm.trans (Perm.swap b a bs) ((Perm.cons b (insert_by-Perm a bs))))
    | inr other ↦ rw other Perm.rfl
  ]

  pub sort_by-Perm : (bs : List A) → Perm bs (sort_by bs)
  unfolding sort_by
  sort_by-Perm [] = Perm.rfl
  sort_by-Perm (a ∷ rest) =
      Perm.trans (Perm.cons a (sort_by-Perm rest)) (insert_by-Perm a (sort_by rest))

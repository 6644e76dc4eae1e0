-- ===== src/Base/Sorting/Laws.antt =====
-- The sort does not depend on the order of its input.
use protoc_gen_apigw.Base.{
  ◌⊎◌, ◌≢◌, All, [], ap, inr, inl, refl, ◌∙◌, Bool-cases, false, sym, true, ◌∷◌, ◌≡◌, List,
}
use mathlib.Core.List.{
  eq-or-mem_of_mem-cons, not-mem-nil, Perm, Mem, Permᴰ, mem-cons_self, mem-cons_of_mem,
}
use mathlib.Core.Path.{subst}
use protoc_gen_apigw.Base.Text.Laws.{text_lt-total, text_lt-asymm, text_lt_trans}
use protoc_gen_apigw.Base.Text.{text_lt, Text}
use protoc_gen_apigw.Base.Sorting.{insert_by, sort_by}
use mathlib.Core.Logic.{∥∥₁_elim}
use mathlib.Core.List.Perm

text_lt_of_le : (c b a : Text) → text_lt c b ≡ false → text_lt c a ≡ true → text_lt b a ≡ true
text_lt_of_le c b a h k = elim (Bool-cases (text_lt b c)) [
  | inl lower ↦ text_lt_trans b c a lower k
  | inr other ↦ rw (sym (text_lt-total c b h other)) k
]

module _ {ℓ} {A : Type ℓ} (key : A → Text) where
  -- Elements of a list that have the same key are the same.
  abbrev pub Keyed : List A → Type ℓ
  Keyed xs = (a b : A) → Mem a xs → Mem b xs → key a ≡ key b → a ≡ b

  insert_before :
      (a b c : A) (cs : List A)
      → text_lt (key c) (key a) ≡ true
      → text_lt (key c) (key b) ≡ false
      → insert_by key a (insert_by key b (c ∷ cs)) ≡ insert_by key b (insert_by key a (c ∷ cs))
  unfolding insert_by
  insert_before a b c cs h k = rw (h, k, text_lt_of_le (key c) (key b) (key a) k h, h) refl

  insert_by_comm :
      (a b : A) (cs : List A)
      → (key a ≡ key b → a ≡ b)
      → insert_by key a (insert_by key b cs) ≡ insert_by key b (insert_by key a cs)
  unfolding insert_by
  insert_by_comm a b [] h = elim (Bool-cases (text_lt (key b) (key a))) [
    | inl lower ↦ rw (lower, text_lt-asymm (key b) (key a) lower) refl
    | inr other ↦ elim (Bool-cases (text_lt (key a) (key b))) [
      | inl lower ↦ rw (other, lower) refl
      | inr other' ↦ rw (h (text_lt-total (key a) (key b) other' other)) refl
    ]
  ]
  insert_by_comm a b (c ∷ cs) h = elim (Bool-cases (text_lt (key c) (key a))) [
    | inl ca ↦ elim (Bool-cases (text_lt (key c) (key b))) [
      | inl cb ↦ rw (ca, cb, ca) (ap (λ xs. c ∷ xs) (insert_by_comm a b cs h))
      | inr cb ↦ insert_before a b c cs ca cb
    ]
    | inr ca ↦ elim (Bool-cases (text_lt (key c) (key b))) [
      | inl cb ↦ sym (insert_before b a c cs cb ca)
      | inr cb ↦ elim (Bool-cases (text_lt (key b) (key a))) [
        | inl lower ↦ rw (ca, cb, lower, text_lt-asymm (key b) (key a) lower, ca) refl
        | inr other ↦ elim (Bool-cases (text_lt (key a) (key b))) [
          | inl lower ↦ rw (ca, cb, other, lower) refl
          | inr other' ↦
              subst
                (λ x.
                  insert_by key a (insert_by key x (c ∷ cs))
                  ≡ insert_by key x (insert_by key a (c ∷ cs)))
                (h (text_lt-total (key a) (key b) other' other)) refl
        ]
      ]
    ]
  ]

  Keyed-tail : (a : A) (xs : List A) → Keyed (a ∷ xs) → Keyed xs
  Keyed-tail a xs h b c mb mc e = h b c (mem-cons_of_mem a mb) (mem-cons_of_mem a mc) e

  pub sort_by-Permᴰ : {xs ys : List A} → Permᴰ xs ys → Keyed xs → sort_by key xs ≡ sort_by key ys
  unfolding sort_by
  sort_by-Permᴰ Permᴰ.nil h = refl
  sort_by-Permᴰ (Permᴰ.cons {a = a} {b = b} {l₁ = l} e p) h =
      rw (e, sort_by-Permᴰ p (Keyed-tail a l h)) refl
  sort_by-Permᴰ (Permᴰ.swap {a = a} {b = b} {l = l} e f) h =
      rw (sym e, sym f)
        (insert_by_comm a b (sort_by key l) (h a b mem-cons_self (mem-cons_of_mem a mem-cons_self)))
  sort_by-Permᴰ (Permᴰ.trans p q) h =
      sort_by-Permᴰ p h
      ∙ sort_by-Permᴰ q
          (λ a b ma mb. h a b ((Perm.mem_iff ∣ p ∣₁).1 ma) ((Perm.mem_iff ∣ p ∣₁).1 mb))

-- The sort of a list of pairs by their first texts does not depend on the order of the list.
pub sort_by-Perm_eq :
    (xs ys : List (Text × Text))
    → Perm xs ys
    → Keyed (λ q. q.0) xs
    → sort_by (λ q. q.0) xs ≡ sort_by (λ q. q.0) ys
sort_by-Perm_eq xs ys p h =
    let same : IsProp (sort_by (λ q. q.0) xs ≡ sort_by (λ q. q.0) ys) = hlevel in
    ∥∥₁_elim p same (λ d. sort_by-Permᴰ (λ q. q.0) d h)

module _ {ℓ} {A : Type ℓ} (key : A → Text) where
  key-ne-of_Mem : (k : Text) (b : A) (xs : List A) → All (λ x. key x ≢ k) xs → Mem b xs → key b ≢ k
  key-ne-of_Mem k b [] h m e = absurd (not-mem-nil m)
  key-ne-of_Mem k b (x ∷ xs) (here, rest) m e =
      let absurd_prop : IsProp ⊥ = hlevel in
      ∥∥₁_elim (eq-or-mem_of_mem-cons m) absurd_prop (λ c. elim c [
        | inl same ↦ here (ap key (sym same) ∙ e)
        | inr later ↦ key-ne-of_Mem k b xs rest later e
      ])

  -- Each key is different from the later ones.
  abbrev pub Differing : List A → Type 0
  Differing [] = Unit
  Differing (x ∷ xs) = All (λ y. key y ≢ key x) xs × Differing xs

  Keyed_at :
      (x : A) (xs : List A) (a b : A)
      → All (λ y. key y ≢ key x) xs
      → key a ≡ key b
      → (Mem a xs → Mem b xs → a ≡ b)
      → (a ≡ x) ⊎ Mem a xs
      → (b ≡ x) ⊎ Mem b xs
      → a ≡ b
  Keyed_at x xs a b here e later (inl p) (inl q) = p ∙ sym q
  Keyed_at x xs a b here e later (inl p) (inr q) =
      absurd (key-ne-of_Mem (key x) b xs here q (sym e ∙ ap key p))
  Keyed_at x xs a b here e later (inr p) (inl q) =
      absurd (key-ne-of_Mem (key x) a xs here p (e ∙ ap key q))
  Keyed_at x xs a b here e later (inr p) (inr q) = later p q

  pub Keyed-Differing : IsSet A → (xs : List A) → Differing xs → Keyed key xs
  Keyed-Differing is_set [] h a b ma mb e = absurd (not-mem-nil ma)
  Keyed-Differing is_set (x ∷ xs) (here, rest) a b ma mb e =
      ∥∥₁_elim (eq-or-mem_of_mem-cons ma) (is_set a b) (λ c.
        ∥∥₁_elim (eq-or-mem_of_mem-cons mb) (is_set a b)
          (λ d. Keyed_at x xs a b here e (λ p q. Keyed-Differing is_set xs rest a b p q e) c d))

-- The sort of a list of texts does not depend on the order of the list.
pub sort-Perm_eq : (xs ys : List Text) → Perm xs ys → sort_by (λ t. t) xs ≡ sort_by (λ t. t) ys
sort-Perm_eq xs ys p =
    let same : IsProp (sort_by (λ t. t) xs ≡ sort_by (λ t. t) ys) = hlevel in
    ∥∥₁_elim p same (λ d. sort_by-Permᴰ (λ t. t) d (λ a b ma mb e. e))

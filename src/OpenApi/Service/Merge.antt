-- ===== src/OpenApi/Service/Merge.antt =====
-- Setting every schema of one map in another, and what `addOperation` leaves of a document.
use protoc_gen_apigw.Base.OrderedMap.Laws.{value-set}
use protoc_gen_apigw.Base.Text.Laws.{text_eq_iff}
use mathlib.Core.Path.{subst}
use protoc_gen_apigw.Base.{
  [], Bool-cases, ◌∷◌, some, ap, some-eq, sym, inr, inl, refl, Option-cases, none, ◌∙◌, ◌≡◌, ◌≢◌,
  All,
}
use protoc_gen_apigw.Base.Text.{text_eq, Text}
use protoc_gen_apigw.OpenApi.Schema.Build.Proper.{Distinct-set, IsProper, Distinct}
use protoc_gen_apigw.Base.OrderedMap.{set, OrderedMap, set_all, value}
use protoc_gen_apigw.OpenApi.Schema.Closed.{ProxyClosed-mono, Known}
use protoc_gen_apigw.HttpBridge.Laws.{or_else}
use protoc_gen_apigw.OpenApi.Schema.Data.{SchemaProxy}

value-none : {V : Type 0} (k : Text) (m : OrderedMap V) → All (λ q. q.0 ≢ k) m → value k m ≡ none
unfolding value
value-none k [] h = refl
value-none k ((j, v) ∷ m) (here, h) = elim (Bool-cases (text_eq j k)) [
  | inl same ↦ absurd (here ((text_eq_iff j k).0 same))
  | inr other ↦ rw other (value-none k m h)
]

module _ {V : Type 0} (j : Text) where
  value-set_all :
      (o m : OrderedMap V) → Distinct o → value j (set_all o m) ≡ or_else (value j o) (value j m)
  unfolding set_all value
  value-set_all [] m h = refl
  value-set_all ((k, v) ∷ o) m (here, h) = elim (Bool-cases (text_eq k j)) [
    | inl same ↦
        let gone : value j o ≡ none =
          value-none j o (subst (λ t. All (λ q. q.0 ≢ t) o) ((text_eq_iff k j).0 same) here) in
        value-set_all o (set k v m) h ∙ rw (gone, value-set k j v m, same) refl
    | inr other ↦ value-set_all o (set k v m) h ∙ rw (value-set k j v m, other) refl
  ]

Distinct-set_all : {V : Type 0} (o m : OrderedMap V) → Distinct m → Distinct (set_all o m)
unfolding set_all
Distinct-set_all [] m h = h
Distinct-set_all ((k, v) ∷ o) m h = Distinct-set_all o (set k v m) (Distinct-set k v m h)

module _ (o m : OrderedMap SchemaProxy) (distinct : Distinct o) where
  pub Known-added : (k : Text) → Known o k → Known (set_all o m) k
  Known-added k (p, e) = (p, value-set_all k o m distinct ∙ rw e refl)

  pub Known-kept : (k : Text) → Known m k → Known (set_all o m) k
  Known-kept k (p, e) = elim (Option-cases (value k o)) [
    | inl absent ↦ (p, value-set_all k o m distinct ∙ rw (absent, e) refl)
    | inr (q, there) ↦ (q, value-set_all k o m distinct ∙ rw there refl)
  ]

  -- Proper schemas set over proper schemas are proper.
  pub IsProper-set_all : IsProper o → IsProper m → IsProper (set_all o m)
  IsProper-set_all (closed, d) (closed', d') = (
    λ k p e. elim (Option-cases (value k o)) [
      | inl absent ↦
          ProxyClosed-mono Known-kept p
            (closed' k p (sym (value-set_all k o m distinct ∙ rw absent refl) ∙ e))
      | inr (q, there) ↦
          let same : q ≡ p = some-eq (sym (value-set_all k o m distinct ∙ rw there refl) ∙ e) in
          ProxyClosed-mono Known-added p (closed k p (there ∙ ap some same))
    ],
    Distinct-set_all o m d',
  )

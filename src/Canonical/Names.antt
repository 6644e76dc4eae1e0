-- ===== src/Canonical/Names.antt =====
-- Routes that differ only in the names of their parameters have the same numbered tokens.
use protoc_gen_apigw.Route.{value_token, param_token, RouteToken}
use protoc_gen_apigw.Base.Text.{itoa}
use protoc_gen_apigw.Base.{
  Bool, false, if◌then◌else◌, true, ap, ◌∙◌, sym, refl, ◌∷◌, ◌+◌, map, ◌≡◌, ℕ, [], List,
}
use mathlib.Core.Path.{subst}
use protoc_gen_apigw.Route.Render.{Fits, IsWellFormed}
use protoc_gen_apigw.Canonical.Numbering.{number_value, number_param, number}

-- The same routes but for the names of their parameters.
abbrev pub DifferInNames : List RouteToken → List RouteToken → Type 0
DifferInNames [] [] = Unit
DifferInNames (t ∷ ts) (u ∷ us) =
    (t.is_param ≡ u.is_param) × (t.is_param ≡ false → t.value ≡ u.value) × DifferInNames ts us
DifferInNames _ _ = ⊥

number-Fits_eq :
    (b : Bool) (i : ℕ) (t u : RouteToken)
    → t.is_param ≡ b
    → u.is_param ≡ b
    → Fits b i t
    → Fits b i u
    → (b ≡ false → t.value ≡ u.value)
    → number t ≡ number u
number-Fits_eq true i t u p q (f, _) (g, _) h =
    let same : t.param_index ≡ u.param_index =
      ap (λ x. x.param_index) f ∙ sym (ap (λ x. x.param_index) g) in
    number_param t p ∙ ap (λ n. param_token (itoa n) n) same ∙ sym (number_param u q)
number-Fits_eq false i t u p q (f, _, _, _) (g, _, _, _) h =
    number_value t p ∙ f ∙ ap value_token (h refl) ∙ sym g ∙ sym (number_value u q)

pub map-number_eq :
    (ts us : List RouteToken) (i : ℕ)
    → IsWellFormed i ts
    → IsWellFormed i us
    → DifferInNames ts us
    → map number ts ≡ map number us
map-number_eq [] [] i w v h = refl
map-number_eq [] (u ∷ us) i w v h = absurd h
map-number_eq (t ∷ ts) [] i w v h = absurd h
map-number_eq (t ∷ ts) (u ∷ us) i (f, w) (g, v) (kind, values, h) =
    let g' = subst (λ b. Fits b i u) (sym kind) g in
    let v' = subst (λ b. IsWellFormed (if b then i + 1 else i) us) (sym kind) v in
    let head = number-Fits_eq t.is_param i t u refl (sym kind) f g' values in
    ap (λ x. x ∷ map number ts) head ∙ ap (λ xs. number u ∷ xs) (map-number_eq ts us _ w v' h)

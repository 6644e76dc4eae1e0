-- ===== src/Canonical/Numbering.antt =====
-- The canonical form of a route is its print with every parameter named by its number.
use protoc_gen_apigw.Route.{parse_route, param_token, RouteToken}
use protoc_gen_apigw.Base.{
  ◌∙◌, sym, ◌+◌, ap, append_assoc, refl, true, Bool, append-nil, false, inr, [], inl, Bool-cases,
  map, ◌++◌, ◌∷◌, ◌≡◌, if◌then◌else◌, ℕ, List,
}
use protoc_gen_apigw.Base.Text.Laws.{itoa-Lacks}
use protoc_gen_apigw.Base.Outcome.{ok-injective}
use mathlib.Core.Path.{subst}
use protoc_gen_apigw.Route.Laws.{parse_route-render, render_token-value}
use protoc_gen_apigw.Route.Render.{brace, Fits, render_token, IsWellFormed, render}
use protoc_gen_apigw.Base.Text.{slash, Text, itoa}
use protoc_gen_apigw.Canonical.{to_snake_case, canonicalize}

-- A token with its parameter's name replaced by its number.
unfoldable pub number : RouteToken → RouteToken
number t = if t.is_param then param_token (itoa t.param_index) t.param_index else t

abbrev pub param_names : List RouteToken → List Text
param_names [] = []
param_names (t ∷ ts) = if t.is_param then t.param_name ∷ param_names ts else param_names ts

pub canonical_str : List RouteToken → Text
canonical_str ts = render (map number ts)

pub render_token-number_param :
    (t : RouteToken) → t.is_param ≡ true → render_token (number t) ≡ brace (itoa t.param_index)
unfolding render_token number
render_token-number_param t e = simp e

pub number_param :
    (t : RouteToken) → t.is_param ≡ true → number t ≡ param_token (itoa t.param_index) t.param_index
unfolding number
number_param t e = simp e

pub number_value : (t : RouteToken) → t.is_param ≡ false → number t ≡ t
unfolding number
number_value t e = simp e

pub canonical_str-number :
    (ts us : List RouteToken) → map number ts ≡ map number us → canonical_str ts ≡ canonical_str us
unfolding canonical_str
canonical_str-number ts us e = ap render e

canonical_str-cons :
    (t : RouteToken) (ts : List RouteToken)
    → canonical_str (t ∷ ts) ≡ slash ∷ (render_token (number t) ++ canonical_str ts)
unfolding canonical_str render
canonical_str-cons t ts = refl

-- The loop appends the canonical form to one accumulator and the names to the other.
pub canonicalize-eq :
    (ts : List RouteToken) (str : Text) (params : List Text)
    → canonicalize ts str params
      ≡ (str ++ canonical_str ts, params ++ map to_snake_case (param_names ts))
unfolding canonicalize
canonicalize-eq [] str params = unfold canonical_str render in simp append-nil
canonicalize-eq (t ∷ ts) str params = elim (Bool-cases t.is_param) [
  | inl p ↦
      simp (p, canonicalize-eq ts, canonical_str-cons, render_token-number_param t p, append_assoc)
  | inr v ↦ simp (
    v,
    canonicalize-eq ts,
    canonical_str-cons,
    number_value t v,
    render_token-value t v,
    append_assoc,
  )
]

number-Fits :
    (b : Bool) (i : ℕ) (t : RouteToken)
    → t.is_param ≡ b
    → Fits b i t
    → ((number t).is_param ≡ b) × Fits b i (number t)
number-Fits true i t e (same, _) =
    let index : t.param_index ≡ i = ap (λ u. u.param_index) same in
    subst (λ u. (u.is_param ≡ true) × Fits true i u) (sym (number_param t e))
      (refl, (ap (param_token (itoa t.param_index)) index, itoa-Lacks t.param_index))
number-Fits false i t e f =
    subst (λ u. (u.is_param ≡ false) × Fits false i u) (sym (number_value t e)) (e, f)

pub number-IsWellFormed :
    (ts : List RouteToken) (i : ℕ) → IsWellFormed i ts → IsWellFormed i (map number ts)
number-IsWellFormed [] i w = tt
number-IsWellFormed (t ∷ ts) i (f, w) =
    let (same, fits) = number-Fits t.is_param i t refl f in
    subst (λ b. Fits b i (number t) × IsWellFormed (if b then i + 1 else i) (map number ts))
      (sym same) (fits, number-IsWellFormed ts _ w)

-- Routes with the same canonical form have the same tokens, but for the parameters' names.
pub canonical_str-injective :
    (ts us : List RouteToken)
    → IsWellFormed 0 ts
    → IsWellFormed 0 us
    → canonical_str ts ≡ canonical_str us
    → map number ts ≡ map number us
unfolding canonical_str
canonical_str-injective [] [] w v e = refl
canonical_str-injective [] (u ∷ us) w v e = unfold render in cc
canonical_str-injective (t ∷ ts) [] w v e = unfold render in cc
canonical_str-injective (t ∷ ts) (u ∷ us) w v e =
    let left = parse_route-render (map number (t ∷ ts)) (cc) (number-IsWellFormed (t ∷ ts) 0 w) in
    let right = parse_route-render (map number (u ∷ us)) (cc) (number-IsWellFormed (u ∷ us) 0 v) in
    ok-injective (sym left ∙ ap parse_route e ∙ right)

-- ===== src/Route/Laws.antt =====
-- `ParseRoute` undoes printing, and returns well-formed tokens only.
use mathlib.Core.Path.{subst}
use protoc_gen_apigw.Base.{
  All-append_left, ℕ, ◌+◌, List, [], ◌∷◌, ◌++◌, map, Bool, true, false, if◌then◌else◌, ◌≡◌, ◌≢◌,
  refl, sym, ap, ◌∙◌, arith, All, inl, inr, Bool-cases, append-nil, All-append,
}
use protoc_gen_apigw.Base.Text.{Text, slash, split}
use protoc_gen_apigw.Base.Text.Laws.{Lacks, split-Lacks, split-Lacks_append, split-All-Lacks}
use protoc_gen_apigw.Base.Outcome.{ok}
use protoc_gen_apigw.Route.{
  RouteToken, param_token, value_token, is_braced, unbrace, parse_tokens, parse_route,
}
use protoc_gen_apigw.Route.Render.{
  brace, render, render_token, Fits, IsWellFormed, unbrace-brace, is_braced-brace, brace-unbrace,
}

render_token-Lacks :
    (b : Bool) (i : ℕ) (t : RouteToken) → t.is_param ≡ b → Fits b i t → Lacks slash (render_token t)
unfolding render_token
render_token-Lacks true i t e f =
    rw e (omega arith, All-append _ t.param_name (b'}' ∷ []) f.1 (omega arith, tt))
render_token-Lacks false i t e f = rw e f.1

split-render :
    (r : Text) (i : ℕ) (ts : List RouteToken)
    → Lacks slash r
    → IsWellFormed i ts
    → split (r ++ render ts) slash ≡ r ∷ map render_token ts
unfolding render
split-render r i [] h w = rw append-nil (split-Lacks r slash h)
split-render r i (t ∷ ts) h (f, w) =
    split-Lacks_append r (render_token t ++ render ts) slash h
    ∙ ap (◌∷◌ r) (split-render (render_token t) _ ts (render_token-Lacks t.is_param i t refl f) w)

parse_tokens-braced :
    (name : Text) (tokens : List Text) (i : ℕ)
    → parse_tokens (brace name ∷ tokens) i ≡ param_token name i ∷ parse_tokens tokens (i + 1)
unfolding parse_tokens
parse_tokens-braced name tokens i = rw (is_braced-brace name, unbrace-brace name)

parse_tokens-static :
    (v : Text) (tokens : List Text) (i : ℕ)
    → v ≢ []
    → is_braced v ≡ false
    → parse_tokens (v ∷ tokens) i ≡ value_token v ∷ parse_tokens tokens i
unfolding parse_tokens
parse_tokens-static [] tokens i h k = absurd (h refl)
parse_tokens-static (a ∷ v) tokens i h k = rw k

render_token-param : (t : RouteToken) → t.is_param ≡ true → render_token t ≡ brace t.param_name
unfolding render_token
render_token-param t e = simp e

pub render_token-value : (t : RouteToken) → t.is_param ≡ false → render_token t ≡ t.value
unfolding render_token
render_token-value t e = simp e

parse_tokens_step :
    (b : Bool) (i : ℕ) (t : RouteToken) (tokens : List Text)
    → t.is_param ≡ b
    → Fits b i t
    → parse_tokens (render_token t ∷ tokens) i ≡ t ∷ parse_tokens tokens (if b then i + 1 else i)
parse_tokens_step true i t tokens e (same, _) =
    ap (λ r. parse_tokens (r ∷ tokens) i) (render_token-param t e)
    ∙ parse_tokens-braced t.param_name tokens i
    ∙ ap (λ u. u ∷ parse_tokens tokens (i + 1)) (sym same)
parse_tokens_step false i t tokens e (same, _, filled, plain) =
    ap (λ r. parse_tokens (r ∷ tokens) i) (render_token-value t e)
    ∙ parse_tokens-static t.value tokens i filled plain
    ∙ ap (λ u. u ∷ parse_tokens tokens i) (sym same)

parse_tokens-render_token :
    (ts : List RouteToken) (i : ℕ) → IsWellFormed i ts → parse_tokens (map render_token ts) i ≡ ts
parse_tokens-render_token [] i w = unfold parse_tokens in refl
parse_tokens-render_token (t ∷ ts) i (f, w) =
    parse_tokens_step t.is_param i t (map render_token ts) refl f
    ∙ ap (◌∷◌ t) (parse_tokens-render_token ts _ w)

-- A path that starts with a slash is parsed part by part.
parse_route_of_slash :
    (s : Text) → parse_route (slash ∷ s) ≡ ok (parse_tokens (split (slash ∷ s) slash) 0)
unfolding parse_route
parse_route_of_slash s = refl

-- Parsing the printed form of a non-empty list of well-formed tokens gives the tokens back.
pub parse_route-render :
    (ts : List RouteToken) → ts ≢ [] → IsWellFormed 0 ts → parse_route (render ts) ≡ ok ts
parse_route-render [] h w = absurd (h refl)
parse_route-render (t ∷ ts) h w =
    let parts : split (render (t ∷ ts)) slash ≡ [] ∷ map render_token (t ∷ ts) =
      split-render [] 0 (t ∷ ts) tt w in
    let parsed : parse_tokens ([] ∷ map render_token (t ∷ ts)) 0 ≡ t ∷ ts =
      unfold parse_tokens in parse_tokens-render_token (t ∷ ts) 0 w in
    let rooted : parse_route (render (t ∷ ts))
        ≡ ok (parse_tokens (split (render (t ∷ ts)) slash) 0) =
      unfold render in parse_route_of_slash (render_token t ++ render ts) in
    rooted ∙ ap (λ ps. ok (parse_tokens ps 0)) parts ∙ ap ok parsed

unbrace-Lacks :
    (token : Text) → is_braced token ≡ true → Lacks slash token → Lacks slash (unbrace token)
unbrace-Lacks token braced h =
    All-append_left _ (unbrace token) (b'}' ∷ [])
      (subst (Lacks slash) (sym (brace-unbrace token braced)) h).1

parse_tokens-IsWellFormed :
    (tokens : List Text) (i : ℕ) → All (Lacks slash) tokens → IsWellFormed i (parse_tokens tokens i)
unfolding parse_tokens
parse_tokens-IsWellFormed [] i h = tt
parse_tokens-IsWellFormed ([] ∷ tokens) i (h, hs) = parse_tokens-IsWellFormed tokens i hs
parse_tokens-IsWellFormed ((a ∷ token) ∷ tokens) i (h, hs) =
    elim (Bool-cases (is_braced (a ∷ token))) [
      | inl braced ↦
          rw braced (
            (refl, unbrace-Lacks (a ∷ token) braced h),
            parse_tokens-IsWellFormed tokens (i + 1) hs,
          )
      | inr plain ↦ rw plain ((refl, h, (cc), plain), parse_tokens-IsWellFormed tokens i hs)
    ]

-- What a successful parse returns is well-formed: parameters are numbered 0, 1, … in order, no
-- part holds a slash, and a static part is neither empty nor in braces.
pub parse_route-IsWellFormed :
    (path : Text) {ts : List RouteToken} → parse_route path ≡ ok ts → IsWellFormed 0 ts
unfolding parse_route
parse_route-IsWellFormed [] h = cc
parse_route-IsWellFormed (a ∷ s) {ts} h =
    let parsed : parse_tokens (split (a ∷ s) slash) 0 ≡ ts = ground arith in
    subst (IsWellFormed 0) parsed (parse_tokens-IsWellFormed _ 0 (split-All-Lacks (a ∷ s) slash))

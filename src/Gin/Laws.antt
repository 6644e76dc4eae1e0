-- ===== src/Gin/Laws.antt =====
-- What `ConvertRoute` of routers/ginapi/ginapi_registry.go gives for a route.
use protoc_gen_apigw.Route.Laws.{parse_route-IsWellFormed}
use protoc_gen_apigw.Base.Outcome.{ok}
use protoc_gen_apigw.Base.Text.Laws.{split-join, itoa-Lacks, Lacks}
use protoc_gen_apigw.Route.{parse_route, RouteToken}
use protoc_gen_apigw.Base.Text.{split, join, slash, codes, itoa, text_eq, Text}
use protoc_gen_apigw.Gin.{convert_route, clean_rooted, clean_parts, route_parts}
use protoc_gen_apigw.Base.{
  append_assoc, ap, true, ◌∙◌, append-nil, Bool, arith, is_empty, sym, ◌+◌, refl, false, map, ◌++◌,
  ◌≡◌, [], ◌≢◌, All, if◌then◌else◌, ℕ, ◌∷◌, List,
}
use protoc_gen_apigw.Route.Render.{Fits, IsWellFormed}

-- The part of a gin route for a token: a parameter is named by its index.
abbrev pub gin_part : RouteToken → Text
gin_part t = if t.is_param then b':' ∷ itoa t.param_index else t.value

-- A text that is neither "." nor "..", which gin's route would not keep.
abbrev pub IsPlain : Text → Type 0
IsPlain s = (text_eq s (codes ".") ≡ false) × (text_eq s (codes "..") ≡ false)

abbrev pub ArePlain : List RouteToken → Type 0
ArePlain = All (λ t. IsPlain t.value)

-- A part that gin's route keeps.
abbrev IsKept : Text → Type 0
IsKept s = (is_empty s ≡ false) × IsPlain s

abbrev IsPart : Text → Type 0
IsPart s = Lacks slash s × IsKept s

param-IsPart : (n : ℕ) → IsPart (b':' ∷ itoa n)
unfolding text_eq
param-IsPart n = ((omega arith, itoa-Lacks n), (refl, (refl, refl)))

is_empty_of_ne : (s : Text) → s ≢ [] → is_empty s ≡ false
is_empty_of_ne [] h = absurd (h refl)
is_empty_of_ne (c ∷ s) h = refl

gin_part_kind :
    (b : Bool) (i : ℕ) (t : RouteToken)
    → t.is_param ≡ b
    → Fits b i t
    → IsPlain t.value
    → IsPart (gin_part t)
gin_part_kind true i t e h plain = rw e (param-IsPart t.param_index)
gin_part_kind false i t e (same, lacks, full, braced) plain =
    rw e (lacks, (is_empty_of_ne t.value full, plain))

gin_part-IsPart :
    (ts : List RouteToken) (n : ℕ) → IsWellFormed n ts → ArePlain ts → All IsPart (map gin_part ts)
gin_part-IsPart [] n h plain = tt
gin_part-IsPart (t ∷ ts) n (fits, rest) (plain, others) = (
  gin_part_kind t.is_param n t refl fits plain,
  gin_part-IsPart ts (if t.is_param then n + 1 else n) rest others,
)

route_parts_kind :
    (b : Bool) (n : ℕ) (t : RouteToken) (ts : List RouteToken)
    → t.is_param ≡ b
    → Fits b n t
    → route_parts ts (if b then n + 1 else n) ≡ map gin_part ts
    → route_parts (t ∷ ts) n ≡ map gin_part (t ∷ ts)
unfolding route_parts
route_parts_kind true n t ts e (same, lacks) ih =
    let index : t.param_index ≡ n = ap (λ u. u.param_index) same in rw (e, ih, index) refl
route_parts_kind false n t ts e h ih = rw (e, ih) refl

route_parts-map :
    (ts : List RouteToken) (n : ℕ) → IsWellFormed n ts → route_parts ts n ≡ map gin_part ts
route_parts-map [] n h = unfold route_parts in refl
route_parts-map (t ∷ ts) n (fits, rest) =
    route_parts_kind t.is_param n t ts refl fits
      (route_parts-map ts (if t.is_param then n + 1 else n) rest)

clean_parts-keep : (ps kept : List Text) → All IsPart ps → clean_parts ps kept ≡ kept ++ ps
unfolding clean_parts
clean_parts-keep [] kept h = sym (append-nil kept)
clean_parts-keep (s ∷ ps) kept ((lacks, (full, (d, dd))), h) =
    rw (full, d, dd) (clean_parts-keep ps (kept ++ s ∷ []) h ∙ append_assoc kept (s ∷ []) ps)

All-Lacks : (ps : List Text) → All IsPart ps → All (Lacks slash) ps
All-Lacks [] h = tt
All-Lacks (p ∷ ps) ((lacks, h), rest) = (lacks, All-Lacks ps rest)

split-slashes : (s : Text) → split (slash ∷ slash ∷ s) slash ≡ [] ∷ [] ∷ split s slash
unfolding split
split-slashes s = refl

clean_parts-slashes : (ps : List Text) → clean_parts ([] ∷ [] ∷ ps) [] ≡ clean_parts ps []
unfolding clean_parts
clean_parts-slashes ps = refl

join-root :
    (p : Text) (ps : List Text)
    → join (codes "/" ∷ p ∷ ps) slash ≡ slash ∷ slash ∷ join (p ∷ ps) slash
unfolding join
join-root p ps = refl

clean_rooted-eq : (s : Text) → clean_rooted s ≡ slash ∷ join (clean_parts (split s slash) []) slash
unfolding clean_rooted
clean_rooted-eq s = refl

clean_joined :
    (ps : List Text)
    → All IsPart ps
    → clean_rooted (join (codes "/" ∷ ps) slash) ≡ slash ∷ join ps slash
clean_joined [] h = unfold clean_rooted in unfold clean_parts in unfold split in unfold join in refl
clean_joined (p ∷ ps) h =
    let parts = split-join (p ∷ ps) slash (λ e. cc) (All-Lacks (p ∷ ps) h) in
    let whole = split-slashes (join (p ∷ ps) slash) ∙ ap (λ qs. [] ∷ [] ∷ qs) parts in
    let kept = clean_parts-slashes (p ∷ ps) ∙ clean_parts-keep (p ∷ ps) [] h in
    ap clean_rooted (join-root p ps)
    ∙ clean_rooted-eq (slash ∷ slash ∷ join (p ∷ ps) slash)
    ∙ ap (λ qs. slash ∷ join qs slash) (ap (λ qs. clean_parts qs []) whole ∙ kept)

-- `ConvertRoute` of a path that `ParseRoute` accepts returns a slash and the route's parts joined by
-- slashes, each parameter as a colon and its index and each static part as it is, where no
-- static part is "." or "..".
pub convert_route-ArePlain :
    (r : Text) (tokens : List RouteToken)
    → parse_route r ≡ ok tokens
    → ArePlain tokens
    → convert_route r ≡ ok (slash ∷ join (map gin_part tokens) slash)
unfolding convert_route
convert_route-ArePlain r tokens e plain =
    let fits = parse_route-IsWellFormed r e in
    rw
      (
        e,
        route_parts-map tokens 0 fits,
        clean_joined (map gin_part tokens) (gin_part-IsPart tokens 0 fits plain),
      )
      refl

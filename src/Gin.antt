-- ===== src/Gin.antt =====
-- routers/ginapi/ginapi_handler.go: `ConvertRoute`, with what it needs of Go's package path.
pub mod Laws
pub mod Stream
pub mod Error
pub mod Handler
pub mod Registry
mod Tests
use protoc_gen_apigw.Base.{◌||◌, is_empty, ◌+◌, if◌then◌else◌, [], ℕ, ◌++◌, ◌∷◌, List}
use protoc_gen_apigw.Base.Outcome.{ok, ◌>>=◌, Outcome}
use protoc_gen_apigw.Route.{parse_route, RouteToken}
use protoc_gen_apigw.Base.Text.{itoa, slash, codes, join, Text, split, text_eq}

abbrev dot : Text
dot = codes "."

abbrev dot_dot : Text
dot_dot = codes ".."

-- the elements of a list without the last one
unfoldable pub without_last : List Text → List Text
without_last [] = []
without_last (s ∷ []) = []
without_last (s ∷ t ∷ ss) = s ∷ without_last (t ∷ ss)

-- The loop of `path.Clean` on a rooted path, over the parts between slashes: empty parts and "." are
-- left out, and ".." takes back the part before it.
unfoldable pub clean_parts : List Text → List Text → List Text
unfolding text_eq without_last
clean_parts [] kept = kept
clean_parts (s ∷ ss) kept =
    let skip = clean_parts ss kept in
    let back = clean_parts ss (without_last kept) in
    let keep = clean_parts ss (kept ++ s ∷ []) in
    if is_empty s || text_eq s dot then skip else if text_eq s dot_dot then back else keep

-- `path.Clean` of a path that starts with a slash
unfoldable pub clean_rooted : Text → Text
unfolding clean_parts split join
clean_rooted s = slash ∷ join (clean_parts (split s slash) []) slash

-- the loop of `ConvertRoute`; the number is `paramNum`
unfoldable pub route_parts : List RouteToken → ℕ → List Text
route_parts [] n = []
route_parts (t ∷ ts) n =
    let param = (b':' ∷ itoa n) ∷ route_parts ts (n + 1) in
    let static = t.value ∷ route_parts ts n in if t.is_param then param else static

-- `ConvertRoute`; `path.Join` of parts of which the first one is "/" cleans them, joined by slashes
unfoldable pub convert_route : Text → Outcome Text
unfolding route_parts clean_rooted
convert_route r = do
  tkn ← parse_route r
  ok (clean_rooted (join (codes "/" ∷ route_parts tkn 0) slash))

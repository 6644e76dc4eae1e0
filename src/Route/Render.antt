-- ===== src/Route/Render.antt =====
-- Printing route tokens, and the shape of the tokens that `ParseRoute` returns.
use protoc_gen_apigw.Base.{
  refl, ap, arith, Bool, true, ℕ, ◌+◌, List, [], ◌∷◌, ◌++◌, false, if◌then◌else◌, ◌≡◌, ◌≢◌,
}
use protoc_gen_apigw.Route.{unbrace, RouteToken, param_token, value_token, is_braced}
use protoc_gen_apigw.Base.Text.{drop_last, has_suffix, Text, slash}
use protoc_gen_apigw.Base.Text.Laws.{Lacks}

-- A parameter's name in braces, as a route writes it.
abbrev pub brace : Text → Text
brace name = b'{' ∷ (name ++ (b'}' ∷ []))

unfoldable pub render_token : RouteToken → Text
render_token t = if t.is_param then brace t.param_name else t.value

-- A route with the given tokens: "/" before each of them.
unfoldable pub render : List RouteToken → Text
unfolding render_token
render [] = []
render (t ∷ ts) = slash ∷ (render_token t ++ render ts)

-- A token as a route can hold it: a parameter has the given number and no slash in its name; a
-- static part is neither empty nor in braces and holds no slash.
abbrev pub Fits : Bool → ℕ → RouteToken → Type 0
Fits true i t = (t ≡ param_token t.param_name i) × Lacks slash t.param_name
Fits false i t =
    (t ≡ value_token t.value) × Lacks slash t.value × (t.value ≢ []) × (is_braced t.value ≡ false)

-- Every token fits, and parameters are numbered in order from the given number on.
abbrev pub IsWellFormed : ℕ → List RouteToken → Type 0
IsWellFormed i [] = Unit
IsWellFormed i (t ∷ ts) = Fits t.is_param i t × IsWellFormed (if t.is_param then i + 1 else i) ts

drop_last-append : (s : Text) (c : ℕ) → drop_last (s ++ c ∷ []) ≡ s
unfolding drop_last
drop_last-append [] c = refl
drop_last-append (a ∷ []) c = refl
drop_last-append (a ∷ b ∷ s) c = ap (◌∷◌ a) (drop_last-append (b ∷ s) c)

pub unbrace-brace : (name : Text) → unbrace (brace name) ≡ name
unfolding unbrace
unbrace-brace name = drop_last-append name b'}'

has_suffix-append : (s : Text) (c : ℕ) → has_suffix (s ++ c ∷ []) (c ∷ []) ≡ true
unfolding has_suffix
has_suffix-append [] c = ground arith
has_suffix-append (a ∷ s) c = ground (arith, has_suffix-append s c)

pub is_braced-brace : (name : Text) → is_braced (brace name) ≡ true
unfolding is_braced
is_braced-brace name = has_suffix-append (b'{' ∷ name) b'}'

-- A text in braces is a name with braces put round it.
has_suffix_last : (s : Text) (c : ℕ) → has_suffix s (c ∷ []) ≡ true → s ≡ drop_last s ++ c ∷ []
unfolding has_suffix drop_last
has_suffix_last [] c h = cc
has_suffix_last (a ∷ []) c h = ground arith
has_suffix_last (a ∷ b ∷ s) c h = ground (arith, has_suffix_last (b ∷ s) c)

pub brace-unbrace : (token : Text) → is_braced token ≡ true → brace (unbrace token) ≡ token
unfolding is_braced unbrace
brace-unbrace [] h = cc
brace-unbrace (a ∷ []) h = ground arith
brace-unbrace (a ∷ b ∷ s) h = ground (arith, has_suffix_last (b ∷ s) b'}')

-- ===== src/Imports/Laws.antt =====
-- The aliases of imported packages: the loop that looks for a free one ends, and what it leaves.
use protoc_gen_apigw.Imports.{
  or_next, first_alias, Entity, GoContext, ImportAlias, alias_under, aliases_of, TypeMapper,
  find_alias, importable_package_name, proto_imports,
}
use protoc_gen_apigw.Base.{
  true, ◌+◌, leb, refl, [], if◌then◌else◌, reverse, ◌∷◌, length-append, ap, ◌∙◌, Bool-cases, inr,
  inl, Option-cases, false, zero, none, sym, ◌<◌, arith, length, map, some, ◌++◌, ◌≢◌, All, suc,
  ◌≡◌, ◌≤◌, ℕ,
}
use protoc_gen_apigw.Base.OrderedMap.{set, value}
use protoc_gen_apigw.Base.Sorting.Laws.{sort_by-Permᴰ, Keyed-Differing, Differing}
use mathlib.Core.Logic.{∥∥₁_elim}
use protoc_gen_apigw.Base.Text.Laws.{text_eq_iff}
use protoc_gen_apigw.Base.OrderedMap.Laws.{value-set_other, value-set_self}
use protoc_gen_apigw.Base.Outcome.{exhausted, panic, err, ok, Outcome}
use protoc_gen_apigw.Base.Text.{codes, text_eq, Text}
use mathlib.Core.Path.{subst}
use mathlib.Core.List.{Perm}
use mathlib.Core.List.Perm

-- A name followed by that many letters x.
abbrev pub with_xs : Text → ℕ → Text
with_xs pkg zero = pkg
with_xs pkg (suc n) = with_xs (pkg ++ codes "x") n

-- What looking for an alias comes to: it is the wanted name followed by letters x, the map has the
-- import path under it, and every alias that was there stands for the path that it stood for.
abbrev pub Aliased : Text → Text → TypeMapper → Outcome (Text × TypeMapper) → Type 0
Aliased pkg import m (ok (alias, m')) =
    (value alias m' ≡ some import)
    × ((n : ℕ) × (alias ≡ with_xs pkg n))
    × ((j : Text) → value j m ≢ none → value j m' ≡ value j m)
Aliased pkg import m _ = ⊥

-- How many names of the map have this length or a greater one.
abbrev long_names : ℕ → TypeMapper → ℕ
long_names n [] = 0
long_names n ((k, v) ∷ m) = (if leb n (length k) then 1 else 0) + long_names n m

long_names-le-length : (n : ℕ) (m : TypeMapper) → long_names n m ≤ length m
long_names-le-length n [] = omega arith
long_names-le-length n ((k, v) ∷ m) = ground (arith, long_names-le-length n m)

long_names_mono : (n : ℕ) (m : TypeMapper) → long_names (suc n) m ≤ long_names n m
long_names_mono n [] = omega arith
long_names_mono n ((k, v) ∷ m) = ground (arith, long_names_mono n m)

-- A name that the map has is one of those that are as long as it.
long_names_of_value :
    (pkg to : Text) (m : TypeMapper)
    → value pkg m ≡ some to
    → long_names (suc (length pkg)) m < long_names (length pkg) m
unfolding value
long_names_of_value pkg to [] h = cc
long_names_of_value pkg to ((k, v) ∷ m) h = elim (Bool-cases (text_eq k pkg)) [
  | inl same ↦
      let len : length k ≡ length pkg = ap length ((text_eq_iff k pkg).0 same) in
      let rest = long_names_mono (length pkg) m in rw len (ground arith)
  | inr other ↦ let later = long_names_of_value pkg to m (rw other at h) in ground arith
]

Aliased-longer :
    (pkg import : Text) (m : TypeMapper) (out : Outcome (Text × TypeMapper))
    → Aliased (pkg ++ codes "x") import m out
    → Aliased pkg import m out
Aliased-longer pkg import m (ok (alias, m')) (there, (n, e), kept) = (there, (suc n, e), kept)
Aliased-longer pkg import m (err e) h = h
Aliased-longer pkg import m (panic e) h = h
Aliased-longer pkg import m exhausted h = h

module _ (fuel : ℕ) (pkg import : Text) (m : TypeMapper) where
  find_alias_free :
      value pkg m ≡ none → find_alias (suc fuel) pkg import m ≡ ok (pkg, set pkg import m)
  unfolding find_alias alias_under or_next
  find_alias_free h = rw h refl

  find_alias_own :
      (to : Text)
      → value pkg m ≡ some to
      → text_eq to import ≡ true
      → find_alias (suc fuel) pkg import m ≡ ok (pkg, m)
  unfolding find_alias alias_under or_next
  find_alias_own to h same = rw (h, same) refl

  find_alias_taken :
      (to : Text)
      → value pkg m ≡ some to
      → text_eq to import ≡ false
      → find_alias (suc fuel) pkg import m ≡ find_alias fuel (pkg ++ codes "x") import m
  unfolding find_alias alias_under or_next
  find_alias_taken to h other = rw (h, other) refl

find_alias-Aliased :
    (fuel : ℕ) (pkg import : Text) (m : TypeMapper)
    → long_names (length pkg) m < fuel
    → Aliased pkg import m (find_alias fuel pkg import m)
unfolding find_alias
find_alias-Aliased zero pkg import m h = absurd (omega arith)
find_alias-Aliased (suc fuel) pkg import m h = elim (Option-cases (value pkg m)) [
  | inl free ↦ rw (find_alias_free fuel pkg import m free) (
    value-set_self pkg import m,
    (0, refl),
    λ j there. value-set_other pkg j import m (λ e. there (rw (sym e) free)),
  )
  | inr (to, taken) ↦ elim (Bool-cases (text_eq to import)) [
    | inl same ↦
        rw (taken, same)
          (taken ∙ ap some ((text_eq_iff to import).0 same), (0, refl), λ j there. refl)
    | inr other ↦
        let fewer = long_names_of_value pkg to m taken in
        let len : length (pkg ++ codes "x") ≡ suc (length pkg) =
          length-append pkg (codes "x") ∙ omega arith in
        rw (taken, other)
          (Aliased-longer pkg import m _
            (find_alias-Aliased fuel (pkg ++ codes "x") import m (rw len (omega arith))))
  ]
]

-- For an entity of another package, `importablePackageName` ends: it returns the package's name, with
-- the last folder of the import path before a version, followed by as many letters x as it takes;
-- the aliases then have the entity's import path under that name, and all that they had before.
pub importable_package_name-Aliased :
    (ctx : GoContext) (f e : Entity) (m : TypeMapper)
    → text_eq (ctx.import_path e) (ctx.import_path f) ≡ false
    → Aliased (first_alias ctx e) (ctx.import_path e) m (importable_package_name ctx f e m)
unfolding importable_package_name
importable_package_name-Aliased ctx f e m h =
    let bound = long_names-le-length (length (first_alias ctx e)) m in
    rw h
      (find_alias-Aliased (suc (length m)) (first_alias ctx e) (ctx.import_path e) m (omega arith))

abbrev alias_of : Text × Text → ImportAlias
alias_of (k, v) = record { import = v; alias = k }

aliases_of-map : (m : TypeMapper) → aliases_of m ≡ map alias_of m
aliases_of-map [] = refl
aliases_of-map ((k, v) ∷ m) = ap (λ l. alias_of (k, v) ∷ l) (aliases_of-map m)

aliases_of-Perm : (m m' : TypeMapper) → Perm m m' → Perm (aliases_of m) (aliases_of m')
aliases_of-Perm m m' p =
    subst (λ l. Perm l (aliases_of m')) (sym (aliases_of-map m))
      (subst (λ l. Perm (map alias_of m) l) (sym (aliases_of-map m')) (Perm.map alias_of p))

All-alias :
    (key : Text) (m : TypeMapper) → All (λ q. q.0 ≢ key) m → All (λ i. i.alias ≢ key) (aliases_of m)
All-alias key [] h = tt
All-alias key ((k, v) ∷ m) (h, hs) = (h, All-alias key m hs)

Differing-aliases :
    (m : TypeMapper) → Differing (λ q. q.0) m → Differing (λ i. i.alias) (aliases_of m)
Differing-aliases [] h = tt
Differing-aliases ((k, v) ∷ m) (h, hs) = (All-alias k m h, Differing-aliases m hs)

-- `ProtoImports` does not depend on the order in which Go iterates over the aliases, which are
-- different from one another.
pub proto_imports-Perm_eq :
    (m m' : TypeMapper) → Perm m m' → Differing (λ q. q.0) m → proto_imports m ≡ proto_imports m'
unfolding proto_imports
proto_imports-Perm_eq m m' p h =
    let is_set : IsSet ImportAlias = hlevel in
    let keyed = Keyed-Differing (λ i. i.alias) is_set (aliases_of m) (Differing-aliases m h) in
    let same : IsProp (proto_imports m ≡ proto_imports m') = hlevel in
    ∥∥₁_elim (aliases_of-Perm m m' p) same (λ d. ap reverse (sort_by-Permᴰ (λ i. i.alias) d keyed))

-- ===== src/HttpBridge/Laws.antt =====
-- What the metadata of a request holds under each key.
use protoc_gen_apigw.Base.{
  ap, sym, ◌∙◌, All, [], false, is_empty, refl, ◌∷◌, none, true, List, if◌then◌else◌, some, ◌≡◌,
  Bool, Option,
}
use protoc_gen_apigw.Base.Text.{text_eq, codes, to_lower, Text}
use protoc_gen_apigw.Base.OrderedMap.{value, OrderedMap}
use protoc_gen_apigw.HttpBridge.{metadata_for_request, set_each, Md, Request}

-- What grpc documents of `MD.Set`: the key is converted to lower case, and without values nothing
-- is set.
pub record IsMetadataSet (md_set : Text → List Text → Md → Md) : Type 0 where
  pub stores :
      (k j : Text) (v : Text) (vs : List Text) (md : Md)
      → value j (md_set k (v ∷ vs) md)
        ≡ (if text_eq (to_lower k) j then some (v ∷ vs) else value j md)
  pub skips : (k : Text) (md : Md) → md_set k [] md ≡ md

abbrev pub or_else {ℓ} : {A : Type ℓ} → Option A → Option A → Option A
or_else (some a) o = some a
or_else none o = o

or_else_if {ℓ} :
    {A : Type ℓ} (b : Bool) (a : A) (o p : Option A)
    → or_else (if b then some a else o) p ≡ (if b then some a else or_else o p)
or_else_if true a o p = refl
or_else_if false a o p = refl

or_else-none {ℓ} : {A : Type ℓ} (o : Option A) → or_else o none ≡ o
or_else-none none = refl
or_else-none (some a) = refl

or_else_assoc {ℓ} :
    {A : Type ℓ} (a b c : Option A) → or_else (or_else a b) c ≡ or_else a (or_else b c)
or_else_assoc none b c = refl
or_else_assoc (some x) b c = refl

-- The values of a header, if it has any and its name in lower case is the key.
abbrev own_values : Text → Text → List Text → Option (List Text)
own_values key k [] = none
own_values key k (v ∷ vs) = if text_eq (to_lower k) key then some (v ∷ vs) else none

-- The values of the last header that has values and whose name in lower case is the key.
abbrev pub last_values : Text → OrderedMap (List Text) → Option (List Text)
last_values key [] = none
last_values key ((k, vs) ∷ header) = or_else (last_values key header) (own_values key k vs)

-- The entries that the metadata has for every request, whatever its headers are.
abbrev pub reserved : {Tls : Type 0} → Request Tls → Text → Md
reserved req name =
    (codes ":apigw-original-method", req.method ∷ [])
    ∷ (codes ":apigw-original-path", req.url_path ∷ [])
    ∷ (codes ":scheme", codes "https" ∷ [])
    ∷ (codes ":authority", req.host ∷ [])
    ∷ (codes ":path", name ∷ [])
    ∷ (codes ":method", codes "POST" ∷ [])
    ∷ (codes "content-type ", codes "application/grpc+proto" ∷ [])
    ∷ []

module _ (md_set : Text → List Text → Md → Md) (laws : IsMetadataSet md_set) where
  value-md_set :
      (key k : Text) (vs : List Text) (md : Md)
      → value key (md_set k vs md) ≡ or_else (own_values key k vs) (value key md)
  value-md_set key k [] md = rw (laws.skips k md) refl
  value-md_set key k (v ∷ vs) md =
      laws.stores k key v vs md
      ∙ sym (or_else_if (text_eq (to_lower k) key) (v ∷ vs) none (value key md))

  value-set_each :
      (key : Text) (header : OrderedMap (List Text)) (md : Md)
      → value key (set_each md_set header md) ≡ or_else (last_values key header) (value key md)
  unfolding set_each
  value-set_each key [] md = refl
  value-set_each key ((k, vs) ∷ header) md =
      value-set_each key header (md_set k vs md)
      ∙ ap (or_else (last_values key header)) (value-md_set key k vs md)
      ∙ sym (or_else_assoc (last_values key header) (own_values key k vs) (value key md))

  -- `md_set` of each entry, the first entry last
  sets : Md → Md → Md
  sets [] md = md
  sets ((k, vs) ∷ entries) md = md_set k vs (sets entries md)

  -- An entry that `MD.Set` stores under its own key.
  abbrev IsEntry : Text × List Text → Type 0
  IsEntry (k, vs) = (to_lower k ≡ k) × (is_empty vs ≡ false)

  value-sets :
      (key : Text) (entries : Md) (md : Md)
      → All IsEntry entries
      → value key (sets entries md) ≡ or_else (value key entries) (value key md)
  unfolding sets value
  value-sets key [] md h = refl
  value-sets key ((k, []) ∷ entries) md ((lower, full), h) = cc
  value-sets key ((k, v ∷ vs) ∷ entries) md ((lower, full), h) =
      let stored = laws.stores k key v vs (sets entries md) in
      let rest = value-sets key entries md h in
      let split_if = or_else_if (text_eq k key) (v ∷ vs) (value key entries) (value key md) in
      stored ∙ rw (lower, rest, split_if) refl

  -- Under each key, the metadata of a request has its reserved entry if the key is reserved, whatever
  -- the headers say, and otherwise the values of the last header with values whose name in lower
  -- case is the key, if there is one.
  pub metadata_for_request-value :
      {Tls : Type 0} (req : Request Tls) (name key : Text)
      → value key (metadata_for_request md_set req name)
        ≡ or_else (value key (reserved req name)) (last_values key req.header)
  unfolding metadata_for_request to_lower sets value
  metadata_for_request-value req name key =
      value-sets key (reserved req name) (set_each md_set req.header []) (
        (refl, refl),
        (
          (refl, refl),
          ((refl, refl), ((refl, refl), ((refl, refl), ((refl, refl), ((refl, refl), tt))))),
        ),
      )
      ∙ ap (or_else (value key (reserved req name)))
          (value-set_each key req.header [] ∙ or_else-none (last_values key req.header))

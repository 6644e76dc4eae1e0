-- ===== src/OpenApi/Schema/Closed.antt =====
-- References that resolve among the schemas.
use mathlib.Core.Path.{subst}
use protoc_gen_apigw.Base.OrderedMap.Laws.{value-set, value-set_self}
use protoc_gen_apigw.Base.Text.Laws.{text_eq_iff}
use protoc_gen_apigw.Base.Text.{text_eq, Text}
use protoc_gen_apigw.Base.{
  Bool-cases, ◌⊎◌, refl, ◌∙◌, sym, none, some-eq, inr, some, inl, ◌≡◌, Option-cases,
}
use protoc_gen_apigw.Base.OrderedMap.{set, value, OrderedMap}
use protoc_gen_apigw.OpenApi.Schema.Container.{ref_to}
use protoc_gen_apigw.OpenApi.Schema.Data.{
  no_proxies, no_dynamic, no_props, proxy, Proxies, of_bool, of_proxy, Dynamic, prop, schema,
  Schema, inline, Props, ref, SchemaProxy,
}

-- A key that the schemas hold.
abbrev pub Known : OrderedMap SchemaProxy → Text → Type 0
Known m k = (p : SchemaProxy) × (value k m ≡ some p)

unfoldable mutual
  -- Every reference inside a proxy is to a key of which `K` holds.
  pub ProxyClosed : (Text → Type 0) → SchemaProxy → Type 0
  ProxyClosed K (ref t) = (k : Text) × (ref t ≡ ref_to k) × K k
  ProxyClosed K (inline s) = SchemaClosed K s

  pub SchemaClosed : (Text → Type 0) → Schema → Type 0
  SchemaClosed K (schema info props items additional one_of) =
      PropsClosed K props
      × DynamicClosed K items
      × DynamicClosed K additional
      × ProxiesClosed K one_of

  pub PropsClosed : (Text → Type 0) → Props → Type 0
  PropsClosed K no_props = Unit
  PropsClosed K (prop k p ps) = ProxyClosed K p × PropsClosed K ps

  pub DynamicClosed : (Text → Type 0) → Dynamic → Type 0
  DynamicClosed K no_dynamic = Unit
  DynamicClosed K (of_proxy p) = ProxyClosed K p
  DynamicClosed K (of_bool b) = Unit

  pub ProxiesClosed : (Text → Type 0) → Proxies → Type 0
  ProxiesClosed K no_proxies = Unit
  ProxiesClosed K (proxy p ps) = ProxyClosed K p × ProxiesClosed K ps

module _ {K L : Text → Type 0} (more : (k : Text) → K k → L k) where
  mutual
    unfolding ProxyClosed

    proxy_mono : (p : SchemaProxy) → ProxyClosed K p → ProxyClosed L p
    proxy_mono (ref t) (k, e, h) = (k, e, more k h)
    proxy_mono (inline s) h = schema_mono s h

    schema_mono : (s : Schema) → SchemaClosed K s → SchemaClosed L s
    schema_mono (schema info props items additional one_of) (a, b, c, d) =
        (props_mono props a, dynamic_mono items b, dynamic_mono additional c, proxies_mono one_of d)

    props_mono : (ps : Props) → PropsClosed K ps → PropsClosed L ps
    props_mono no_props h = tt
    props_mono (prop k p ps) (h, hs) = (proxy_mono p h, props_mono ps hs)

    dynamic_mono : (d : Dynamic) → DynamicClosed K d → DynamicClosed L d
    dynamic_mono no_dynamic h = tt
    dynamic_mono (of_proxy p) h = proxy_mono p h
    dynamic_mono (of_bool b) h = tt

    proxies_mono : (ps : Proxies) → ProxiesClosed K ps → ProxiesClosed L ps
    proxies_mono no_proxies h = tt
    proxies_mono (proxy p ps) (h, hs) = (proxy_mono p h, proxies_mono ps hs)

  pub ProxyClosed-mono : (p : SchemaProxy) → ProxyClosed K p → ProxyClosed L p
  ProxyClosed-mono p h = proxy_mono p h

  pub PropsClosed-mono : (ps : Props) → PropsClosed K ps → PropsClosed L ps
  PropsClosed-mono ps h = props_mono ps h

abbrev pub IsInline : SchemaProxy → Type 0
IsInline (ref t) = ⊥
IsInline (inline s) = Unit

-- What building leaves of the schemas that were there: each stays as it is, and each new one is an
-- inline schema.
pub record Grows (m n : OrderedMap SchemaProxy) : Type 0 where
  pub stable : (k : Text) (p : SchemaProxy) → value k m ≡ some p → value k n ≡ some p
  pub filled : (k : Text) (p : SchemaProxy) → value k m ≡ none → value k n ≡ some p → IsInline p

-- Every reference inside the schemas resolves among them.
abbrev pub IsClosed : OrderedMap SchemaProxy → Type 0
IsClosed m = (k : Text) (p : SchemaProxy) → value k m ≡ some p → ProxyClosed (Known m) p

pub Grows-refl : (m : OrderedMap SchemaProxy) → Grows m m
Grows-refl m = record { stable = λ k p h. h; filled = λ k p h e. cc }

pub Grows-trans : {m n o : OrderedMap SchemaProxy} → Grows m n → Grows n o → Grows m o
Grows-trans {n} g h = record {
  stable = λ k p e. h.stable k p (g.stable k p e);
  filled = λ k p missing e. elim (Option-cases (value k n)) [
    | inl absent ↦ h.filled k p absent e
    | inr (q, there) ↦
        let same : q ≡ p = some-eq (sym (h.stable k q there) ∙ e) in
        subst IsInline same (g.filled k q missing there)
  ];
}

pub Known-Grows : {m n : OrderedMap SchemaProxy} → Grows m n → (k : Text) → Known m k → Known n k
Known-Grows g k (p, e) = (p, g.stable k p e)

pub ref-closed : (K : Text → Type 0) (k : Text) → K k → ProxyClosed K (ref_to k)
unfolding ref_to ProxyClosed
ref-closed K k h = (k, refl, h)

module _ (key : Text) (p : SchemaProxy) (m : OrderedMap SchemaProxy) where
  pub value-set_cases :
      (j : Text)
      → (((key ≡ j) × (value j (set key p m) ≡ some p)) ⊎ (value j (set key p m) ≡ value j m))
  value-set_cases j = elim (Bool-cases (text_eq key j)) [
    | inl same ↦ inl ((text_eq_iff key j).0 same, value-set key j p m ∙ rw same refl)
    | inr other ↦ inr (value-set key j p m ∙ rw other refl)
  ]

  pub Known-set : (j : Text) → Known m j → Known (set key p m) j
  Known-set j (q, e) = elim (value-set_cases j) [
    | inl (same, there) ↦ (p, there)
    | inr kept ↦ (q, kept ∙ e)
  ]

  pub Known-set_self : Known (set key p m) key
  Known-set_self = (p, value-set_self key p m)

  pub IsClosed-set : IsClosed m → ProxyClosed (Known (set key p m)) p → IsClosed (set key p m)
  IsClosed-set closed h j q e = elim (value-set_cases j) [
    | inl (same, there) ↦
        subst (λ r. ProxyClosed (Known (set key p m)) r) (some-eq (sym there ∙ e)) h
    | inr kept ↦ ProxyClosed-mono Known-set q (closed j q (sym kept ∙ e))
  ]

-- The placeholder that is set under a missing key is replaced in the end.
pub Grows-around :
    (key : Text) (p : SchemaProxy) (s : Schema) (m n : OrderedMap SchemaProxy)
    → value key m ≡ none
    → Grows (set key p m) n
    → Grows m (set key (inline s) n)
Grows-around key p s m n missing g = record {
  stable = λ j q e. elim (value-set_cases key (inline s) n j) [
    | inl (same, there) ↦ let at_key : value key m ≡ some q = rw same e in cc
    | inr kept ↦
        kept
        ∙ g.stable j q (elim (value-set_cases key p m j) [
          | inl (same, there) ↦ let at_key : value key m ≡ some q = rw same e in cc
          | inr kept' ↦ kept' ∙ e
        ])
  ];
  filled = λ j q absent e. elim (value-set_cases key (inline s) n j) [
    | inl (same, there) ↦ subst IsInline (some-eq (sym there ∙ e)) tt
    | inr kept ↦ elim (value-set_cases key p m j) [
      | inl (same, there) ↦
          let there' : value j (set key (inline s) n) ≡ some (inline s) =
            rw same (value-set_self j (inline s) n) in
          subst IsInline (some-eq (sym there' ∙ e)) tt
      | inr kept' ↦ g.filled j q (kept' ∙ absent) (sym kept ∙ e)
    ]
  ];
}

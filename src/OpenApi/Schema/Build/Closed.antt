-- ===== src/OpenApi/Schema/Build/Closed.antt =====
-- Every reference that `Message` builds resolves among the schemas, and no placeholder is left.
use protoc_gen_apigw.OpenApi.Schema.Ensures.{
  Ensures-pure, Ensures->>=, Ensures-if, Resolves, Ensures, GoodCall,
}
use protoc_gen_apigw.OpenApi.Schema.Closed.{
  Known-set, ProxyClosed-mono, Grows-around, Known-set_self, IsClosed-set, ref-closed, Known-Grows,
  PropsClosed-mono, Grows-refl, SchemaClosed, Known, IsClosed, PropsClosed, ProxyClosed,
}
use protoc_gen_apigw.OpenApi.Schema.Build.Parts.{
  update_info-closed, wkt_closed, inline-closed, field-closed,
}
use protoc_gen_apigw.OpenApi.Schema.WellKnown.{well_known_type, schema_for_wkt, is_well_known}
use protoc_gen_apigw.Base.Outcome.{exhausted, panic, err, ok, ◌>>=◌}
use protoc_gen_apigw.OpenApi.Schema.Data.{
  inline, Schema, no_props, prop, Props, SchemaProxy, set_prop,
}
use protoc_gen_apigw.Base.{refl, none, some, ◌≡◌, Option, [], inr, ◌∷◌, inl, Bool-cases, Bool, List}
use protoc_gen_apigw.OpenApi.Schema.Container.{ref_to, Built, Container, MessageCall}
use protoc_gen_apigw.Base.OrderedMap.{set, value, OrderedMap}
use protoc_gen_apigw.OpenApi.Schema.Build.{
  message_key, message_of, message_under, message_comments, is_filtered, add_fields,
  add_one_of_fields, add_one_ofs, message_object,
}
use protoc_gen_apigw.OpenApi.Schema.Options.{json_name}
use protoc_gen_apigw.Descriptor.{Field, OneOf, Message}
use protoc_gen_apigw.OpenApi.Schema.Fields.{field}
use protoc_gen_apigw.Base.Text.{text_eq, Text}

set_prop-closed :
    (K : Text → Type 0) (k : Text) (p : SchemaProxy) (ps : Props)
    → ProxyClosed K p
    → PropsClosed K ps
    → PropsClosed K (set_prop k p ps)
unfolding set_prop ProxyClosed
set_prop-closed K k p no_props h hs = (h, tt)
set_prop-closed K k p (prop j q ps) h (hq, hs) = elim (Bool-cases (text_eq j k)) [
  | inl same ↦ rw same (h, hs)
  | inr other ↦ rw other (hq, set_prop-closed K k p ps h hs)
]

abbrev HasProps : {A : Type 0} → Props × A → OrderedMap SchemaProxy → Type 0
HasProps r m = PropsClosed (Known m) r.0

abbrev HasSchema : Schema → OrderedMap SchemaProxy → Type 0
HasSchema s m = SchemaClosed (Known m) s

-- The end of `Message`: the schema replaces the placeholder.
ended :
    (B : OrderedMap SchemaProxy → Type 0) (holds : (m : OrderedMap SchemaProxy) → B m → IsClosed m)
    (key : Text) (p : SchemaProxy) (c : Container) (r : Built Schema)
    → value key c.schemas ≡ none
    → Ensures B HasSchema (record c { schemas = set key p c.schemas }) r
    → Ensures IsClosed Resolves c (
        r >>= λ (obj, c'). ok (ref_to key, record c' { schemas = set key (inline obj) c'.schemas }))
ended B holds key p c (ok (obj, c')) missing (g, closed, h) =
    let final = set key (inline obj) c'.schemas in
    (
      Grows-around key p obj c.schemas c'.schemas missing g,
      IsClosed-set key (inline obj) c'.schemas (holds c'.schemas closed) (
          ProxyClosed-mono (Known-set key (inline obj) c'.schemas) (inline obj)
            (inline-closed (Known c'.schemas) obj h)),
      ref-closed (Known final) key (Known-set_self key (inline obj) c'.schemas),
    )
ended B holds key p c (err e) missing h = tt
ended B holds key p c (panic e) missing h = tt
ended B holds key p c exhausted missing h = h

module _ (B : OrderedMap SchemaProxy → Type 0) (registry : List Message) (call : MessageCall)
    (good : GoodCall B call) where
  add_fields-closed :
      (filter : List Text) (fs : List Field) (props : Props) (required : List Text) (c : Container)
      → B c.schemas
      → PropsClosed (Known c.schemas) props
      → Ensures B HasProps c (add_fields registry call filter fs props required c)
  unfolding add_fields
  add_fields-closed filter [] props required c closed h = (Grows-refl c.schemas, closed, h)
  add_fields-closed filter (f ∷ fs) props required c closed h =
      Ensures-if B HasProps c (is_filtered filter f) _ _
        (add_fields-closed filter fs props required c closed h)
        (Ensures->>= B Resolves HasProps c (field registry call f c) _
          (field-closed B registry call f c good closed)
          (λ p c' g closed' hp.
            add_fields-closed filter fs (set_prop (json_name f) p props) _ c' closed' (
              set_prop-closed (Known c'.schemas) (json_name f) p props hp
                (PropsClosed-mono (Known-Grows g) props h))))

  add_one_of_fields-closed :
      (fs : List Field) (props : Props) (d : Text) (c : Container)
      → B c.schemas
      → PropsClosed (Known c.schemas) props
      → Ensures B HasProps c (add_one_of_fields registry call fs props d c)
  unfolding add_one_of_fields
  add_one_of_fields-closed [] props d c closed h = (Grows-refl c.schemas, closed, h)
  add_one_of_fields-closed (f ∷ fs) props d c closed h =
      Ensures->>= B Resolves HasProps c (field registry call f c) _
        (field-closed B registry call f c good closed)
        (λ p c' g closed' hp.
          add_one_of_fields-closed fs (set_prop (json_name f) p props) _ c' closed' (
            set_prop-closed (Known c'.schemas) (json_name f) p props hp
              (PropsClosed-mono (Known-Grows g) props h)))

  add_one_ofs-closed :
      (ofs : List OneOf) (props : Props) (d : Text) (c : Container)
      → B c.schemas
      → PropsClosed (Known c.schemas) props
      → Ensures B HasProps c (add_one_ofs registry call ofs props d c)
  unfolding add_one_ofs
  add_one_ofs-closed [] props d c closed h = (Grows-refl c.schemas, closed, h)
  add_one_ofs-closed (of ∷ ofs) props d c closed h =
      Ensures->>= B HasProps HasProps c (add_one_of_fields registry call of.fields props _ c) _
        (add_one_of_fields-closed of.fields props _ c closed h)
        (λ r c' g closed' h'. add_one_ofs-closed ofs r.0 r.1 c' closed' h')

  module _ (transform_name : Text → Text) where
    pub message_object-closed :
        (m : Message) (filter : List Text) (forced : Bool) (c : Container)
        → B c.schemas
        → Ensures B
            (λ s n. SchemaClosed (Known n) s)
            c
            (message_object registry transform_name call m filter forced c)
    unfolding message_object
    message_object-closed m filter forced c closed =
        Ensures->>= B HasProps HasSchema c
          (add_fields registry call filter m.non_one_of_fields no_props [] c) _
          (add_fields-closed filter m.non_one_of_fields no_props [] c closed
            (unfold ProxyClosed in tt))
          (λ (ps1, rq1) c1 g1 closed1 h1.
            Ensures->>= B HasProps HasSchema c1
              (add_fields registry call filter m.synthetic_one_of_fields ps1 rq1 c1) _
              (add_fields-closed filter m.synthetic_one_of_fields ps1 rq1 c1 closed1 h1)
              (λ (ps2, rq2) c2 g2 closed2 h2.
                Ensures->>= B HasProps HasSchema c2
                  (add_one_ofs registry call m.real_one_ofs ps2 (message_comments m) c2) _
                  (add_one_ofs-closed m.real_one_ofs ps2 (message_comments m) c2 closed2 h2)
                  (λ (ps3, d) c3 g3 closed3 h3.
                    (Grows-refl c3.schemas, closed3, unfold ProxyClosed in (h3, tt, tt, tt)))))

    message_under-IsClosed :
        (holds : (s : OrderedMap SchemaProxy) → B s → IsClosed s) (m : Message) (filter : List Text)
        (forced : Bool) (fqn : Text) (there : Option SchemaProxy) (c : Container)
        → value fqn c.schemas ≡ there
        → IsClosed c.schemas
        → (value fqn c.schemas ≡ none → B (set fqn (ref_to fqn) c.schemas))
        → Ensures IsClosed Resolves c
            (message_under registry transform_name call m filter forced fqn there c)
    unfolding message_under
    message_under-IsClosed holds m filter forced fqn (some p) c e closed start =
        (Grows-refl c.schemas, closed, ref-closed (Known c.schemas) fqn (p, e))
    message_under-IsClosed holds m filter forced fqn none c e closed start =
        let started : Container = record c { schemas = set fqn (ref_to fqn) c.schemas } in
        ended B holds fqn (ref_to fqn) c
          (message_object registry transform_name call m filter forced started) e
          (message_object-closed m filter forced started (start e))

    pub message_of-IsClosed :
        (holds : (s : OrderedMap SchemaProxy) → B s → IsClosed s) (o : Option Message)
        (filter : List Text) (read_only forced : Bool) (c : Container)
        → IsClosed c.schemas
        → ((m : Message)
            → o ≡ some m
            → value (message_key m filter) c.schemas ≡ none
            → B (set (message_key m filter) (ref_to (message_key m filter)) c.schemas))
        → Ensures IsClosed Resolves c
            (message_of registry transform_name call o filter read_only forced c)
    unfolding message_of
    message_of-IsClosed holds none filter read_only forced c closed start = tt
    message_of-IsClosed holds (some m) filter read_only forced c closed start =
        Ensures-if IsClosed Resolves c (is_well_known m) _ _
          (Ensures-pure IsClosed (SchemaClosed (Known c.schemas)) Resolves c
            (schema_for_wkt (well_known_type m)) _
            (wkt_closed (Known c.schemas) (well_known_type m))
            (λ s h. (
              Grows-refl c.schemas,
              closed,
              inline-closed (Known c.schemas) _ (update_info-closed (Known c.schemas) _ s h),
            )))
          (message_under-IsClosed holds m filter forced (message_key m filter)
            (value (message_key m filter) c.schemas) c refl closed (start m refl))

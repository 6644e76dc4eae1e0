-- ===== src/OpenApi/Schema/Build/Parts.antt =====
-- The parts of a message's schema: scalars, well-known types, elements and fields.
use protoc_gen_apigw.OpenApi.Schema.Ensures.{
  Ensures->>=, Ensures-if, Ensures-pure, Resolves, AllOk, Ensures, GoodCall,
}
use protoc_gen_apigw.Base.{none, some, Option, get_elem?, Bool, ℕ, List}
use protoc_gen_apigw.OpenApi.Schema.Closed.{Known, Grows-refl, SchemaClosed, ProxyClosed}
use protoc_gen_apigw.OpenApi.Schema.Fields.{
  embedded_message, field_extensions, field_of_type, field, field_type_elem,
}
use protoc_gen_apigw.Descriptor.{
  scalar_type, embed_type, enum_type, map_type, repeated_type, FieldType, enum_t, scalar_elem,
  enum_elem, message_t, unknown_wkt, any_wkt, embed_elem, group_t, double_t, other_wkt, Field,
  FieldTypeElem, ProtoType, WellKnownType, Message,
}
use protoc_gen_apigw.OpenApi.Schema.WellKnown.{well_known_type, is_well_known, schema_for_wkt}
use protoc_gen_apigw.OpenApi.Schema.Options.{get_read_only_spec}
use protoc_gen_apigw.OpenApi.Schema.Data.{
  no_proxies, no_dynamic, of_proxy, no_props, simple, inline, schema, update_info, Schema,
  SchemaInfo, SchemaProxy, nullable_ref,
}
use protoc_gen_apigw.OpenApi.Yaml.{Extensions}
use protoc_gen_apigw.Base.Outcome.{ok}
use protoc_gen_apigw.OpenApi.Schema.Container.{Container, MessageCall}
use protoc_gen_apigw.Base.Text.{Text}
use protoc_gen_apigw.Base.OrderedMap.{OrderedMap}
use protoc_gen_apigw.OpenApi.Schema.Scalar.{schema_for_scalar}

scalar_closed : (K : Text → Type 0) (t : ProtoType) → AllOk (SchemaClosed K) (schema_for_scalar t)
unfolding schema_for_scalar ProxyClosed
scalar_closed K double_t = (tt, tt, tt, tt)
scalar_closed K group_t = tt
scalar_closed K message_t = tt
scalar_closed K enum_t = tt
scalar_closed K _ = (tt, tt, tt, tt)

pub wkt_closed : (K : Text → Type 0) (w : WellKnownType) → AllOk (SchemaClosed K) (schema_for_wkt w)
unfolding schema_for_wkt ProxyClosed
wkt_closed K any_wkt = (((tt, tt, tt, tt), tt), tt, tt, tt)
wkt_closed K unknown_wkt = tt
wkt_closed K (other_wkt n) = tt
wkt_closed K _ = (tt, tt, tt, tt)

pub update_info-closed :
    (K : Text → Type 0) (f : SchemaInfo → SchemaInfo) (s : Schema)
    → SchemaClosed K s
    → SchemaClosed K (update_info f s)
unfolding ProxyClosed
update_info-closed K f (schema info props items additional one_of) h = h

simple-closed : (K : Text → Type 0) (info : SchemaInfo) → ProxyClosed K (inline (simple info))
unfolding ProxyClosed
simple-closed K info = (tt, tt, tt, tt)

items-closed :
    (K : Text → Type 0) (info : SchemaInfo) (p : SchemaProxy)
    → ProxyClosed K p
    → ProxyClosed K (inline (schema info no_props (of_proxy p) no_dynamic no_proxies))
unfolding ProxyClosed
items-closed K info p h = (tt, h, tt, tt)

additional-closed :
    (K : Text → Type 0) (info : SchemaInfo) (p : SchemaProxy)
    → ProxyClosed K p
    → ProxyClosed K (inline (schema info no_props no_dynamic (of_proxy p) no_proxies))
unfolding ProxyClosed
additional-closed K info p h = (tt, tt, h, tt)

pub inline-closed : (K : Text → Type 0) (s : Schema) → SchemaClosed K s → ProxyClosed K (inline s)
unfolding ProxyClosed
inline-closed K s h = h

nullable_ref-closed :
    (K : Text → Type 0) (p : SchemaProxy) → ProxyClosed K p → ProxyClosed K (nullable_ref p)
unfolding nullable_ref ProxyClosed
nullable_ref-closed K p h = (tt, tt, tt, (h, ((tt, tt, tt, tt), tt)))

-- For any property `B` of schemas that the calls of `Message` keep.
module _ (B : OrderedMap SchemaProxy → Type 0) where
  -- A call that adds no schema.
  pub Ensures-ok :
      (Q : SchemaProxy → OrderedMap SchemaProxy → Type 0) (c : Container) (p : SchemaProxy)
      → B c.schemas
      → Q p c.schemas
      → Ensures B Q c (ok (p, c))
  Ensures-ok Q c p closed q = (Grows-refl c.schemas, closed, q)

  field_type_elem-closed :
      (call : MessageCall) (e : FieldTypeElem) (r : Bool) (c : Container)
      → GoodCall B call
      → B c.schemas
      → Ensures B Resolves c (field_type_elem call e r c)
  unfolding field_type_elem
  field_type_elem-closed call (embed_elem m) r c good closed = good m r c closed
  field_type_elem-closed call (enum_elem e) r c good closed =
      Ensures-ok Resolves c _ closed (simple-closed (Known c.schemas) _)
  field_type_elem-closed call (scalar_elem t) r c good closed =
      Ensures-pure B (SchemaClosed (Known c.schemas)) Resolves c (schema_for_scalar t) _
        (scalar_closed (Known c.schemas) t)
        (λ s h. Ensures-ok Resolves c (inline s) closed (unfold ProxyClosed in h))

  embedded_message-IsClosed :
      (call : MessageCall) (o : Option Message) (m : ℕ) (r : Bool) (c : Container)
      → GoodCall B call
      → B c.schemas
      → Ensures B Resolves c (embedded_message call o m r c)
  unfolding embedded_message
  embedded_message-IsClosed call none m r c good closed = tt
  embedded_message-IsClosed call (some embed) m r c good closed =
      Ensures-if B Resolves c (is_well_known embed) _ _
        (Ensures-pure B (SchemaClosed (Known c.schemas)) Resolves c
          (schema_for_wkt (well_known_type embed)) _
          (wkt_closed (Known c.schemas) (well_known_type embed))
          (λ s h.
            Ensures-ok Resolves c _ closed
              (inline-closed (Known c.schemas) _ (update_info-closed (Known c.schemas) _ s h))))
        (Ensures->>= B Resolves Resolves c (call m r c) _ (good m r c closed) (λ p c' g closed' h.
          Ensures-ok Resolves c' _ closed' (nullable_ref-closed (Known c'.schemas) p h)))

  module _ (registry : List Message) where
    field_of_type-closed :
        (call : MessageCall) (f : Field) (t : FieldType) (x : Extensions) (c : Container)
        → GoodCall B call
        → B c.schemas
        → Ensures B Resolves c (field_of_type registry call f t x c)
    unfolding field_of_type
    field_of_type-closed call f (repeated_type e) x c good closed =
        Ensures->>= B Resolves Resolves c (field_type_elem call e (get_read_only_spec f) c) _
          (field_type_elem-closed call e (get_read_only_spec f) c good closed)
          (λ p c' g closed' h.
            Ensures-ok Resolves c' _ closed' (items-closed (Known c'.schemas) _ p h))
    field_of_type-closed call f (map_type k e) x c good closed =
        Ensures->>= B Resolves Resolves c (field_type_elem call e (get_read_only_spec f) c) _
          (field_type_elem-closed call e (get_read_only_spec f) c good closed)
          (λ p c' g closed' h.
            Ensures-ok Resolves c' _ closed' (additional-closed (Known c'.schemas) _ p h))
    field_of_type-closed call f (enum_type e) x c good closed =
        Ensures-ok Resolves c _ closed (simple-closed (Known c.schemas) _)
    field_of_type-closed call f (embed_type m) x c good closed =
        embedded_message-IsClosed call (get_elem? registry m) m (get_read_only_spec f) c good closed
    field_of_type-closed call f (scalar_type t) x c good closed =
        Ensures-pure B (SchemaClosed (Known c.schemas)) Resolves c (schema_for_scalar t) _
          (scalar_closed (Known c.schemas) t)
          (λ s h.
            Ensures-ok Resolves c _ closed
              (inline-closed (Known c.schemas) _ (update_info-closed (Known c.schemas) _ s h)))

    -- The schema of a field refers to schemas that are there.
    pub field-closed :
        (call : MessageCall) (f : Field) (c : Container)
        → GoodCall B call
        → B c.schemas
        → Ensures B Resolves c (field registry call f c)
    unfolding field
    field-closed call f c good closed =
        let (x, warnings) = field_extensions f c.warnings in
        field_of_type-closed call f f.type x (record c { warnings = warnings }) good closed

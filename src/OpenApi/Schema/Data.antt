-- ===== src/OpenApi/Schema/Data.antt =====
-- The schemas that the source builds, with the fields that it sets: `base.Schema` and
-- `base.SchemaProxy` of libopenapi are plain data here. A proxy is a `$ref` or an inline schema.
use protoc_gen_apigw.OpenApi.Yaml.{Extensions, Node}
use protoc_gen_apigw.Base.{
  true, ◌++◌, ◌||◌, false, none, not, some, ◌∷◌, Bool, List, Option, [], if◌then◌else◌,
}
use protoc_gen_apigw.Base.Text.{codes, text_eq, Text}

pub record SchemaInfo : Type 0 where
  pub type : List Text
  pub format : Text
  pub title : Text
  pub description : Text
  pub read_only : Option Bool
  pub deprecated : Option Bool
  pub required : List Text
  pub enum : List Node
  pub extensions : Extensions

mutual
  pub data Schema : Type 0 where
    schema : SchemaInfo → Props → Dynamic → Dynamic → Proxies → Schema

  pub data SchemaProxy : Type 0 where
    ref : Text → SchemaProxy
    inline : Schema → SchemaProxy

  -- The properties, in order.
  pub data Props : Type 0 where
    no_props : Props
    prop : Text → SchemaProxy → Props → Props

  -- `DynamicValue`: unset, a schema or a Boolean.
  pub data Dynamic : Type 0 where
    no_dynamic : Dynamic
    of_proxy : SchemaProxy → Dynamic
    of_bool : Bool → Dynamic

  -- The alternatives of `oneOf`.
  pub data Proxies : Type 0 where
    no_proxies : Proxies
    proxy : SchemaProxy → Proxies → Proxies

-- A schema with nothing set but its type.
abbrev pub typed : List Text → SchemaInfo
typed type = record {
  type = type;
  format = [];
  title = [];
  description = [];
  read_only = none;
  deprecated = none;
  required = [];
  enum = [];
  extensions = [];
}

abbrev pub simple : SchemaInfo → Schema
simple info = schema info no_props no_dynamic no_dynamic no_proxies

-- `obj.Properties.Set(k, p)`
unfoldable pub set_prop : Text → SchemaProxy → Props → Props
set_prop k p no_props = prop k p no_props
set_prop k p (prop j q ps) = if text_eq j k then prop j p ps else prop j q (set_prop k p ps)

-- An assignment to fields of a schema that hold no schemas.
abbrev pub update_info : (SchemaInfo → SchemaInfo) → Schema → Schema
update_info f (schema info props items additional one_of) =
    schema (f info) props items additional one_of

abbrev pub null_type : Text
null_type = codes "null"

unfoldable pub contains_text : Text → List Text → Bool
contains_text needle [] = false
contains_text needle (t ∷ ts) = text_eq needle t || contains_text needle ts

-- `if !slices.Contains(s.Type, "null") { s.Type = append(s.Type, "null") }`
unfoldable pub admit_null : SchemaInfo → SchemaInfo
unfolding contains_text
admit_null info =
    if not (contains_text null_type info.type)
    then record info { type = info.type ++ null_type ∷ [] }
    else info

unfoldable pub apply_nullable : Option Bool → SchemaInfo → SchemaInfo
unfolding admit_null
apply_nullable none info = info
apply_nullable (some nullable) info = if not nullable then info else admit_null info

unfoldable pub nullable_ref : SchemaProxy → SchemaProxy
nullable_ref p = inline (
    schema (typed []) no_props no_dynamic no_dynamic
      (proxy p (proxy (inline (simple (typed (null_type ∷ [])))) no_proxies)))

unfoldable pub oas_true : Option Bool
oas_true = some true

unfoldable pub oas_read_only : Bool → Option Bool
unfolding oas_true
oas_read_only read_only = if not read_only then none else oas_true

unfoldable pub oas_bool : Bool → Option Bool
oas_bool v = some v

-- ===== src/Imports.antt =====
-- internal/apigw/apigw_imports.go: the aliases of imported packages and the Go types of fields. The
-- accessors of pgsgo.Context are third-party functions, and the fields of `GoContext`.
pub mod Laws
mod Tests
use protoc_gen_apigw.Descriptor.{
  bytes_t, string_t, bool_t, fixed32_t, uint32_t, sint32_t, sfixed32_t, int32_t, fixed64_t,
  uint64_t, sint64_t, sfixed64_t, int64_t, scalar_type, enum_type, float_t, double_t, embed_type,
  repeated_type, scalar_elem, embed_elem, enum_elem, map_type, EnumType, FieldType, FieldTypeElem,
  Field, ProtoType,
}
use protoc_gen_apigw.Base.{
  all, is_empty, not, zero, [], none, ◌==◌, length, ◌&&◌, ◌∷◌, false, leb, some, suc, ◌++◌, Bool,
  Option, if◌then◌else◌, reverse, List, ℕ,
}
use protoc_gen_apigw.Base.OrderedMap.{value, set, OrderedMap}
use protoc_gen_apigw.Base.Outcome.{panic, exhausted, ok, ◌>>=◌, Outcome}
use protoc_gen_apigw.Base.Text.{codes, Text, text_eq}
use protoc_gen_apigw.Base.Sorting.{sort_by}

-- an entity of a descriptor
pub data Entity : Type 0 where
  of_field : Field → Entity
  of_message : ℕ → Entity
  of_enum : EnumType → Entity

pub record GoContext : Type 0 where
  pub name : Entity → Text
  pub import_path : Entity → Text
  pub package_name : Entity → Text
  pub has_presence : Field → Bool
  -- `FilePath.Dir().Base()`
  pub dir_base : Text → Text
  -- `TypeName.Pointer`
  pub pointer : Text → Text

-- `typeMapper`: the import path of each alias
abbrev pub TypeMapper : Type 0
TypeMapper = OrderedMap Text

pub record ImportAlias : Type 0 where
  pub import : Text
  pub alias : Text

abbrev aliases_of : TypeMapper → List ImportAlias
aliases_of [] = []
aliases_of ((k, v) ∷ m) = record { import = v; alias = k } ∷ aliases_of m

-- `ProtoImports`: the aliases in descending order, which `sort.Slice` makes of the map's entries
unfoldable pub proto_imports : TypeMapper → List ImportAlias
unfolding sort_by
proto_imports m = reverse (sort_by (λ i. i.alias) (aliases_of m))

abbrev is_digit : ℕ → Bool
is_digit c = leb b'0' c && leb c b'9'

-- the regular expression ^v(\d)+$
unfoldable pub is_version : Text → Bool
is_version [] = false
is_version (v ∷ digits) = v == b'v' && not (is_empty digits) && all is_digit digits

-- the loop of `importablePackageName` on what the map holds under a name: the name, and the map
unfoldable pub alias_under : Text → Text → Option Text → TypeMapper → Option (Text × TypeMapper)
alias_under pkg import none m = some (pkg, set pkg import m)
alias_under pkg import (some to) m = if text_eq to import then some (pkg, m) else none

-- the loop ends with a result, or goes on
unfoldable pub or_next :
    Option (Text × TypeMapper) → Outcome (Text × TypeMapper) → Outcome (Text × TypeMapper)
or_next (some r) next = ok r
or_next none next = next

-- The loop of `importablePackageName`; the fuel bounds its rounds.
unfoldable pub find_alias : ℕ → Text → Text → TypeMapper → Outcome (Text × TypeMapper)
unfolding alias_under or_next
find_alias zero pkg import m = exhausted
find_alias (suc fuel) pkg import m =
    let next = find_alias fuel (pkg ++ codes "x") import m in
    or_next (alias_under pkg import (value pkg m) m) next

-- `scalarType`
unfoldable pub scalar_go_type : ProtoType → Outcome Text
scalar_go_type double_t = ok (codes "float64")
scalar_go_type float_t = ok (codes "float32")
scalar_go_type int64_t = ok (codes "int64")
scalar_go_type sfixed64_t = ok (codes "int64")
scalar_go_type sint64_t = ok (codes "int64")
scalar_go_type uint64_t = ok (codes "uint64")
scalar_go_type fixed64_t = ok (codes "uint64")
scalar_go_type int32_t = ok (codes "int32")
scalar_go_type sfixed32_t = ok (codes "int32")
scalar_go_type sint32_t = ok (codes "int32")
scalar_go_type uint32_t = ok (codes "uint32")
scalar_go_type fixed32_t = ok (codes "uint32")
scalar_go_type bool_t = ok (codes "bool")
scalar_go_type string_t = ok (codes "string")
scalar_go_type bytes_t = ok (codes "[]byte")
scalar_go_type _ = panic (codes "unreachable: invalid scalar type")

module _ (ctx : GoContext) where
  -- the name that the loop of `importablePackageName` starts from
  unfoldable pub first_alias : Entity → Text
  unfolding is_version
  first_alias e =
      let pkg = ctx.package_name e in
      if is_version pkg then ctx.dir_base (ctx.import_path e) ++ (b'_' ∷ pkg) else pkg

  -- `importablePackageName`, with as many rounds as the map has entries, and one more
  unfoldable pub importable_package_name :
      Entity → Entity → TypeMapper → Outcome (Text × TypeMapper)
  unfolding text_eq first_alias find_alias
  importable_package_name f containing m =
      let other =
        find_alias (suc (length m)) (first_alias containing) (ctx.import_path containing) m in
      if text_eq (ctx.import_path containing) (ctx.import_path f) then ok ([], m) else other

  -- `importableTypeName`
  unfoldable pub importable_type_name : Entity → Entity → TypeMapper → Outcome (Text × TypeMapper)
  unfolding importable_package_name text_eq
  importable_type_name f containing m =
      let t = ctx.name containing in
      let other =
        importable_package_name f containing m >>= λ (pkg, m'). ok (pkg ++ (b'.' ∷ t), m') in
      if text_eq (ctx.import_path containing) (ctx.import_path f) then ok (t, m) else other

  -- `elType`
  unfoldable pub el_type : Field → FieldTypeElem → TypeMapper → Outcome (Text × TypeMapper)
  unfolding importable_type_name scalar_go_type
  el_type f (enum_elem e) m = importable_type_name (of_field f) (of_enum e) m
  el_type f (embed_elem id) m = do
    (t, m') ← importable_type_name (of_field f) (of_message id) m
    ok (ctx.pointer t, m')
  el_type f (scalar_elem t) m = do t' ← scalar_go_type t; ok (t', m)

  -- the end of `Type`
  unfoldable pub with_presence : Field → Text → Text
  with_presence f t = if ctx.has_presence f then ctx.pointer t else t

  unfoldable pub type_of : Field → FieldType → TypeMapper → Outcome (Text × TypeMapper)
  unfolding el_type with_presence
  type_of f (map_type key elem) m = do
    k ← scalar_go_type key
    (el, m') ← el_type f elem m
    ok (codes "map[" ++ (k ++ (b']' ∷ el)), m')
  type_of f (repeated_type elem) m = do (el, m') ← el_type f elem m; ok (codes "[]" ++ el, m')
  type_of f (embed_type id) m = do
    (t, m') ← importable_type_name (of_field f) (of_message id) m
    ok (ctx.pointer t, m')
  type_of f (enum_type e) m = do
    (t, m') ← importable_type_name (of_field f) (of_enum e) m
    ok (with_presence f t, m')
  type_of f (scalar_type t) m = do t' ← scalar_go_type t; ok (with_presence f t', m)

  -- `Type`
  unfoldable pub go_type : Field → TypeMapper → Outcome (Text × TypeMapper)
  unfolding type_of
  go_type f m = type_of f f.type m

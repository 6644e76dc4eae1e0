-- ===== src/Imports/Tests.antt =====
-- Two packages of the same name.
use protoc_gen_apigw.Base.Text.Laws.{text_eq_iff}
use protoc_gen_apigw.Base.Outcome.{ok}
use protoc_gen_apigw.Base.OrderedMap.{set, value}
use protoc_gen_apigw.Base.{refl, [], zero, false, suc, ◌∷◌, ◌≡◌}
use protoc_gen_apigw.Imports.{
  or_next, alias_under, is_version, find_alias, of_enum, first_alias, of_message, Entity, GoContext,
  TypeMapper, importable_package_name, proto_imports,
}
use protoc_gen_apigw.Imports.Laws.{importable_package_name-Aliased, proto_imports-Perm_eq, Aliased}
use protoc_gen_apigw.Base.Text.{codes, text_eq, Text}
use mathlib.Core.List.Perm

abbrev name_of : Entity → Text
name_of e = codes "Book"

abbrev path_of : Entity → Text
path_of (of_message zero) = codes "example.com/shelf/v1"
path_of (of_message (suc id)) = codes "example.com/other/shelf/v1"
path_of e = codes "example.com/library/v1"

abbrev last_folder : Text → Text
last_folder path = codes "shelf"

abbrev go_context : GoContext
go_context = record {
  name = name_of;
  import_path = path_of;
  package_name = λ e. codes "v1";
  has_presence = λ f. false;
  dir_base = last_folder;
  pointer = λ t. b'*' ∷ t;
}

-- The aliases after the first package was imported.
abbrev one_import : TypeMapper
one_import = (codes "shelf_v1", codes "example.com/shelf/v1") ∷ []

importable_package_name-Aliased_example :
    Aliased (first_alias go_context (of_message 1)) (path_of (of_message 1)) one_import (
      importable_package_name go_context
        (of_enum (record { values = [] }))
        (of_message 1)
        one_import)
importable_package_name-Aliased_example =
    importable_package_name-Aliased go_context (of_enum (record { values = [] })) (of_message 1)
      one_import (unfold text_eq in refl)

-- The second package gets another alias.
second_alias :
    importable_package_name go_context (of_enum (record { values = [] })) (of_message 1) one_import
    ≡ ok (
      codes "shelf_v1x",
      (codes "shelf_v1", codes "example.com/shelf/v1")
          ∷ (codes "shelf_v1x", codes "example.com/other/shelf/v1")
          ∷ [],
    )
unfolding importable_package_name text_eq find_alias first_alias is_version alias_under or_next
    value set
second_alias = refl

abbrev two_imports : TypeMapper
two_imports = (codes "a", codes "x/a") ∷ (codes "b", codes "x/b") ∷ []

apart : ¬ (codes "b" ≡ codes "a")
unfolding text_eq
apart e = let same = (text_eq_iff (codes "b") (codes "a")).1 e in cc

proto_imports-Perm_eq_example :
    proto_imports two_imports
    ≡ proto_imports ((codes "b", codes "x/b") ∷ (codes "a", codes "x/a") ∷ [])
proto_imports-Perm_eq_example =
    proto_imports-Perm_eq two_imports ((codes "b", codes "x/b") ∷ (codes "a", codes "x/a") ∷ [])
      (Perm.swap (codes "b", codes "x/b") (codes "a", codes "x/a") []) ((apart, tt), (tt, tt))

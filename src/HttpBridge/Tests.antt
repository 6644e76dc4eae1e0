-- ===== src/HttpBridge/Tests.antt =====
-- The metadata of a request that tries to set a reserved key, and that has a content type.
use protoc_gen_apigw.HttpBridge.Reference.{set_lower-IsMetadataSet, set_lower}
use protoc_gen_apigw.Base.{refl, some, none, [], ◌∷◌, ◌≡◌}
use protoc_gen_apigw.HttpBridge.Laws.{metadata_for_request-value, last_values, reserved, or_else}
use protoc_gen_apigw.HttpBridge.{set_each, Request, metadata_for_request}
use protoc_gen_apigw.Base.Text.{text_eq, to_lower, codes}
use protoc_gen_apigw.Base.OrderedMap.{set, value}

abbrev posted : Request Unit
posted = record {
  method = codes "GET";
  url_path = codes "/shelves";
  host = codes "example.com";
  remote_addr = codes "10.0.0.1:9";
  header =
      (codes ":path", codes "/admin" ∷ [])
      ∷ (codes "Content-Type", codes "application/json" ∷ [])
      ∷ [];
  tls = none;
}

metadata_for_request-value_example :
    value (codes "content-type") (metadata_for_request set_lower posted (codes "/bookstore/List"))
    ≡ or_else
        (value (codes "content-type") (reserved posted (codes "/bookstore/List")))
        (last_values (codes "content-type") posted.header)
metadata_for_request-value_example =
    metadata_for_request-value set_lower set_lower-IsMetadataSet posted (codes "/bookstore/List")
      (codes "content-type")

-- The client's content type is kept.
content_type_kept :
    value (codes "content-type") (metadata_for_request set_lower posted (codes "/bookstore/List"))
    ≡ some (codes "application/json" ∷ [])
unfolding metadata_for_request set_lower to_lower value set text_eq set_each
content_type_kept = refl

path_reserved :
    value (codes ":path") (metadata_for_request set_lower posted (codes "/bookstore/List"))
    ≡ some (codes "/bookstore/List" ∷ [])
unfolding metadata_for_request set_lower to_lower value set text_eq set_each
path_reserved = refl

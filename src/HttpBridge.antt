-- ===== src/HttpBridge.antt =====
-- apigw/v1/http_bridge.go: what a gRPC handler is told of an HTTP request. The maps http.Header and
-- metadata.MD are lists of their entries in the order in which a loop meets them; `MD.Set` is a
-- function of grpc's package metadata, and a parameter.
pub mod Laws
pub mod Reference
mod Tests
use protoc_gen_apigw.Base.{[], ◌∷◌, false, Bool, List, Option, ℕ}
use protoc_gen_apigw.Base.Text.{codes, Text}
use protoc_gen_apigw.Base.OrderedMap.{OrderedMap}

abbrev pub Md : Type 0
Md = OrderedMap (List Text)

-- What the functions read of a request; a missing TLS state is none.
pub record Request (Tls : Type 0) : Type 0 where
  pub method : Text
  pub url_path : Text
  pub host : Text
  pub remote_addr : Text
  pub header : OrderedMap (List Text)
  pub tls : Option Tls

-- `peer.Peer`, with the security level of its authentication
pub record Peer (Tls : Type 0) : Type 0 where
  pub addr : Text
  pub auth_info : Option Tls

-- `PeerForRequest`
unfoldable pub peer_for_request : {Tls : Type 0} → Request Tls → Peer Tls
peer_for_request req = record { addr = req.remote_addr; auth_info = req.tls }

-- `TimeoutForRequest`: the duration, and whether there is one
unfoldable pub timeout_for_request : {Tls : Type 0} → Request Tls → ℕ × Bool
timeout_for_request req = (0, false)

module _ (md_set : Text → List Text → Md → Md) where
  -- `for k, v := range m { rv.Set(k, v...) }`
  unfoldable pub set_each : OrderedMap (List Text) → Md → Md
  set_each [] md = md
  set_each ((k, vs) ∷ m) md = set_each m (md_set k vs md)

  -- `MetadataForRequest`; the first key ends in a space, as it does in the source
  unfoldable pub metadata_for_request : {Tls : Type 0} → Request Tls → Text → Md
  unfolding set_each
  metadata_for_request req method_full_name =
      md_set (codes ":apigw-original-method") (req.method ∷ []) (
        md_set (codes ":apigw-original-path") (req.url_path ∷ []) (
          md_set (codes ":scheme") (codes "https" ∷ []) (
            md_set (codes ":authority") (req.host ∷ []) (
              md_set (codes ":path") (method_full_name ∷ []) (
                md_set (codes ":method") (codes "POST" ∷ []) (
                  md_set (codes "content-type ") (codes "application/grpc+proto" ∷ [])
                    (set_each req.header [])))))))

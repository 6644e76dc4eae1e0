-- ===== src/Grpc.antt =====
-- apigw/v1/grpc_internals.go: status codes and the chaining of interceptors. A handler is a
-- function from requests; the context and the server information are part of the request.
pub mod Laws
mod Tests
use protoc_gen_apigw.Base.{
  zero, [], some, ◌==◌, is_empty, ◌+◌, none, not, suc, get_elem?, if◌then◌else◌, length, List, ℕ,
}
use protoc_gen_apigw.Base.Text.{codes, Text}
use protoc_gen_apigw.Base.Outcome.{panic, exhausted, Outcome}

-- `codes.Code`
pub data Code : Type 0 where
  ok_code canceled unknown invalid_argument deadline_exceeded not_found already_exists : Code
  permission_denied unauthenticated resource_exhausted failed_precondition aborted : Code
  out_of_range unimplemented internal unavailable data_loss : Code
  other_code : ℕ → Code

-- `HTTPStatusFromCode`, with the values of package net/http.
unfoldable pub http_status_from_code : Code → ℕ
http_status_from_code ok_code = 200
http_status_from_code canceled = 499
http_status_from_code unknown = 500
http_status_from_code invalid_argument = 400
http_status_from_code deadline_exceeded = 504
http_status_from_code not_found = 404
http_status_from_code already_exists = 409
http_status_from_code permission_denied = 403
http_status_from_code unauthenticated = 401
http_status_from_code resource_exhausted = 429
http_status_from_code failed_precondition = 400
http_status_from_code aborted = 409
http_status_from_code out_of_range = 400
http_status_from_code unimplemented = 501
http_status_from_code internal = 500
http_status_from_code unavailable = 503
http_status_from_code data_loss = 500
http_status_from_code (other_code n) = 500

-- `strAddr.Network`
unfoldable pub network : Text → Text
network a = if not (is_empty a) then codes "tcp" else []

module _ (Req Res : Type 0) where
  abbrev pub UnaryHandler : Type 0
  UnaryHandler = Req → Outcome Res

  abbrev pub UnaryServerInterceptor : Type 0
  UnaryServerInterceptor = Req → UnaryHandler → Outcome Res

module _ {Req Res : Type 0} where
  -- `interceptors[i](req, handler)`, which panics out of range
  call_at : List (UnaryServerInterceptor Req Res) → ℕ → Req → UnaryHandler Req Res → Outcome Res
  call_at interceptors i req handler = elim (get_elem? interceptors i) [
    | none ↦ panic (codes "index out of range")
    | some interceptor ↦ interceptor req handler
  ]

  -- `getChainUnaryHandler`; the fuel bounds the rounds left.
  unfoldable pub get_chain_unary_handler :
      ℕ → List (UnaryServerInterceptor Req Res) → ℕ → UnaryHandler Req Res → UnaryHandler Req Res
  unfolding call_at
  get_chain_unary_handler zero interceptors curr final req = exhausted
  get_chain_unary_handler (suc fuel) interceptors curr final req =
      let next =
        call_at interceptors (curr + 1) req
          (get_chain_unary_handler fuel interceptors (curr + 1) final) in
      if curr + 1 == length interceptors then final req else next

  -- `ChainUnaryInterceptors`, with as much fuel as there are interceptors.
  unfoldable pub chain_unary_interceptors :
      List (UnaryServerInterceptor Req Res) → Req → UnaryHandler Req Res → Outcome Res
  unfolding call_at
  chain_unary_interceptors interceptors req handler =
      call_at interceptors 0 req
        (get_chain_unary_handler (length interceptors) interceptors 0 handler)

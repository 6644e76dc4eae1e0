-- ===== src/Gin/Handler.antt =====
-- routers/ginapi/ginapi_handler.go: `Handler`, with `newDecoderInput` of
-- routers/ginapi/ginapi_decoder.go. What the handler calls of gin, grpc and protojson, and the
-- method's own handler, are the fields of `Backend`.
pub mod Laws
mod Tests
pub mod Headers
pub mod Responses
use protoc_gen_apigw.Gin.Stream.{
  write_data, set_header_to, call, StreamCall, Stream, Call, new_gin_transport_stream, run_calls,
  write_header, write_trailer,
}
use protoc_gen_apigw.Base.{
  length, ◌++◌, false, is_empty, leb, if◌then◌else◌, inr, some, ◌==◌, [], inl, none, ◌+◌, Bool,
  Option, ◌*◌, ◌⊎◌, List, ℕ,
}
use protoc_gen_apigw.Base.Text.{codes, Text}
use protoc_gen_apigw.Grpc.{invalid_argument, Code}
use protoc_gen_apigw.HttpBridge.{
  timeout_for_request, Peer, peer_for_request, Md, Request, metadata_for_request,
}
use protoc_gen_apigw.Gin.Error.{Status, error_response, max_bytes_error, status_error, GoError}
use protoc_gen_apigw.Base.OrderedMap.{OrderedMap, value}

-- A request as `Handler` reads it: the body's bytes and the error that reading them ends with, if
-- any, what `url.ParseQuery` returns for the raw query, and the path parameters that gin found.
pub record GinRequest (Tls : Type 0) : Type 0 where
  pub request : Request Tls
  pub body : Text
  pub body_error : Option GoError
  pub query : GoError ⊎ OrderedMap (List Text)
  pub params : OrderedMap Text

-- `decoderInput`, with the body that is left to read
pub record DecoderInput : Type 0 where
  pub body : Text
  pub query : OrderedMap (List Text)
  pub params : OrderedMap Text

-- `PathParam`; gin returns the empty text for a parameter that is missing
unfoldable pub path_param : DecoderInput → Text → Text
path_param d name = elim (value name d.params) [ none ↦ [] | some v ↦ v ]

-- What `Handler` puts into the context of a call.
pub record CallContext (Tls : Type 0) : Type 0 where
  pub metadata : Md
  pub peer : Peer Tls
  pub method : Text
  pub timeout : Option ℕ

pub record Backend (Tls Res : Type 0) : Type 0 where
  pub md_set : Text → List Text → Md → Md
  pub from_error : GoError → Option Status
  pub error_text : GoError → Text
  pub marshal_status : Status → GoError ⊎ Text
  pub marshal : Res → GoError ⊎ Text
  pub write_error : Text → Option GoError
  pub method_handler : CallContext Tls → DecoderInput → List StreamCall × (GoError ⊎ Res)

abbrev pub max_request_body : ℕ
max_request_body = 4 * 1024 * 1024

-- `io.ReadAll` of a `http.MaxBytesReader`; the error of a body that is too large is allocated at
-- the address that is given.
unfoldable pub read_all : ℕ → ℕ → Text → Option GoError → GoError ⊎ Text
read_all address limit body body_error =
    let rest : GoError ⊎ Text = elim body_error [ none ↦ inr body | some e ↦ inl e ] in
    if leb (length body) limit then rest else inl (max_bytes_error address)

-- `errors.Is` for a target that is a pointer to an `http.MaxBytesError`: pointers are compared
unfoldable pub errors_is : GoError → ℕ → Bool
errors_is (max_bytes_error a) target = a == target
errors_is e target = false

-- `newDecoderInput`
unfoldable pub new_decoder_input :
    GoError ⊎ OrderedMap (List Text) → Text → OrderedMap Text → GoError ⊎ DecoderInput
new_decoder_input (inl e) body params = inl e
new_decoder_input (inr query) body params =
    inr (record { body = body; query = query; params = params })

module _ {Tls Res : Type 0} (b : Backend Tls Res) where
  abbrev pub respond_error : List Call → GoError → List Call
  respond_error = error_response b.from_error b.marshal_status

  abbrev pub error_of : Code → Text → GoError
  error_of code message = status_error (record { code = code; message = message; details = [] })

  -- the context of the call
  unfoldable pub call_context : Request Tls → Text → CallContext Tls
  unfolding metadata_for_request peer_for_request timeout_for_request
  call_context req name =
      let (timeout, bounded) = timeout_for_request req in
      record {
        metadata = metadata_for_request b.md_set req name;
        peer = peer_for_request req;
        method = name;
        timeout = if bounded then some timeout else none;
      }

  -- after the data was written
  unfoldable pub after_write : Option GoError → Stream → List Call
  unfolding write_trailer
  after_write (some e) g = respond_error g.calls e
  after_write none g =
      let trailed = write_trailer g in if is_empty g.trailers then g.calls else trailed.calls

  -- the part of `Handler` after the response was marshalled
  unfoldable pub respond : GoError ⊎ Text → Stream → List Call
  unfolding after_write write_header
  respond (inl e) g = respond_error g.calls e
  respond (inr data_bytes) g =
      let typed = call (set_header_to (codes "Content-Type") (codes "application/json")) g in
      after_write (b.write_error data_bytes) (call (write_data data_bytes) (write_header typed))

  -- the part after the method's handler has returned
  unfoldable pub returned : GoError ⊎ Res → Stream → List Call
  unfolding respond
  returned (inl e) g = respond_error g.calls e
  returned (inr res) g = respond (b.marshal res) g

  -- the part that calls the method's handler
  unfoldable pub with_input : CallContext Tls → GoError ⊎ DecoderInput → Stream → List Call
  unfolding returned run_calls
  with_input ctx (inl e) g =
      respond_error g.calls
        (error_of invalid_argument (codes "failed to parse query: " ++ b.error_text e))
  with_input ctx (inr input) g =
      let (calls, result) = b.method_handler ctx input in
      returned result (run_calls b.md_set calls g)

  -- the part after the body was read; the target of `errors.Is` is allocated at an address
  unfoldable pub with_body :
      CallContext Tls → ℕ → GinRequest Tls → GoError ⊎ Text → Stream → List Call
  unfolding errors_is new_decoder_input with_input
  with_body ctx target req (inl e) g =
      let too_large = error_of invalid_argument (codes "request body too large") in
      if errors_is e target then respond_error g.calls too_large else respond_error g.calls e
  with_body ctx target req (inr body) g =
      with_input ctx (new_decoder_input req.query body req.params) g

  -- The function that `Handler` returns for a method with this name: the calls on the writer, of
  -- those that were made before. Addresses from the given one on are free.
  unfoldable pub handler : Text → ℕ → GinRequest Tls → List Call → List Call
  unfolding call_context with_body read_all new_gin_transport_stream
  handler name free req calls =
      with_body (call_context req.request name) (free + 1) req
        (read_all free max_request_body req.body req.body_error) (new_gin_transport_stream calls)

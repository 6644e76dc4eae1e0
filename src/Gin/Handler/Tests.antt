-- ===== src/Gin/Handler/Tests.antt =====
-- A handler that sends headers, and requests to it.
use protoc_gen_apigw.Base.OrderedMap.{set, value}
use protoc_gen_apigw.Gin.Error.{
  error_response, other_error, max_bytes_error, status_error, Status, GoError,
}
use protoc_gen_apigw.Gin.Handler.Headers.{returned-sending, added}
use protoc_gen_apigw.Gin.Handler.Responses.{handler-expected_status, expected_status, ReadsStatus}
use protoc_gen_apigw.Gin.Stream.{
  add_entries, sending_header, setting_trailer, new_gin_transport_stream, Stream, run_calls,
}
use protoc_gen_apigw.HttpBridge.Reference.{set_lower-IsMetadataSet, set_lower}
use protoc_gen_apigw.Base.{
  ◌++◌, ap, refl, some, zero, inr, none, suc, ◌∷◌, ◌≡◌, Option, [], length, ℕ,
}
use protoc_gen_apigw.Gin.Stream.Laws.{run_calls-trailers, sent_status}
use protoc_gen_apigw.Gin.Handler.{returned, handler, Backend, GinRequest}
use protoc_gen_apigw.Gin.Handler.Laws.{handler-WritesOnce, WritesOnce}
use protoc_gen_apigw.Base.Text.{Text, codes}
use protoc_gen_apigw.HttpBridge.{Md, Request}

abbrev status_of : GoError → Option Status
status_of (status_error s) = some s
status_of (max_bytes_error a) = none
status_of (other_error t) = none

abbrev echo : Backend (Unit {0}) Text
echo = record {
  md_set = set_lower;
  from_error = status_of;
  error_text = λ e. codes "error";
  marshal_status = λ s. inr s.message;
  marshal = λ res. inr res;
  write_error = λ d. none;
  method_handler = λ ctx input. (
    sending_header ((codes "X-Shelf", codes "7" ∷ []) ∷ [])
        ∷ setting_trailer ((codes "Sum", codes "1" ∷ []) ∷ [])
        ∷ [],
    inr input.body,
  );
}

abbrev plain_request : Request (Unit {0})
plain_request = record {
  method = codes "POST";
  url_path = codes "/shelf";
  host = codes "example.com";
  remote_addr = codes "10.0.0.1:9";
  header = [];
  tls = none;
}

abbrev small : GinRequest (Unit {0})
small = record {
  request = plain_request;
  body = codes "{}";
  body_error = none;
  query = inr [];
  params = [];
}

-- a body of this many bytes
bytes : ℕ → Text
bytes zero = []
bytes (suc n) = b' ' ∷ bytes n

length-bytes : (n : ℕ) → length (bytes n) ≡ n
unfolding bytes
length-bytes zero = refl
length-bytes (suc n) = ap suc (length-bytes n)

handler-WritesOnce_example : WritesOnce echo [] (handler echo (codes "Create") 0 small [])
handler-WritesOnce_example = handler-WritesOnce echo (codes "Create") 0 small []

reads : ReadsStatus status_of
reads = record { of_status = λ s. refl; of_max_bytes = λ a. refl }

handler-expected_status_example :
    sent_status 200 (handler echo (codes "Create") 0 small [])
    ≡ expected_status echo (codes "Create") small []
handler-expected_status_example =
    handler-expected_status echo reads [] refl (codes "Create") 0 small (λ e h. cc)

run_calls-trailers_example :
    value
      (codes "Trailer:Sum")
      (run_calls set_lower
        (setting_trailer ((codes "Sum", codes "1" ∷ []) ∷ []) ∷ [])
        (new_gin_transport_stream [])).trailers
    ≡ none
run_calls-trailers_example =
    run_calls-trailers set_lower set_lower-IsMetadataSet (codes "Sum")
      (setting_trailer ((codes "Sum", codes "1" ∷ []) ∷ []) ∷ []) []

abbrev shelf_header : Md
shelf_header = (codes "X-Shelf", codes "7" ∷ []) ∷ []

-- the stream after the headers were sent
abbrev sent : Stream
sent = run_calls set_lower (sending_header shelf_header ∷ []) (new_gin_transport_stream [])

returned-sending_example :
    added (returned echo (inr (codes "{}")) sent)
    ≡ (([] ++ added (add_entries sent.headers)) ++ added (add_entries sent.headers))
      ++ added (add_entries sent.trailers)
unfolding run_calls new_gin_transport_stream
returned-sending_example =
    returned-sending echo [] shelf_header (codes "{}") (codes "{}") (new_gin_transport_stream [])
      refl refl

-- A handler whose response cannot be written: the client sees the status 200.
abbrev closed : Backend (Unit {0}) Text
closed = record echo { write_error = λ d. some (other_error (codes "closed")) }

failed_write_status : sent_status 200 (handler closed (codes "Create") 0 small []) ≡ 200
unfolding handler error_response set_lower set
failed_write_status = refl

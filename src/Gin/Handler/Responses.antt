-- ===== src/Gin/Handler/Responses.antt =====
-- The HTTP status that the handler of a method responds with.
use protoc_gen_apigw.Gin.Handler.{
  read_all, handler, error_of, call_context, respond_error, max_request_body, after_write,
  errors_is, respond, returned, with_body, with_input, new_decoder_input, DecoderInput, GinRequest,
  CallContext, Backend,
}
use protoc_gen_apigw.Gin.Stream.{
  new_gin_transport_stream, write_status, run_calls, set_header_to, add_entries, write_data, Call,
  Stream, write_header, write_trailer,
}
use protoc_gen_apigw.Base.{
  append_assoc, ◌≢◌, ◌∷◌, [], ap, ◌∙◌, arith, is_empty, ◌++◌, Bool-cases, false, List, length, ◌+◌,
  leb, refl, if◌then◌else◌, inr, none, inl, some, ◌≡◌, ℕ, ◌⊎◌, Option,
}
use protoc_gen_apigw.Gin.Stream.Laws.{
  sent_status-settled, sent_status-append, sent_status, writes-append, writes-add_entries,
  writes-run_calls, writes,
}
use protoc_gen_apigw.Gin.Error.{
  request_id_note, header_get, error_response, max_bytes_error, status_error, Status, GoError,
  error_calls, error_status,
}
use protoc_gen_apigw.Grpc.{invalid_argument, http_status_from_code}
use protoc_gen_apigw.Base.Text.{codes, Text}

-- What grpc documents of `status.FromError`: a status error gives its status, and an error that is
-- none gives no status.
pub record ReadsStatus (from_error : GoError → Option Status) : Type 0 where
  pub of_status : (s : Status) → from_error (status_error s) ≡ some s
  pub of_max_bytes : (a : ℕ) → from_error (max_bytes_error a) ≡ none

-- The HTTP status of a status, if there is one.
abbrev http_of : Option Status → ℕ
http_of none = 500
http_of (some s) = http_status_from_code s.code

-- The status of a response to an error, by its HTTP status and its marshalled status.
abbrev answered_http : ℕ → GoError ⊎ Text → ℕ
answered_http n (inl e) = 500
answered_http n (inr d) = n

sent_status-error_calls :
    (request_id : Text) (n before : ℕ) (m : GoError ⊎ Text)
    → sent_status before (error_calls request_id n m) ≡ answered_http n m
unfolding error_calls
sent_status-error_calls request_id n before (inl e) = refl
sent_status-error_calls request_id n before (inr d) = refl

error_status-http : (o : Option Status) → (error_status o).1 ≡ http_of o
unfolding error_status
error_status-http none = refl
error_status-http (some s) = refl

module _ {Tls Res : Type 0} (b : Backend Tls Res) where
  -- the status that is marshalled for an error after these calls
  abbrev noted_status : List Call → GoError → Status
  noted_status calls e =
      let s = (error_status (b.from_error e)).0 in
      record s { message = s.message ++ request_id_note (header_get (codes "c1-trace-id") calls) }

  -- An error is answered with the HTTP status of its code, and with 500 where its status cannot be
  -- marshalled.
  abbrev error_http : List Call → GoError → ℕ
  error_http calls e =
      answered_http (http_of (b.from_error e)) (b.marshal_status (noted_status calls e))

  abbrev marshalled_http : List Call → GoError ⊎ Text → ℕ
  marshalled_http calls (inl e) = error_http calls e
  marshalled_http calls (inr d) = 200

  abbrev result_http : List Call → GoError ⊎ Res → ℕ
  result_http calls (inl e) = error_http calls e
  result_http calls (inr res) = marshalled_http calls (b.marshal res)

  abbrev bad_query : GoError → GoError
  bad_query e = error_of b invalid_argument (codes "failed to parse query: " ++ b.error_text e)

  abbrev input_http : CallContext Tls → List Call → GoError ⊎ DecoderInput → ℕ
  input_http ctx before (inl e) =
      answered_http 400 (b.marshal_status (noted_status before (bad_query e)))
  input_http ctx before (inr input) =
      let (calls, result) = b.method_handler ctx input in
      result_http (run_calls b.md_set calls (new_gin_transport_stream before)).calls result

  abbrev read_http : CallContext Tls → List Call → GinRequest Tls → Option GoError → ℕ
  read_http ctx before req (some e) = error_http before e
  read_http ctx before req none =
      input_http ctx before (new_decoder_input req.query req.body req.params)

  -- The status of the response to a request: 500 for a body above the limit; otherwise the status of
  -- the error that reading the body ends with, 400 for a bad query, the status of the error that
  -- the method's handler or marshalling ends with, and 200 if none of these fails. Where the status
  -- of an error cannot be marshalled, it is 500.
  abbrev pub expected_status : Text → GinRequest Tls → List Call → ℕ
  expected_status name req before =
      if leb (length req.body) max_request_body
      then read_http (call_context b req.request name) before req req.body_error
      else 500

  sent_status-respond_error :
      (calls : List Call) (e : GoError)
      → writes calls ≡ []
      → sent_status 200 (respond_error b calls e) ≡ error_http calls e
  unfolding error_response
  sent_status-respond_error calls e h =
      let request_id = header_get (codes "c1-trace-id") calls in
      let m = b.marshal_status (noted_status calls e) in
      let n = (error_status (b.from_error e)).1 in
      sent_status-append calls (error_calls request_id n m) 200 h
      ∙ sent_status-error_calls request_id n (sent_status 200 calls) m
      ∙ ap (λ k. answered_http k m) (error_status-http (b.from_error e))

  -- what follows the body changes no status
  sent_status-after_write :
      (failed : Option GoError) (g : Stream)
      → writes g.calls ≢ []
      → sent_status 200 (after_write b failed g) ≡ sent_status 200 g.calls
  unfolding after_write write_trailer error_response
  sent_status-after_write (some e) g h = sent_status-settled g.calls _ 200 h
  sent_status-after_write none g h = elim (Bool-cases (is_empty g.trailers)) [
    | inl bare ↦ rw bare refl
    | inr full ↦ rw full (sent_status-settled g.calls (add_entries g.trailers) 200 h)
  ]

  -- the calls before the body of a response
  abbrev headed : Text → Text → Stream → List Call
  headed k v g = (g.calls ++ set_header_to k v ∷ []) ++ add_entries g.headers

  writes-headed : (k v : Text) (g : Stream) → writes g.calls ≡ [] → writes (headed k v g) ≡ []
  writes-headed k v g h =
      writes-append (g.calls ++ set_header_to k v ∷ []) (add_entries g.headers)
      ∙ rw (writes-append g.calls (set_header_to k v ∷ []), h, writes-add_entries g.headers) refl

  writes-typed :
      (k v d : Text) (g : Stream)
      → writes g.calls ≡ []
      → writes ((headed k v g ++ write_status 200 ∷ []) ++ write_data d ∷ []) ≡ d ∷ []
  writes-typed k v d g h =
      writes-append (headed k v g ++ write_status 200 ∷ []) (write_data d ∷ [])
      ∙ rw (writes-append (headed k v g) (write_status 200 ∷ []), writes-headed k v g h) refl

  sent_status-typed :
      (k v d : Text) (g : Stream)
      → writes g.calls ≡ []
      → sent_status 200 ((headed k v g ++ write_status 200 ∷ []) ++ write_data d ∷ []) ≡ 200
  sent_status-typed k v d g h =
      ap (sent_status 200) (append_assoc (headed k v g) (write_status 200 ∷ []) (write_data d ∷ []))
      ∙ sent_status-append (headed k v g) (write_status 200 ∷ write_data d ∷ []) 200
          (writes-headed k v g h)

  sent_status-respond :
      (m : GoError ⊎ Text) (g : Stream)
      → writes g.calls ≡ []
      → sent_status 200 (respond b m g) ≡ marshalled_http g.calls m
  unfolding respond write_header
  sent_status-respond (inl e) g h = sent_status-respond_error g.calls e h
  sent_status-respond (inr d) g h =
      let k = codes "Content-Type" in
      let v = codes "application/json" in
      sent_status-after_write (b.write_error d) _ (λ e. let w = writes-typed k v d g h in cc)
      ∙ sent_status-typed k v d g h

  sent_status-returned :
      (r : GoError ⊎ Res) (g : Stream)
      → writes g.calls ≡ []
      → sent_status 200 (returned b r g) ≡ result_http g.calls r
  unfolding returned
  sent_status-returned (inl e) g h = sent_status-respond_error g.calls e h
  sent_status-returned (inr res) g h = sent_status-respond (b.marshal res) g h

  module _ (reads : ReadsStatus b.from_error) (before : List Call)
      (unwritten : writes before ≡ []) where
    sent_status-with_input :
        (ctx : CallContext Tls) (input : GoError ⊎ DecoderInput)
        → sent_status 200 (with_input b ctx input (new_gin_transport_stream before))
          ≡ input_http ctx before input
    unfolding with_input http_status_from_code new_gin_transport_stream
    sent_status-with_input ctx (inl e) =
        sent_status-respond_error before (bad_query e) unwritten
        ∙ ap (λ o. answered_http (http_of o) (b.marshal_status (noted_status before (bad_query e))))
            (reads.of_status _)
    sent_status-with_input ctx (inr input) =
        let (calls, result) = b.method_handler ctx input in
        sent_status-returned result (run_calls b.md_set calls (new_gin_transport_stream before))
          (writes-run_calls b.md_set calls (new_gin_transport_stream before) ∙ unwritten)

    -- The target is not where the error of a body above the limit is.
    other_address : (free : ℕ) → errors_is (max_bytes_error free) (free + 1) ≡ false
    unfolding errors_is
    other_address free = ground arith

    sent_status-read :
        (ctx : CallContext Tls) (target : ℕ) (req : GinRequest Tls) (failed : Option GoError)
        → ((e : GoError) → failed ≡ some e → errors_is e target ≡ false)
        → sent_status 200 (
            with_body b ctx target req
              (elim failed [ none ↦ inr req.body | some e ↦ inl e ])
              (new_gin_transport_stream before))
          ≡ read_http ctx before req failed
    unfolding with_body new_gin_transport_stream
    sent_status-read ctx target req none h = sent_status-with_input ctx _
    sent_status-read ctx target req (some e) h =
        rw (h e refl) (sent_status-respond_error before e unwritten)

    answered_http-500 : (m : GoError ⊎ Text) → answered_http 500 m ≡ 500
    answered_http-500 (inl e) = refl
    answered_http-500 (inr d) = refl

    sent_status-large : (a : ℕ) → sent_status 200 (respond_error b before (max_bytes_error a)) ≡ 500
    sent_status-large a =
        let m = b.marshal_status (noted_status before (max_bytes_error a)) in
        sent_status-respond_error before (max_bytes_error a) unwritten
        ∙ ap (λ o. answered_http (http_of o) m) (reads.of_max_bytes a)
        ∙ answered_http-500 m

    -- Where nothing was written before, where no error that reading the body ends with is the
    -- handler's own target, and where `status.FromError` gives the status of a status error and none
    -- for an `http.MaxBytesError`, the status that the response has, by gin's writer, is: 500 for a
    -- body above the limit; the status of the error that reading the body ends with; 400 for a bad
    -- query; the status of the error that the method's handler or marshalling the response ends
    -- with; 500 in place of the last three where the error's status cannot be marshalled; and 200
    -- otherwise, whatever the method's handler does to the stream, and also where writing the
    -- response fails.
    pub handler-expected_status :
        (name : Text) (free : ℕ) (req : GinRequest Tls)
        → ((e : GoError) → req.body_error ≡ some e → errors_is e (free + 1) ≡ false)
        → sent_status 200 (handler b name free req before) ≡ expected_status name req before
    unfolding handler read_all with_body new_gin_transport_stream
    handler-expected_status name free req fresh =
        elim (Bool-cases (leb (length req.body) max_request_body)) [
          | inl small ↦ rw small (
              sent_status-read (call_context b req.request name) (free + 1) req req.body_error
                fresh)
          | inr large ↦ rw (large, other_address free) (sent_status-large free)
        ]

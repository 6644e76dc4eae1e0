-- ===== src/Gin/Handler/Laws.antt =====
-- What the handler of a method writes: the status, and the body.
use protoc_gen_apigw.Base.{
  none, is_empty, append-nil, append_assoc, some, Bool-cases, [], refl, ◌∙◌, inl, ◌++◌, ◌+◌, ◌∷◌,
  inr, ◌⊎◌, Option, ℕ, ◌≡◌, List,
}
use protoc_gen_apigw.Gin.Stream.{
  write_status, set_header_to, add_entries, run_calls, write_data, call, Call, Stream,
  new_gin_transport_stream, write_header, write_trailer,
}
use protoc_gen_apigw.Gin.Error.{
  request_id_note, error_status, header_get, GoError, Status, error_response, error_calls,
}
use protoc_gen_apigw.Gin.Stream.Laws.{writes-add_entries, writes-run_calls, writes-append, writes}
use protoc_gen_apigw.Gin.Handler.{
  errors_is, DecoderInput, respond_error, GinRequest, CallContext, after_write, handler, respond,
  returned, with_body, with_input, Backend,
}
use protoc_gen_apigw.Base.Text.{codes, Text}

writes-error_calls :
    (request_id : Text) (n : ℕ) (m : GoError ⊎ Text)
    → (d : Text) × (writes (error_calls request_id n m) ≡ d ∷ [])
unfolding error_calls
writes-error_calls request_id n (inl e) = (_, refl)
writes-error_calls request_id n (inr d) = (d, refl)

module _ {Tls Res : Type 0} (b : Backend Tls Res) where
  abbrev Marshals : Type 0
  Marshals = (s : Status) → (d : Text) × (b.marshal_status s ≡ inr d)

  -- The body of an error response is written once.
  writes-respond_error :
      (calls : List Call) (e : GoError)
      → (d : Text) × (writes (respond_error b calls e) ≡ writes calls ++ d ∷ [])
  unfolding error_response
  writes-respond_error calls e =
      let request_id = header_get (codes "c1-trace-id") calls in
      let (s, n) = error_status (b.from_error e) in
      let noted = record s { message = s.message ++ request_id_note request_id } in
      let (d, h) = writes-error_calls request_id n (b.marshal_status noted) in
      (d, writes-append calls (error_calls request_id n (b.marshal_status noted)) ∙ rw h refl)

  -- The bodies that a call writes after those of `before`: one, or, where writing that one fails, one
  -- more: then the calls end with the response to the error that writing the first one gave.
  abbrev pub WritesOnce : List Text → List Call → Type 0
  WritesOnce before calls =
      (d : Text) × ((writes calls ≡ before ++ d ∷ [])
        ⊎ ((e : GoError) × (b.write_error d ≡ some e)
            × (answered : List Call) × (writes answered ≡ before ++ d ∷ [])
            × (calls ≡ respond_error b answered e)
            × (f : Text) × (writes calls ≡ before ++ d ∷ f ∷ [])))

  respond_error-WritesOnce :
      (before : List Text) (calls : List Call) (e : GoError)
      → writes calls ≡ before
      → WritesOnce before (respond_error b calls e)
  respond_error-WritesOnce before calls e h =
      let (d, w) = writes-respond_error calls e in (d, inl (w ∙ rw h refl))

  writes-trailed : (g : Stream) → writes (write_trailer g).calls ≡ writes g.calls
  unfolding write_trailer
  writes-trailed g =
      writes-append g.calls (add_entries g.trailers)
      ∙ rw (writes-add_entries g.trailers) (append-nil (writes g.calls))

  after_write-WritesOnce :
      (before : List Text) (d : Text) (failed : Option GoError) (g : Stream)
      → b.write_error d ≡ failed
      → writes g.calls ≡ before ++ d ∷ []
      → WritesOnce before (after_write b failed g)
  unfolding after_write
  after_write-WritesOnce before d (some e) g h w =
      let (f, v) = writes-respond_error g.calls e in
      (d, inr (e, h, g.calls, w, refl, f, v ∙ rw w (append_assoc before (d ∷ []) (f ∷ []))))
  after_write-WritesOnce before d none g h w = elim (Bool-cases (is_empty g.trailers)) [
    | inl bare ↦ rw bare (d, inl w)
    | inr full ↦ rw full (d, inl (writes-trailed g ∙ w))
  ]

  writes-typed :
      (g : Stream) (k v : Text) (d : Text)
      → writes (call (write_data d) (write_header (call (set_header_to k v) g))).calls
        ≡ writes g.calls ++ d ∷ []
  unfolding write_header
  writes-typed g k v d =
      let headed = (g.calls ++ set_header_to k v ∷ []) ++ add_entries g.headers in
      let start = writes-append g.calls (set_header_to k v ∷ []) ∙ append-nil (writes g.calls) in
      let added : writes headed ≡ writes g.calls =
        writes-append (g.calls ++ set_header_to k v ∷ []) (add_entries g.headers)
        ∙ rw (start, writes-add_entries g.headers) (append-nil (writes g.calls)) in
      let status : writes (headed ++ write_status 200 ∷ []) ≡ writes g.calls =
        writes-append headed (write_status 200 ∷ []) ∙ append-nil (writes headed) ∙ added in
      writes-append (headed ++ write_status 200 ∷ []) (write_data d ∷ []) ∙ rw status refl

  respond-WritesOnce :
      (before : List Text) (m : GoError ⊎ Text) (g : Stream)
      → writes g.calls ≡ before
      → WritesOnce before (respond b m g)
  unfolding respond
  respond-WritesOnce before (inl e) g h = respond_error-WritesOnce before g.calls e h
  respond-WritesOnce before (inr d) g h =
      after_write-WritesOnce before d (b.write_error d) _ refl
        (writes-typed g (codes "Content-Type") (codes "application/json") d ∙ rw h refl)

  returned-WritesOnce :
      (before : List Text) (r : GoError ⊎ Res) (g : Stream)
      → writes g.calls ≡ before
      → WritesOnce before (returned b r g)
  unfolding returned
  returned-WritesOnce before (inl e) g h = respond_error-WritesOnce before g.calls e h
  returned-WritesOnce before (inr res) g h = respond-WritesOnce before (b.marshal res) g h

  with_input-WritesOnce :
      (before : List Text) (ctx : CallContext Tls) (input : GoError ⊎ DecoderInput) (g : Stream)
      → writes g.calls ≡ before
      → WritesOnce before (with_input b ctx input g)
  unfolding with_input
  with_input-WritesOnce before ctx (inl e) g h = respond_error-WritesOnce before g.calls _ h
  with_input-WritesOnce before ctx (inr input) g h =
      let (calls, result) = b.method_handler ctx input in
      returned-WritesOnce before result (run_calls b.md_set calls g)
        (writes-run_calls b.md_set calls g ∙ h)

  with_body-WritesOnce :
      (before : List Text) (ctx : CallContext Tls) (target : ℕ) (req : GinRequest Tls)
      (body : GoError ⊎ Text) (g : Stream)
      → writes g.calls ≡ before
      → WritesOnce before (with_body b ctx target req body g)
  unfolding with_body
  with_body-WritesOnce before ctx target req (inl e) g h = elim (Bool-cases (errors_is e target)) [
    | inl large ↦ rw large (respond_error-WritesOnce before g.calls _ h)
    | inr other ↦ rw other (respond_error-WritesOnce before g.calls e h)
  ]
  with_body-WritesOnce before ctx target req (inr body) g h = with_input-WritesOnce before ctx _ g h

  -- On every request the handler writes one body, whatever fails; only where writing that body fails
  -- it writes one more, and then its calls are those up to the first body, followed by the error
  -- response to the error of that write.
  pub handler-WritesOnce :
      (name : Text) (free : ℕ) (req : GinRequest Tls) (before : List Call)
      → WritesOnce (writes before) (handler b name free req before)
  unfolding handler new_gin_transport_stream
  handler-WritesOnce name free req before =
      with_body-WritesOnce (writes before) _ (free + 1) req _ _ refl

-- ===== src/Gin/Handler/Headers.antt =====
-- The headers that are added to the response of a method whose handler sends headers itself.
use protoc_gen_apigw.HttpBridge.{set_each, Md}
use protoc_gen_apigw.Gin.Stream.Laws.{run_calls-append}
use protoc_gen_apigw.Gin.Stream.{
  send_header, run_call, sending_header, write_data, call, run_calls, add_header, set_header_to,
  write_status, StreamCall, Call, Stream, add_entries, write_header, write_trailer,
}
use protoc_gen_apigw.Base.Text.{codes, Text}
use protoc_gen_apigw.Base.{
  append-nil, sym, ap, inl, ◌∙◌, Bool-cases, [], inr, true, is_empty, none, refl, ◌++◌, ◌∷◌, ◌≡◌,
  List,
}
use protoc_gen_apigw.Gin.Handler.{after_write, respond, returned, Backend}

-- The header values that the calls add.
abbrev pub added : List Call → List (Text × Text)
added [] = []
added (add_header k v ∷ cs) = (k, v) ∷ added cs
added (c ∷ cs) = added cs

added-append : (xs ys : List Call) → added (xs ++ ys) ≡ added xs ++ added ys
added-append [] ys = refl
added-append (set_header_to k v ∷ xs) ys = added-append xs ys
added-append (add_header k v ∷ xs) ys = ap (λ t. (k, v) ∷ t) (added-append xs ys)
added-append (write_status n ∷ xs) ys = added-append xs ys
added-append (write_data d ∷ xs) ys = added-append xs ys

added-call : (g : Stream) (c : Call) → added (c ∷ []) ≡ [] → added (call c g).calls ≡ added g.calls
added-call g c h = added-append g.calls (c ∷ []) ∙ rw h (append-nil (added g.calls))

added-write_header :
    (g : Stream) → added (write_header g).calls ≡ added g.calls ++ added (add_entries g.headers)
unfolding write_header
added-write_header g =
    added-append (g.calls ++ add_entries g.headers) (write_status 200 ∷ [])
    ∙ append-nil (added (g.calls ++ add_entries g.headers))
    ∙ added-append g.calls (add_entries g.headers)

added-write_trailer :
    (g : Stream) → added (write_trailer g).calls ≡ added g.calls ++ added (add_entries g.trailers)
unfolding write_trailer
added-write_trailer g = added-append g.calls (add_entries g.trailers)

added-add_nothing : (md : Md) → is_empty md ≡ true → added (add_entries md) ≡ []
unfolding add_entries
added-add_nothing [] h = refl
added-add_nothing (e ∷ md) h = cc

headers-write_header : (g : Stream) → (write_header g).headers ≡ g.headers
unfolding write_header
headers-write_header g = refl

trailers-write_header : (g : Stream) → (write_header g).trailers ≡ g.trailers
unfolding write_header
trailers-write_header g = refl

module _ {Tls Res : Type 0} (b : Backend Tls Res) where
  added-after_write :
      (g : Stream) → added (after_write b none g) ≡ added g.calls ++ added (add_entries g.trailers)
  unfolding after_write
  added-after_write g = elim (Bool-cases (is_empty g.trailers)) [
    | inl bare ↦ rw (bare, added-add_nothing g.trailers bare) (sym (append-nil (added g.calls)))
    | inr full ↦ rw full (added-write_trailer g)
  ]

  -- The header values that a successful response adds to those that the stream's calls have added:
  -- the stream's headers, and then its trailers.
  added-respond :
      (d : Text) (g : Stream)
      → b.write_error d ≡ none
      → added (respond b (inr d) g)
        ≡ (added g.calls ++ added (add_entries g.headers)) ++ added (add_entries g.trailers)
  unfolding respond
  added-respond d g ok_write =
      let typed = call (set_header_to (codes "Content-Type") (codes "application/json")) g in
      let sent = call (write_data d) (write_header typed) in
      let first = added-after_write sent in
      let second = added-call (write_header typed) (write_data d) refl in
      let third = added-write_header typed in
      let fourth =
        added-call g (set_header_to (codes "Content-Type") (codes "application/json")) refl in
      rw ok_write (
        first
        ∙ ap (λ t. t ++ added (add_entries sent.trailers)) (second ∙ third ∙ rw fourth refl)
        ∙ ap (λ t. (added g.calls ++ added (add_entries g.headers)) ++ added (add_entries t))
            (trailers-write_header typed))

  added-sending :
      (calls : List StreamCall) (md : Md) (g : Stream)
      → let last = run_calls b.md_set (calls ++ sending_header md ∷ []) g in
        added last.calls
        ≡ added (run_calls b.md_set calls g).calls ++ added (add_entries last.headers)
  unfolding run_calls run_call send_header
  added-sending calls md g =
      let before = run_calls b.md_set calls g in
      rw (run_calls-append b.md_set calls (sending_header md ∷ []) g)
        (added-write_header (record before { headers = set_each b.md_set md before.headers }))

  -- Where the last thing that a method's handler does to its stream is to send headers, and it then
  -- succeeds, the response adds each header of the stream twice: `SendHeader` adds it, and the
  -- handler of the request adds it again.
  pub returned-sending :
      (calls : List StreamCall) (md : Md) (res : Res) (d : Text) (g : Stream)
      → b.marshal res ≡ inr d
      → b.write_error d ≡ none
      → let last = run_calls b.md_set (calls ++ sending_header md ∷ []) g in
        added (returned b (inr res) last)
        ≡ ((added (run_calls b.md_set calls g).calls ++ added (add_entries last.headers))
            ++ added (add_entries last.headers))
          ++ added (add_entries last.trailers)
  unfolding returned
  returned-sending calls md res d g marshalled written =
      let before = run_calls b.md_set calls g in
      let last = run_calls b.md_set (calls ++ sending_header md ∷ []) g in
      rw marshalled (
        added-respond d last written
        ∙ ap (λ t. (t ++ added (add_entries last.headers)) ++ added (add_entries last.trailers))
            (added-sending calls md g))

-- ===== src/Gin/Stream/Laws.antt =====
-- What the calls on a stream leave: the trailers' keys, and the calls on the writer.
use protoc_gen_apigw.Base.{◌≢◌, append-nil, ap, none, refl, ◌∙◌, [], ℕ, ◌++◌, ◌∷◌, ◌≡◌, List}
use protoc_gen_apigw.HttpBridge.{set_each, Md}
use protoc_gen_apigw.Gin.Stream.{
  sending_header, setting_trailer, write_header, set_trailer, setting_header, Stream, add_header,
  send_header, write_status, StreamCall, new_gin_transport_stream, set_each_trailer, set_header,
  set_header_to, write_data, run_call, run_calls, Call, add_entries, add_values,
}
use protoc_gen_apigw.HttpBridge.Laws.{IsMetadataSet}
use protoc_gen_apigw.Base.OrderedMap.{value}
use protoc_gen_apigw.Base.Text.{text_eq, codes, to_lower, Text}

-- The bodies that are written.
abbrev pub writes : List Call → List Text
writes [] = []
writes (write_data d ∷ cs) = d ∷ writes cs
writes (c ∷ cs) = writes cs

-- The status that the response has, by what gin documents of its writer: `WriteHeader` sets the
-- status as long as nothing was written, and the first `Write` sends it, also if it fails. A new
-- writer has the status 200.
abbrev pub sent_status : ℕ → List Call → ℕ
sent_status n [] = n
sent_status n (write_status m ∷ cs) = sent_status m cs
sent_status n (write_data d ∷ cs) = n
sent_status n (c ∷ cs) = sent_status n cs

pub writes-append : (xs ys : List Call) → writes (xs ++ ys) ≡ writes xs ++ writes ys
writes-append [] ys = refl
writes-append (set_header_to k v ∷ xs) ys = writes-append xs ys
writes-append (add_header k v ∷ xs) ys = writes-append xs ys
writes-append (write_status n ∷ xs) ys = writes-append xs ys
writes-append (write_data d ∷ xs) ys = ap (λ t. d ∷ t) (writes-append xs ys)

-- Calls that write nothing leave a status to the later calls.
pub sent_status-append :
    (xs ys : List Call) (n : ℕ)
    → writes xs ≡ []
    → sent_status n (xs ++ ys) ≡ sent_status (sent_status n xs) ys
sent_status-append [] ys n h = refl
sent_status-append (set_header_to k v ∷ xs) ys n h = sent_status-append xs ys n h
sent_status-append (add_header k v ∷ xs) ys n h = sent_status-append xs ys n h
sent_status-append (write_status m ∷ xs) ys n h = sent_status-append xs ys m h
sent_status-append (write_data d ∷ xs) ys n h = cc

-- Once something was written, later calls do not change the status.
pub sent_status-settled :
    (xs ys : List Call) (n : ℕ) → writes xs ≢ [] → sent_status n (xs ++ ys) ≡ sent_status n xs
sent_status-settled [] ys n h = absurd (h refl)
sent_status-settled (set_header_to k v ∷ xs) ys n h = sent_status-settled xs ys n h
sent_status-settled (add_header k v ∷ xs) ys n h = sent_status-settled xs ys n h
sent_status-settled (write_status m ∷ xs) ys n h = sent_status-settled xs ys m h
sent_status-settled (write_data d ∷ xs) ys n h = refl

writes-add_values : (k : Text) (vs : List Text) → writes (add_values k vs) ≡ []
unfolding add_values
writes-add_values k [] = refl
writes-add_values k (v ∷ vs) = writes-add_values k vs

pub writes-add_entries : (md : Md) → writes (add_entries md) ≡ []
unfolding add_entries
writes-add_entries [] = refl
writes-add_entries ((k, vs) ∷ md) =
    writes-append (add_values k vs) (add_entries md)
    ∙ rw (writes-add_values k vs, writes-add_entries md) refl

module _ (md_set : Text → List Text → Md → Md) where
  writes-run_call :
      (c : StreamCall) (g : Stream) → writes (run_call md_set c g).calls ≡ writes g.calls
  unfolding run_call
  writes-run_call (setting_header md) g = unfold set_header in refl
  writes-run_call (setting_trailer md) g = unfold set_trailer in refl
  writes-run_call (sending_header md) g =
      unfold send_header in
      unfold write_header in
      let headers = set_each md_set md g.headers in
      writes-append (g.calls ++ add_entries headers) (write_status 200 ∷ [])
      ∙ append-nil (writes (g.calls ++ add_entries headers))
      ∙ writes-append g.calls (add_entries headers)
      ∙ ap (λ t. writes g.calls ++ t) (writes-add_entries headers)
      ∙ append-nil (writes g.calls)

  -- A method's handler writes no body by what it does to the stream.
  pub writes-run_calls :
      (cs : List StreamCall) (g : Stream) → writes (run_calls md_set cs g).calls ≡ writes g.calls
  unfolding run_calls
  writes-run_calls [] g = refl
  writes-run_calls (c ∷ cs) g = writes-run_calls cs (run_call md_set c g) ∙ writes-run_call c g

  pub run_calls-append :
      (cs ds : List StreamCall) (g : Stream)
      → run_calls md_set (cs ++ ds) g ≡ run_calls md_set ds (run_calls md_set cs g)
  unfolding run_calls
  run_calls-append [] ds g = refl
  run_calls-append (c ∷ cs) ds g = run_calls-append cs ds (run_call md_set c g)

  module _ (laws : IsMetadataSet md_set) (name : Text) where
    abbrev key : Text
    key = codes "Trailer:" ++ name

    value-md_set_trailer :
        (k : Text) (vs : List Text) (md : Md)
        → value key (md_set (codes "Trailer:" ++ k) vs md) ≡ value key md
    unfolding to_lower text_eq
    value-md_set_trailer k [] md = ap (value key) (laws.skips (codes "Trailer:" ++ k) md)
    value-md_set_trailer k (v ∷ vs) md = laws.stores (codes "Trailer:" ++ k) key v vs md

    value-set_each_trailer :
        (md trailers : Md) → value key (set_each_trailer md_set md trailers) ≡ value key trailers
    unfolding set_each_trailer
    value-set_each_trailer [] trailers = refl
    value-set_each_trailer ((k, vs) ∷ md) trailers =
        value-set_each_trailer md (md_set (codes "Trailer:" ++ k) vs trailers)
        ∙ value-md_set_trailer k vs trailers

    value-run_call :
        (c : StreamCall) (g : Stream)
        → value key (run_call md_set c g).trailers ≡ value key g.trailers
    unfolding run_call set_header send_header set_trailer write_header
    value-run_call (setting_header md) g = refl
    value-run_call (sending_header md) g = refl
    value-run_call (setting_trailer md) g = value-set_each_trailer md g.trailers

    value-run_calls :
        (cs : List StreamCall) (g : Stream)
        → value key (run_calls md_set cs g).trailers ≡ value key g.trailers
    unfolding run_calls
    value-run_calls [] g = refl
    value-run_calls (c ∷ cs) g = value-run_calls cs (run_call md_set c g) ∙ value-run_call c g

    -- Whatever a method's handler does to a new stream, the trailers hold nothing under a key that
    -- starts with "Trailer:", the prefix by which net/http knows a trailer.
    pub run_calls-trailers :
        (cs : List StreamCall) (before : List Call)
        → value key (run_calls md_set cs (new_gin_transport_stream before)).trailers ≡ none
    unfolding new_gin_transport_stream value
    run_calls-trailers cs before = value-run_calls cs (new_gin_transport_stream before)

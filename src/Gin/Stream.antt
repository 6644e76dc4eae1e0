-- ===== src/Gin/Stream.antt =====
-- routers/ginapi/ginapi_handler.go: `ginTransportStream`. What is done to the response is the list of
-- the calls on the writer of the gin context, the first call first.
pub mod Laws
use protoc_gen_apigw.Base.Text.{codes, Text}
use protoc_gen_apigw.HttpBridge.{set_each, Md}
use protoc_gen_apigw.Base.{[], ℕ, ◌∷◌, List, ◌++◌}

pub data Call : Type 0 where
  -- `c.Header(k, v)`
  set_header_to : Text → Text → Call
  -- `c.Writer.Header().Add(k, v)`
  add_header : Text → Text → Call
  -- `c.Writer.WriteHeader(status)`
  write_status : ℕ → Call
  -- `c.Writer.Write(data)`
  write_data : Text → Call

-- What a method's handler may do to the stream of its context.
pub data StreamCall : Type 0 where
  setting_header sending_header setting_trailer : Md → StreamCall

pub record Stream : Type 0 where
  pub headers : Md
  pub trailers : Md
  pub calls : List Call

-- `newGinTransportStream`, in a context on whose writer these calls were made
unfoldable pub new_gin_transport_stream : List Call → Stream
new_gin_transport_stream calls = record { headers = []; trailers = []; calls = calls }

-- a call on the writer
abbrev pub call : Call → Stream → Stream
call c g = record g { calls = g.calls ++ c ∷ [] }

unfoldable pub add_values : Text → List Text → List Call
add_values k [] = []
add_values k (v ∷ vs) = add_header k v ∷ add_values k vs

-- the two loops of `writeHeader` and of `writeTrailer`
unfoldable pub add_entries : Md → List Call
unfolding add_values
add_entries [] = []
add_entries ((k, vs) ∷ md) = add_values k vs ++ add_entries md

-- `writeHeader`
unfoldable pub write_header : Stream → Stream
unfolding add_entries
write_header g = call (write_status 200) (record g { calls = g.calls ++ add_entries g.headers })

-- `writeTrailer`
unfoldable pub write_trailer : Stream → Stream
unfolding add_entries
write_trailer g = record g { calls = g.calls ++ add_entries g.trailers }

module _ (md_set : Text → List Text → Md → Md) where
  -- `SetHeader`
  unfoldable pub set_header : Md → Stream → Stream
  unfolding set_each
  set_header md g = record g { headers = set_each md_set md g.headers }

  -- `SendHeader`
  unfoldable pub send_header : Md → Stream → Stream
  unfolding set_each write_header
  send_header md g = write_header (record g { headers = set_each md_set md g.headers })

  -- the loop of `SetTrailer`, with http.TrailerPrefix
  unfoldable pub set_each_trailer : Md → Md → Md
  set_each_trailer [] trailers = trailers
  set_each_trailer ((k, vs) ∷ md) trailers =
      set_each_trailer md (md_set (codes "Trailer:" ++ k) vs trailers)

  -- `SetTrailer`
  unfoldable pub set_trailer : Md → Stream → Stream
  unfolding set_each_trailer
  set_trailer md g = record g { trailers = set_each_trailer md g.trailers }

  unfoldable pub run_call : StreamCall → Stream → Stream
  unfolding set_header send_header set_trailer
  run_call (setting_header md) g = set_header md g
  run_call (sending_header md) g = send_header md g
  run_call (setting_trailer md) g = set_trailer md g

  unfoldable pub run_calls : List StreamCall → Stream → Stream
  unfolding run_call
  run_calls [] g = g
  run_calls (c ∷ cs) g = run_calls cs (run_call c g)

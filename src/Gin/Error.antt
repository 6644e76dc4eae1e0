-- ===== src/Gin/Error.antt =====
-- routers/ginapi/ginapi_error.go: `ErrorResponse`. `status.FromError` and `protojson.Marshal` are
-- third-party functions, and parameters. Logging is left out.
use protoc_gen_apigw.Base.{
  inr, none, ◌++◌, [], inl, is_empty, ◌∷◌, not, List, if◌then◌else◌, some, ◌⊎◌, Option, ℕ,
}
use protoc_gen_apigw.Gin.Stream.{write_data, add_header, write_status, set_header_to, Call}
use protoc_gen_apigw.Grpc.{internal, http_status_from_code, Code}
use protoc_gen_apigw.Base.Text.{codes, text_eq, Text, to_lower}

-- `status.Status`; its details are kept in the form in which they are encoded
pub record Status : Type 0 where
  pub code : Code
  pub message : Text
  pub details : List Text

-- An error of Go: a status error, a pointer to an `http.MaxBytesError` with its address, or another
-- error with its text.
pub data GoError : Type 0 where
  status_error : Status → GoError
  max_bytes_error : ℕ → GoError
  other_error : Text → GoError

-- What the calls leave under a header, whose name is compared without its case: `Header` of an
-- empty value deletes the header.
unfoldable pub header_values : Text → List Call → List Text → List Text
unfolding to_lower text_eq
header_values key [] values = values
header_values key (set_header_to k v ∷ calls) values =
    let replaced = if is_empty v then [] else v ∷ [] in
    header_values key calls (if text_eq (to_lower k) (to_lower key) then replaced else values)
header_values key (add_header k v ∷ calls) values =
    header_values key calls
      (if text_eq (to_lower k) (to_lower key) then values ++ v ∷ [] else values)
header_values key (c ∷ calls) values = header_values key calls values

-- `c.Writer.Header().Get(key)`
unfoldable pub header_get : Text → List Call → Text
unfolding header_values
header_get key calls = elim (header_values key calls []) [ [] ↦ [] | v ∷ vs ↦ v ]

unfoldable pub request_id_note : Text → Text
request_id_note request_id =
    if not (is_empty request_id) then codes " (request-id: " ++ (request_id ++ codes ")") else []

-- the status and the HTTP status of an error, by what `status.FromError` returns
unfoldable pub error_status : Option Status → Status × ℕ
error_status (some s) = (s, http_status_from_code s.code)
error_status none =
    (record { code = internal; message = codes "Internal Server Error"; details = [] }, 500)

-- the response for a marshalled status
unfoldable pub error_calls : Text → ℕ → GoError ⊎ Text → List Call
unfolding request_id_note
error_calls request_id http_status (inl e) =
    set_header_to (codes "Content-Type") (codes "text/plain")
    ∷ write_status 500
    ∷ write_data (
        codes "Internal Server Error generating status (protjson.Marshal)"
        ++ request_id_note request_id)
    ∷ []
error_calls request_id http_status (inr data_bytes) =
    set_header_to (codes "Content-Type") (codes "application/json")
    ∷ write_status http_status
    ∷ write_data data_bytes
    ∷ []

module _ (from_error : GoError → Option Status) (marshal_status : Status → GoError ⊎ Text) where
  -- `ErrorResponse`
  unfoldable pub error_response : List Call → GoError → List Call
  unfolding error_status error_calls request_id_note header_get
  error_response calls e =
      let request_id = header_get (codes "c1-trace-id") calls in
      let (s, http_status) = error_status (from_error e) in
      let noted = record s { message = s.message ++ request_id_note request_id } in
      calls ++ error_calls request_id http_status (marshal_status noted)

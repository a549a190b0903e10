-- ===== src/Web/Response.antt =====
-- webbridge/webbridge.go: the response writer and the writing of errors. A gRPC error is its code's
-- number with its message; an error with an HTTP status of its own also has this.
pub mod Errors
use grpcbridge.Base.{
  ℕ, if◌then◌else◌, List, [], ◌∷◌, ◌++◌, Option, none, some, Bool, true, false, Bytes, codes,
}
use grpcbridge.Rpc.{unknown, invalid_argument, internal}

pub data BridgeError : Type 0 where
  status_error : ℕ → Bytes → BridgeError
  with_http_status : ℕ → ℕ → Bytes → BridgeError
  other_error : Bytes → BridgeError

-- The response as the client will get it: the status once it is sent, the headers set before, the body.
pub record Response : Type 0 where
  pub written_status : Bool
  pub status_code : Option ℕ
  pub content_type : Option Bytes
  pub nosniff : Bool
  -- Whatever other headers were appended, in order.
  pub headers : List (Bytes × List Bytes)
  pub body : Bytes

abbrev pub new_response : Response
new_response = record {
  written_status = false;
  status_code = none;
  content_type = none;
  nosniff = false;
  headers = [];
  body = [];
}

-- Of several calls the first one counts.
abbrev first_status : Option ℕ → ℕ → Option ℕ
first_status none c = some c
first_status (some c) d = some c

unfoldable pub write_header : ℕ → Response → Response
write_header c w = record w { written_status = true; status_code = first_status w.status_code c }

-- `Write` sends the status 200 if none was sent.
unfoldable pub write : Bytes → Response → Response
write bytes w = record w {
  written_status = true;
  status_code = first_status w.status_code 200;
  body = w.body ++ bytes;
}

-- `status.Convert`: the code and the message of an error
unfoldable pub convert : BridgeError → ℕ × Bytes
convert (status_error c m) = (c, m)
convert (with_http_status h c m) = (c, m)
convert (other_error m) = (unknown, m)

abbrev pub http_canceled : ℕ
http_canceled = 499

-- An `HTTPResponseTranscoder` at a status: the data that `Transcode` gives for it, with whether it gives
-- an error, and the content type.
pub record StatusTranscoder : Type 0 where
  pub transcode_status : ℕ → Bytes → Bytes × Bool
  pub status_content_type : ℕ → Bytes → Bytes

-- `HTTPStatusFromCode` of grpc-gateway's runtime
module _ (http_status_from_code : ℕ → ℕ) where
  unfoldable pub http_status_of : BridgeError → ℕ
  http_status_of (status_error c m) = http_status_from_code c
  http_status_of (with_http_status h c m) = h
  http_status_of (other_error m) = http_status_from_code unknown

  unfoldable pub error_status : BridgeError → (ℕ × Bytes) × ℕ
  unfolding http_status_of
  error_status e = (convert e, http_status_of e)

  -- `http.Error` puts a line break behind the text.
  unfoldable pub write_text_error : BridgeError → Response → Response
  write_text_error e w = write ((error_status e).0.1 ++ 10 ∷ []) (
      write_header (error_status e).1
        (record w { content_type = some (codes "text/plain; charset=utf-8"); nosniff = true }))

  -- Where the status cannot be transcoded, the text that is made for it is not written.
  unfoldable transcoded : StatusTranscoder → (ℕ × Bytes) × ℕ → Response → Bytes → Bool → Response
  transcoded t st w resp_data true = write resp_data (
      write_header st.1
        (record w { content_type = some (codes "text/plain; charset=utf-8"); nosniff = true }))
  transcoded t st w resp_data false =
      write resp_data
        (write_header st.1 (record w { content_type = some (t.status_content_type st.0.0 st.0.1) }))

  unfoldable pub transcode_error : StatusTranscoder → BridgeError → Response → Response
  unfolding transcoded
  transcode_error t e w =
      let st = error_status e in
      transcoded t st w (t.transcode_status st.0.0 st.0.1).0 (t.transcode_status st.0.0 st.0.1).1

  unfoldable write_by : Option StatusTranscoder → BridgeError → Response → Response
  write_by none e w = write_text_error e w
  write_by (some t) e w = transcode_error t e w

  unfoldable pub write_error : Bool → Option StatusTranscoder → BridgeError → Response → Response
  unfolding write_by
  write_error request_canceled t e w =
      if w.written_status
      then w
      else if request_canceled
      then write_header http_canceled w
      else write_by t e w

-- An error that is no status error itself gets the code.
unfoldable pub wrap_transcoding_error : ℕ → Option BridgeError → Option BridgeError
wrap_transcoding_error default_code none = none
wrap_transcoding_error default_code (some (other_error m)) = some (status_error default_code m)
wrap_transcoding_error default_code (some e) = some e

abbrev pub request_transcoding_error : Option BridgeError → Option BridgeError
request_transcoding_error e = wrap_transcoding_error invalid_argument e

abbrev pub response_transcoding_error : Option BridgeError → Option BridgeError
response_transcoding_error e = wrap_transcoding_error internal e

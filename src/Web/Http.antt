-- ===== src/Web/Http.antt =====
-- webbridge/http.go: the handler of HTTP requests and its stream. What the transcoders, the connection
-- and the forwarder do is an argument.
pub mod Stream
use grpcbridge.Base.{
  ℕ, if◌then◌else◌, List, [], ◌∷◌, ◌++◌, Option, none, some, Bool, true, false, not, ◌&&◌, Bytes,
  codes, map,
}
use grpcbridge.Rpc.{
  Cause, context_error, Err, unavailable, internal, unimplemented, invalid_argument,
}
use grpcbridge.Routing.{HttpRoute}
use grpcbridge.Desc.{Method}
use grpcbridge.Web.Response.{
  BridgeError, status_error, Response, write, StatusTranscoder, write_error,
  request_transcoding_error, response_transcoding_error, wrap_transcoding_error,
}

-- What a transcoder makes of a message or a body.
pub data Coded (A : Type 0) : Type 0 where
  coded : A → Coded A
  coding_error : BridgeError → Coded A

-- The stream shares the response with the handler.
pub record HttpStream : Type 0 where
  pub is_streaming : Bool
  pub read : Bool
  pub sent : Bool
  pub response : Response

-- `blocked`: the request has not been read, and `send` waits for it.
pub data SendResult : Type 0 where
  blocked : SendResult
  send_ok : SendResult
  send_failed : BridgeError → SendResult

pub data RecvResult (Msg : Type 0) : Type 0 where
  recv_eof : RecvResult Msg
  recv_ok : Msg → RecvResult Msg
  recv_failed : BridgeError → RecvResult Msg

-- The transcoders of a request for messages of one type.
pub record Transcoders (Msg : Type 0) : Type 0 where
  pub decode : Bytes → Coded Msg
  pub encode : Msg → Coded Bytes
  pub content_type_of : Msg → Bytes
  -- What the stream transcoder writes for a message, and its error.
  pub stream_encode : Msg → Bytes × Option BridgeError

module _ {Msg : Type 0} (tc : Transcoders Msg) where
  -- The content type stands before the first message.
  unfoldable mark_sent : Msg → HttpStream → HttpStream
  mark_sent m s = if s.sent then s else record s {
    sent = true;
    response = record s.response { content_type = some (tc.content_type_of m) };
  }

  wrapped : Option BridgeError → SendResult
  wrapped none = send_ok
  wrapped (some e) = send_failed e

  send_stream : HttpStream → Bytes × Option BridgeError → HttpStream × SendResult
  unfolding wrapped
  send_stream s (bytes, e) =
      (record s { response = write bytes s.response }, wrapped (response_transcoding_error e))

  -- `Write` with its outcome; a failed one may have written a part.
  unfoldable write_unary : HttpStream → Bytes → Option Bytes → HttpStream × SendResult
  write_unary s bytes none = (record s { response = write bytes s.response }, send_ok)
  write_unary s bytes (some part) = (
    record s { response = write part s.response },
    send_failed (status_error unavailable (codes "failed to write response body")),
  )

  unfoldable send_unary : HttpStream → Coded Bytes → Option Bytes → HttpStream × SendResult
  unfolding wrapped write_unary
  send_unary s (coding_error e) broken = (s, wrapped (response_transcoding_error (some e)))
  send_unary s (coded bytes) broken = write_unary s bytes broken

  unfoldable pub send : HttpStream → Msg → Option Bytes → HttpStream × SendResult
  unfolding mark_sent send_stream send_unary wrapped write_unary
  send s m broken =
      if s.sent && not s.is_streaming
      then (
        s,
        send_failed (
            status_error internal
              (codes "grpcbridge: tried sending second response on unary stream")),
      )
      else if not s.read
      then (s, blocked)
      else if s.is_streaming
      then send_stream (mark_sent m s) (tc.stream_encode m)
      else send_unary (mark_sent m s) (tc.encode m) broken

  recv_request : Option BridgeError → RecvResult Msg
  recv_request none = recv_eof
  recv_request (some e) = recv_failed e

  unfoldable recv_coded : HttpStream → Coded Msg → HttpStream × RecvResult Msg
  unfolding recv_request
  recv_coded s (coded m) = (s, recv_ok m)
  recv_coded s (coding_error e) = (s, recv_request (request_transcoding_error (some e)))

  -- `recv` for the outcome of reading the whole body.
  unfoldable recv_body : HttpStream → Option Bytes → HttpStream × RecvResult Msg
  recv_body s none =
      (s, recv_failed (status_error unavailable (codes "failed to read request body")))
  recv_body s (some bytes) = recv_coded (record s { read = true }) (tc.decode bytes)

  unfoldable pub recv_http : HttpStream → Option Bytes → HttpStream × RecvResult Msg
  unfolding recv_body recv_coded recv_request
  recv_http s body = if s.read then (s, recv_eof) else recv_body s body

-- `http.CanonicalHeaderKey`
module _ (canonical : Bytes → Bytes) where
  abbrev pub append_headers : List (Bytes × List Bytes) → Response → Response
  append_headers [] w = w
  append_headers ((k, v) ∷ md) w =
      append_headers md (record w { headers = w.headers ++ (canonical k, v) ∷ [] })

  unfoldable pub set_header_http : List (Bytes × List Bytes) → HttpStream → HttpStream
  set_header_http md s = if s.sent then s else record s { response = append_headers md s.response }

  abbrev prefixed : List (Bytes × List Bytes) → List (Bytes × List Bytes)
  prefixed [] = []
  prefixed ((k, v) ∷ md) = (codes "Trailer:" ++ k, v) ∷ prefixed md

  unfoldable pub set_trailer_http : List (Bytes × List Bytes) → HttpStream → HttpStream
  set_trailer_http md s =
      if s.sent
      then record s { response = append_headers (prefixed md) s.response }
      else record s { response = append_headers md s.response }

-- `withCtx`: the context was done first, or the call returned.
pub data First (A : Type 0) : Type 0 where
  done_first : Cause → First A
  returned : A → First A

unfoldable pub with_ctx : First (Option Err) → Option Err
with_ctx (done_first c) = some (context_error c)
with_ctx (returned e) = e

pub data RouteResult : Type 0 where
  route_failed : BridgeError → RouteResult
  routed : HttpRoute → RouteResult

-- The transcoders as the handler uses them.
pub record Bound : Type 0 where
  pub supports_streams : Bool
  pub status_transcoder : StatusTranscoder

pub data BindResult : Type 0 where
  bind_failed : BridgeError → BindResult
  bound : Bound → BindResult

module _ (http_status_from_code : ℕ → ℕ)
    (forward : HttpRoute → Bool → Response → Response × Option BridgeError)
    (canceled flushes : Bool) where
  unfoldable refuse : Bound → ℕ → Bytes → Response → Response
  refuse b code text w =
      write_error http_status_from_code canceled (some b.status_transcoder) (status_error code text)
        w

  unfoldable finish : Bound → Response × Option BridgeError → Response
  finish b (w, none) = w
  finish b (w, some e) = write_error http_status_from_code canceled (some b.status_transcoder) e w

  unfoldable serve_bound : HttpRoute → Response → Bound → Response
  unfolding refuse finish
  serve_bound route w b =
      if route.method.client_streaming
      then refuse b unimplemented (codes "client streaming through HTTP not supported") w
      else if route.method.server_streaming && not b.supports_streams
      then refuse b invalid_argument (codes "encoding does not support streaming") w
      else if route.method.server_streaming && not flushes
      then refuse b internal (codes "server does not support streaming") w
      else finish b (forward route route.method.server_streaming w)

  unfoldable serve_bind : HttpRoute → Response → BindResult → Response
  unfolding serve_bound refuse finish
  serve_bind route w (bind_failed e) = write_error http_status_from_code canceled none e w
  serve_bind route w (bound b) = serve_bound route w b

  unfoldable pub serve_http : RouteResult → (HttpRoute → BindResult) → Response → Response
  unfolding serve_bind serve_bound refuse finish
  serve_http (route_failed e) bind w = write_error http_status_from_code canceled none e w
  serve_http (routed route) bind w = serve_bind route w (bind route)

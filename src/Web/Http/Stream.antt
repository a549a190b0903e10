-- ===== src/Web/Http/Stream.antt =====
-- webbridge/http.go: one response on a unary stream, and an answer to every request.
use grpcbridge.Base.{
  ℕ, ◌≡◌, refl, ap, ◌∙◌, if◌then◌else◌, List, [], ◌∷◌, Option, none, some, Bool, true, false, not,
  ◌&&◌, Bytes, codes, arith, inl, inr, ◌⊎◌,
}
use grpcbridge.Routing.{HttpRoute}
use grpcbridge.Rpc.{internal}
use grpcbridge.Web.Response.{BridgeError, status_error, Response, write}
use grpcbridge.Web.Response.Errors.{write_error_begins}
use grpcbridge.Web.Http.{
  coded, HttpStream, SendResult, send_ok, send_failed, recv_eof, recv_ok, Transcoders, mark_sent,
  send_unary, write_unary, send, recv_http, recv_body, recv_coded, RouteResult, route_failed,
  routed, Bound, BindResult, bind_failed, bound, refuse, finish, serve_bound, serve_bind,
  serve_http,
}

module _ {Msg : Type 0} (tc : Transcoders Msg) where
  -- Further messages, whose writes would succeed.
  abbrev pub send_all : HttpStream → List Msg → HttpStream
  send_all s [] = s
  send_all s (m ∷ ms) = send_all (send tc s m none).0 ms

  send_again :
      (s : HttpStream) (m : Msg) → s.is_streaming ≡ false → s.sent ≡ true → (send tc s m none).0 ≡ s
  unfolding send
  send_again s m h k = ground arith

  send_refused :
      (s : HttpStream) (m : Msg)
      → s.is_streaming ≡ false
      → s.sent ≡ true
      → (send tc s m none).1
        ≡ send_failed (
            status_error internal
              (codes "grpcbridge: tried sending second response on unary stream"))
  unfolding send
  send_refused s m h k = ground arith

  send_all_again :
      (s : HttpStream) (ms : List Msg) → s.is_streaming ≡ false → s.sent ≡ true → send_all s ms ≡ s
  send_all_again s [] h k = refl
  send_all_again s (m ∷ ms) h k =
      ap (λ (t : HttpStream). send_all t ms) (send_again s m h k) ∙ send_all_again s ms h k

  -- A unary stream whose request was read sends the first message that can be transcoded, under its
  -- content type, and refuses all others: they change nothing.
  pub send_all_unary :
      (s : HttpStream) (m : Msg) (bytes : Bytes) (ms : List Msg)
      → s.is_streaming ≡ false
      → s.read ≡ true
      → s.sent ≡ false
      → tc.encode m ≡ coded bytes
      → ((send tc s m none).1 ≡ send_ok)
        × ((send_all s (m ∷ ms)).response
            ≡ write bytes (record s.response { content_type = some (tc.content_type_of m) }))
        × ((send tc (send_all s (m ∷ ms)) m none).1
            ≡ send_failed (
                status_error internal
                  (codes "grpcbridge: tried sending second response on unary stream")))
  unfolding send mark_sent send_unary write_unary
  send_all_unary s m bytes ms h r k e =
      let sent_stream : HttpStream = record s {
        sent = true;
        response = write bytes (record s.response { content_type = some (tc.content_type_of m) });
      } in
      let first : send tc s m none ≡ (sent_stream, send_ok) = ground arith in
      let after : send_all s (m ∷ ms) ≡ sent_stream =
        ap (λ (r : HttpStream × SendResult). send_all r.0 ms) first
        ∙ send_all_again sent_stream ms h refl in
      (
        ap (λ (r : HttpStream × SendResult). r.1) first,
        ap (λ (t : HttpStream). t.response) after,
        ap (λ (t : HttpStream). (send tc t m none).1) after ∙ send_refused sent_stream m h refl,
      )

  -- A request is read once: behind it comes the end.
  pub recv_http_once :
      (s : HttpStream) (bytes : Bytes) (again : Option Bytes) (m : Msg)
      → s.read ≡ false
      → tc.decode bytes ≡ coded m
      → ((recv_http tc s (some bytes)).1 ≡ recv_ok m)
        × ((recv_http tc (recv_http tc s (some bytes)).0 again).1 ≡ recv_eof)
  unfolding recv_http recv_body recv_coded
  recv_http_once s bytes again m h e = ground arith

choose :
    (P : Response → Type 0) (c d e : Bool) (x y z v : Response)
    → P x
    → P y
    → P z
    → (c ≡ false → P v)
    → P (if c then x else if d then y else if e then z else v)
choose P true d e x y z v px py pz pv = px
choose P false true e x y z v px py pz pv = py
choose P false false true x y z v px py pz pv = pz
choose P false false false x y z v px py pz pv = pv refl

module _ (http_status_from_code : ℕ → ℕ)
    (forward : HttpRoute → Bool → Response → Response × Option BridgeError)
    (canceled flushes : Bool) where
  -- The response was forwarded without an error.
  abbrev pub IsForwarded : RouteResult → (HttpRoute → BindResult) → Response → Response → Type 0
  IsForwarded rt bind w r =
      (route : HttpRoute) × (b : Bound) × (rt ≡ routed route)
      × (bind route ≡ bound b)
      × (route.method.client_streaming ≡ false)
      × (forward route route.method.server_streaming w ≡ (r, none))

  -- Every HTTP request either is forwarded without an error, which takes a route with a binding and
  -- no stream of the client, or has its response begun.
  pub serve_http-answers :
      (rt : RouteResult) (bind : HttpRoute → BindResult) (w : Response)
      → IsForwarded rt bind w (serve_http http_status_from_code forward canceled flushes rt bind w)
        ⊎ ((serve_http http_status_from_code forward canceled flushes rt bind w).written_status
            ≡ true)
  unfolding serve_http serve_bind serve_bound finish refuse
  serve_http-answers (route_failed e) bind w =
      inr (write_error_begins http_status_from_code canceled none e w)
  serve_http-answers (routed route) bind w = at_bind (bind route) refl
    where
      at_forward :
          (b : Bound) (r : Response × Option BridgeError)
          → bind route ≡ bound b
          → route.method.client_streaming ≡ false
          → forward route route.method.server_streaming w ≡ r
          → IsForwarded
              (routed route)
              bind
              w
              (finish http_status_from_code forward canceled flushes b r)
            ⊎ ((finish http_status_from_code forward canceled flushes b r).written_status ≡ true)
      at_forward b (r, none) e c f = inl (route, b, refl, e, c, f)
      at_forward b (r, some err) e c f =
          inr (write_error_begins http_status_from_code canceled (some b.status_transcoder) err r)

      at_bind :
          (x : BindResult)
          → bind route ≡ x
          → IsForwarded
              (routed route)
              bind
              w
              (serve_bind http_status_from_code forward canceled flushes route w x)
            ⊎ ((serve_bind http_status_from_code forward canceled flushes route w x).written_status
                ≡ true)
      at_bind (bind_failed e) h = inr (write_error_begins http_status_from_code canceled none e w)
      at_bind (bound b) h =
          let refused = λ (code : ℕ) (reason : Bytes).
            write_error_begins http_status_from_code canceled (some b.status_transcoder)
              (status_error code reason) w in
          choose (λ (r : Response). IsForwarded (routed route) bind w r ⊎ (r.written_status ≡ true))
            route.method.client_streaming (route.method.server_streaming && not b.supports_streams)
            (route.method.server_streaming && not flushes) _ _ _ _ (inr (refused _ _))
            (inr (refused _ _)) (inr (refused _ _)) (λ c. at_forward b _ h c refl)

-- ===== src/Web/Bridges.antt =====
-- bridge.go, and the handlers of gRPC-Web requests in webbridge/grpcweb.go.
use grpcbridge.Base.{
  ℕ, if◌then◌else◌, List, [], ◌∷◌, ◌++◌, Option, none, some, Bool, ◌&&◌, Bytes, codes, contains,
}
use grpcbridge.Routing.{GrpcRoute}
use grpcbridge.Web.Framing.{Md, lpm_trailer}
use grpcbridge.Web.Socket.{Effect, SocketStream, trailer_with_status, send_trailer}
use grpcbridge.Web.Query.{has_prefix}
use grpcbridge.Web.Response.{BridgeError, Response, write, convert}

pub data Handler : Type 0 where
  transcoded_http transcoded_web_socket grpc_web_http grpc_web_socket : Handler

-- `Get` and `Values` of the request's headers.
pub record Header : Type 0 where
  pub get : Bytes → Bytes
  pub values : Bytes → List Bytes

-- `WebBridge.ServeHTTP`: the handler that it calls, for `EqualFold` of internal/ascii.
unfoldable pub choose_handler : (Bytes → Bytes → Bool) → Header → Handler
choose_handler equal_fold h =
    if equal_fold (h.get (codes "Connection")) (codes "upgrade")
      && equal_fold (h.get (codes "Upgrade")) (codes "websocket")
    then (if contains (codes "grpc-websockets") (h.values (codes "Sec-WebSocket-Protocol"))
        then grpc_web_socket
        else transcoded_web_socket)
    else if has_prefix (h.get (codes "Content-Type")) (codes "application/grpc-web")
    then grpc_web_http
    else transcoded_http

pub data GrpcRouteResult : Type 0 where
  grpc_route_failed : BridgeError → GrpcRouteResult
  grpc_routed : GrpcRoute → GrpcRouteResult

-- `status.Convert`: no error is OK.
convert_status : Option BridgeError → ℕ × Bytes
convert_status none = (0, [])
convert_status (some e) = convert e

-- `headersToMD`, for `md.Set` of any key as `set_header_entry`
unfoldable pub headers_to_md : (Bytes → List Bytes → Md → Md) → List (Bytes × List Bytes) → Md → Md
headers_to_md set_header_entry [] md = md
headers_to_md set_header_entry ((k, v) ∷ headers) md =
    headers_to_md set_header_entry headers (set_header_entry k v md)

module _ (path_escape : Bytes → Bytes) where
  unfoldable pub write_trailer_with_status : Md → ℕ × Bytes → Response → Response
  write_trailer_with_status md st w =
      write (lpm_trailer (trailer_with_status path_escape md st.0 st.1)) w

  -- What `Forward` leaves: the response, the trailer that was set, and the error.
  module _ (forward : GrpcRoute → Response → Response × Md × Option BridgeError) where
    end_grpc_web : Response × Md × Option BridgeError → Response
    unfolding convert_status
    end_grpc_web (w, trailer, e) = write_trailer_with_status trailer (convert_status e) w

    -- `GRPCWebBridge.ServeHTTP`
    unfoldable pub serve_grpc_web : GrpcRouteResult → Response → Response
    unfolding end_grpc_web convert_status
    serve_grpc_web (grpc_route_failed e) w =
        write_trailer_with_status [] (convert e)
          (record w { content_type = some (codes "application/grpc-web+proto") })
    serve_grpc_web (grpc_routed route) w =
        end_grpc_web
          (forward route (record w { content_type = some (codes "application/grpc-web+proto") }))

  -- `GRPCWebSocketBridge.ServeHTTP` behind the upgrade: no metadata arrived, or it did.
  module _
      (forward : GrpcRoute → SocketStream → SocketStream × List Effect × Option BridgeError) where
    end_socket : SocketStream × List Effect × Option BridgeError → List Effect
    unfolding convert_status
    end_socket (s, effects, e) =
        effects ++ send_trailer path_escape s (convert_status e).0 (convert_status e).1

    serve_routed : SocketStream → GrpcRouteResult → List Effect
    unfolding end_socket convert_status
    serve_routed s (grpc_route_failed e) = send_trailer path_escape s (convert e).0 (convert e).1
    serve_routed s (grpc_routed route) = end_socket (forward route s)

    unfoldable pub serve_socket : SocketStream → Bool → GrpcRouteResult → List Effect
    unfolding serve_routed end_socket convert_status
    serve_socket s metadata_arrived rt = if metadata_arrived then serve_routed s rt else []

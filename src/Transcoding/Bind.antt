-- ===== src/Transcoding/Bind.antt =====
-- transcoding/http.go: the choice of the marshalers, and the form of streamed responses.
pub mod Chosen
use grpcbridge.Base.{
  ℕ, ◌&&◌, not, if◌then◌else◌, List, [], ◌∷◌, ◌++◌, Option, none, some, Bool, true, false, Bytes,
  codes, contains,
}
use grpcbridge.Base.Maps.{Map, put, empty}
use grpcbridge.Desc.{Method}
use grpcbridge.Routing.{Result, ok, err, RouteError, status, http_status, invalid_argument}

-- A marshaler by its content type, whether it is binary and whether it supports streams.
pub record Marshaler : Type 0 where
  pub mime_type : Bytes
  pub binary : Bool
  pub supports_streams : Bool

-- `NewStandardTranscoder`: of several marshalers for a type the last one counts.
unfoldable pub mime_marshalers : List Marshaler → Map Marshaler → Map Marshaler
mime_marshalers [] known = known
mime_marshalers (m ∷ ms) known = mime_marshalers ms (put m.mime_type m known)

pub record StandardTranscoder : Type 0 where
  pub default_marshaler : Marshaler
  pub marshalers : Map Marshaler

-- What `Bind` reads of the request.
pub record BindRequest : Type 0 where
  pub content_types : List Bytes
  pub accepts : List Bytes
  pub method : Method

pub record Transcoders : Type 0 where
  pub request_marshaler : Marshaler
  pub response_marshaler : Marshaler
  pub is_sse : Bool

abbrev pub unsupported_media_type : RouteError
unsupported_media_type = http_status 415 invalid_argument

abbrev pub known_type : Map Marshaler → Option Bytes → Option Marshaler
known_type known none = none
known_type known (some mt) = known mt

-- mime.ParseMediaType
module _ (parse_media_type : Bytes → Option Bytes) where
  unfoldable pub first_content_type : Map Marshaler → List Bytes → Option Marshaler
  first_content_type known [] = none
  first_content_type known (ct ∷ cts) = elim (known_type known (parse_media_type ct)) [
    | some m ↦ some m
    | none ↦ first_content_type known cts
  ]

  unfoldable pub pick_request_marshaler : StandardTranscoder → List Bytes → Option Marshaler
  pick_request_marshaler t [] = some t.default_marshaler
  pick_request_marshaler t (ct ∷ cts) = first_content_type t.marshalers (ct ∷ cts)

  unfoldable pub pick_response_marshaler : StandardTranscoder → List Bytes → Option Marshaler
  pick_response_marshaler t [] = none
  pick_response_marshaler t (mt ∷ accepts) = elim (t.marshalers mt) [
    | some m ↦ some m
    | none ↦ pick_response_marshaler t accepts
  ]

  -- The response's marshaler and whether it is sent as server-sent events.
  unfoldable response_form : Option Marshaler → Marshaler → List Bytes → Marshaler × Bool
  response_form (some m) request_marshaler accepts = (m, false)
  response_form none request_marshaler accepts =
      (request_marshaler, contains (codes "text/event-stream") accepts)

  unfoldable bind_form : Method → Marshaler → Marshaler × Bool → Result Transcoders
  bind_form method m form =
      if form.1 && method.client_streaming
      then err (status invalid_argument)
      else if form.1 && not method.server_streaming
      then err (status invalid_argument)
      else ok (record { request_marshaler = m; response_marshaler = form.0; is_sse = form.1 })

  unfoldable bind_marshaler :
      StandardTranscoder → BindRequest → Option Marshaler → Result Transcoders
  unfolding bind_form response_form
  bind_marshaler t req none = err unsupported_media_type
  bind_marshaler t req (some m) =
      bind_form req.method m (response_form (pick_response_marshaler t req.accepts) m req.accepts)

  unfoldable pub bind : StandardTranscoder → BindRequest → Result Transcoders
  unfolding bind_marshaler bind_form response_form
  bind t req = bind_marshaler t req (pick_request_marshaler t req.content_types)

-- ===== src/Transcoding/Requests.antt =====
-- transcoding/http.go: the transcoding of requests and responses, over protobuf's messages and the
-- population of fields by internal/gwquery and grpc-gateway's runtime.
pub mod Population
pub mod Filter
pub mod Priority
use grpcbridge.Base.{
  ℕ, ◌&&◌, if◌then◌else◌, List, [], ◌∷◌, ◌++◌, map, Option, none, some, Bool, true, false, Bytes,
  codes, equals, split,
}
use grpcbridge.Rpc.{Err, eof, status, plain, is_eof, invalid_argument, internal}
use grpcbridge.Web.Query.{Query}
use grpcbridge.Transcoding.Paths.{
  Schema, Traversed, traversed, invalid_path, wildcard_path, traverse_field_path,
}

pub data Transcode (A : Type 0) : Type 0 where
  transcoded : A → Transcode A
  fails : Err → Transcode A

-- Messages of one type: `populate` is PopulateFieldFromPath, `populate_query` PopulateQueryParameters with
-- its filter, and `unmarshal` and `marshal` those of a marshaler at a place of the message.
pub record Messages : Type 1 where
  pub Msg : Type 0
  pub schema : Schema
  pub descriptor : schema.Descriptor
  pub unmarshal : List Bytes → Option Bytes → Bytes → Msg → Transcode Msg
  pub marshal : List Bytes → Option Bytes → Msg → Transcode Bytes
  pub populate : Msg → Bytes → Bytes → Option Msg
  pub populate_query : Msg → Query → List (List Bytes) → Option Msg

-- What the binding and the request give.
pub record Bindings : Type 0 where
  pub request_body_path : Bytes
  pub response_body_path : Bytes
  -- A map, in the order of its iteration.
  pub path_params : List (Bytes × Bytes)
  pub query : Query

abbrev pub and_then : {A B : Type 0} → Transcode A → (A → Transcode B) → Transcode B
and_then (fails e) f = fails e
and_then (transcoded a) f = f a

abbrev pub or_status : {A : Type 0} → ℕ → Option A → Transcode A
or_status code none = fails (status code)
or_status code (some a) = transcoded a

abbrev paths_of : List (Bytes × Bytes) → List (List Bytes)
paths_of [] = []
paths_of ((k, v) ∷ params) = split b'.' k ∷ paths_of params

-- `queryParamFilter`
unfoldable pub query_filter : Bindings → List (List Bytes)
query_filter b =
    if equals b.request_body_path []
    then paths_of b.path_params
    else split b'.' b.request_body_path ∷ paths_of b.path_params

module _ (messages : Messages) where
  open messages use {Msg, schema, descriptor, unmarshal, marshal, populate, populate_query}

  -- The error of the body's decoding; EOF is kept on a stream.
  unfoldable body_error : Bool → Transcode Msg → Transcode Msg
  body_error supports_eof (transcoded m) = transcoded m
  body_error supports_eof (fails e) =
      if is_eof e && supports_eof then fails e else fails (status invalid_argument)

  unfoldable fill_at :
      Bool → (List Bytes → Option Bytes → Msg → Transcode Msg) → Msg → Traversed → Transcode Msg
  unfolding body_error
  fill_at supports_eof f m invalid_path = fails (status internal)
  fill_at supports_eof f m (traversed above field) = body_error supports_eof (f above field m)

  unfoldable fill_body :
      Bool → (List Bytes → Option Bytes → Msg → Transcode Msg) → Bindings → Msg → Transcode Msg
  unfolding fill_at body_error
  fill_body supports_eof f b m =
      if equals b.request_body_path []
      then transcoded m
      else fill_at supports_eof f m (traverse_field_path schema descriptor b.request_body_path)

  unfoldable pub populate_params : List (Bytes × Bytes) → Msg → Transcode Msg
  populate_params [] m = transcoded m
  populate_params ((k, v) ∷ params) m =
      and_then (or_status invalid_argument (populate m k v)) (populate_params params)

  unfoldable fill_query : Bindings → Msg → Transcode Msg
  fill_query b m =
      if equals b.request_body_path wildcard_path
      then transcoded m
      else or_status invalid_argument (populate_query m b.query (query_filter b))

  -- `standardRequestTranscoder.transcodeFunc`
  unfoldable pub transcode_func :
      Bool → (List Bytes → Option Bytes → Msg → Transcode Msg) → Bindings → Msg → Transcode Msg
  unfolding fill_body fill_query
  transcode_func supports_eof f b m =
      and_then (fill_body supports_eof f b m)
        (λ filled. and_then (populate_params b.path_params filled) (fill_query b))

  -- An empty body is valid.
  unfoldable unmarshal_body : Bytes → List Bytes → Option Bytes → Msg → Transcode Msg
  unmarshal_body [] above field m = transcoded m
  unmarshal_body (c ∷ body) above field m = unmarshal above field (c ∷ body) m

  unfoldable pub transcode_request : Bindings → Bytes → Msg → Transcode Msg
  unfolding unmarshal_body
  transcode_request b body m = transcode_func false (unmarshal_body body) b m

  -- `standardRequestStream.Transcode`, for what the decoder gives.
  unfoldable pub transcode_request_stream :
      Bindings → (List Bytes → Option Bytes → Msg → Transcode Msg) → Msg → Transcode Msg
  transcode_request_stream b decode m = transcode_func true decode b m

  unfoldable internal_error : Transcode Bytes → Transcode Bytes
  internal_error (transcoded bytes) = transcoded bytes
  internal_error (fails e) = fails (status internal)

  unfoldable marshal_at : Msg → Traversed → Transcode Bytes
  unfolding internal_error
  marshal_at m invalid_path = fails (status internal)
  marshal_at m (traversed above field) = internal_error (marshal above field m)

  -- `standardResponseTranscoder.Transcode`, without the data beside an error; a google.rpc.Status is
  -- marshaled whole.
  unfoldable pub transcode_response : Bool → Bindings → Msg → Transcode Bytes
  unfolding marshal_at internal_error
  transcode_response is_status b m =
      if is_status
      then internal_error (marshal [] none m)
      else marshal_at m (traverse_field_path schema descriptor b.response_body_path)

-- The data of one server-sent event.
unfoldable pub sse_event : Bytes → Bytes
sse_event b = codes "data:" ++ (b ++ (10 ∷ 10 ∷ []))

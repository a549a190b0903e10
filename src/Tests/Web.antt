-- ===== src/Tests/Web.antt =====
-- Runs of the web bridges, and their theorems there.
use grpcbridge.Base.{
  ℕ, zero, suc, ◌≡◌, refl, sym, List, [], ◌∷◌, ◌++◌, Option, none, some, Bool, true, false, Bytes,
  codes, length, take, drop, arith, All, has_suffix, bytes_discrete, ◌⊎◌,
}
use grpcbridge.Rpc.{eof}
use grpcbridge.Desc.{empty_message}
use grpcbridge.Routing.{HttpRoute}
use grpcbridge.Web.Framing.{Md, Codec, frame, max_message, recv, decoded}
use grpcbridge.Web.Framing.RoundTrip.{
  recv_all, Frames, no_frames, next_frame, recv_all-Frames, recv_long,
}
use grpcbridge.Web.Socket.{itoa, itoa_from, new_stream, SocketStream, on_messages}
use grpcbridge.Web.Socket.Events.{EndsOnce, on_messages-EndsOnce}
use grpcbridge.Web.Query.{
  Query, has_prefix, is_valid_metadata_key, is_valid_metadata_value, md_key, is_md_param,
  parse_metadata_query,
}
use grpcbridge.Web.Query.Metadata.{
  IsEntry, metadata_of, others_of, any_param, parse_metadata_query_lem,
}
use grpcbridge.Web.Response.{
  BridgeError, status_error, Response, new_response, StatusTranscoder, write, convert, write_error,
  http_status_of, http_canceled,
}
use grpcbridge.Web.Response.Errors.{error_body, write_error_lem}
use grpcbridge.Web.Http.{coded, HttpStream, Transcoders, routed, BindResult, bound, serve_http}
use grpcbridge.Web.Http.Stream.{IsForwarded, serve_http-answers}

some_injective : (x y : Bytes) → some x ≡ some y → x ≡ y
some_injective x y h = cc

-- Messages that are their own encoding.
abbrev raw : Codec
raw = record {
  Msg = Bytes;
  new_msg = [];
  marshal = λ m. some m;
  unmarshal = λ data'. some data';
  unmarshal-marshal = λ m data' e. sym e;
  marshal_new = λ m e. some_injective m [] e;
}

two-Frames : Frames raw (codes "hi" ∷ [] ∷ []) (frame 0 (codes "hi") ++ (frame 0 [] ++ []))
two-Frames =
    next_frame (codes "hi") ([] ∷ []) (codes "hi") (frame 0 [] ++ []) refl (omega arith)
      (next_frame [] [] [] [] refl (omega arith) no_frames)

recv_all-Frames_example :
    recv_all raw 3 (record { left = frame 0 (codes "hi") ++ (frame 0 [] ++ []); fails = false })
    ≡ (codes "hi" ∷ [] ∷ [], some eof)
recv_all-Frames_example =
    recv_all-Frames raw (codes "hi" ∷ [] ∷ []) (frame 0 (codes "hi") ++ (frame 0 [] ++ []))
      two-Frames

unfoldable zeros : ℕ → Bytes
zeros zero = []
zeros (suc n) = 0 ∷ zeros n

length-zeros : (n : ℕ) → length (zeros n) ≡ n
unfolding zeros
length-zeros zero = refl
length-zeros (suc n) = omega (arith, length-zeros n)

abbrev large : Bytes
large = zeros 5000000

recv_long_example : recv raw [] (record { left = frame 0 large ++ []; fails = false }) ≡ (
  decoded raw (some (take max_message large)),
  record { left = drop max_message large ++ []; fails = false },
)
recv_long_example =
    recv_long raw [] large [] false (omega (arith, length-zeros 5000000))
      (omega (arith, length-zeros 5000000))

abbrev as_is : Bytes → Bytes
as_is s = s

-- A reader that takes every text for one field.
abbrev one_field : Bytes → Option Md
one_field s = some ((codes "x", s ∷ []) ∷ [])

abbrev three_messages : List Bytes
three_messages = codes "x: 1" ∷ (1 ∷ frame 0 (codes "hi")) ∷ (0 ∷ frame 0 (codes "late")) ∷ []

on_messages-EndsOnce_example : EndsOnce (on_messages as_is one_field new_stream three_messages)
on_messages-EndsOnce_example = on_messages-EndsOnce as_is one_field new_stream three_messages

abbrev with_metadata : SocketStream
with_metadata = record new_stream { received_md = true }

twelve : itoa 12 ≡ codes "12"
unfolding itoa itoa_from
twelve = refl

abbrev query : Query
query = (codes "_metadata[key]", codes "v" ∷ (10 ∷ []) ∷ []) ∷ (codes "a", codes "b" ∷ []) ∷ []

parse_metadata_query_lem_example :
    ((parse_metadata_query query (codes "_metadata")).md ≡ metadata_of (codes "_metadata") query)
    × All IsEntry (parse_metadata_query query (codes "_metadata")).md
    × ((parse_metadata_query query (codes "_metadata")).remaining
        ≡ others_of (codes "_metadata") query)
    × ((parse_metadata_query query (codes "_metadata")).is_modified
        ≡ any_param (codes "_metadata") query)
parse_metadata_query_lem_example = parse_metadata_query_lem query b'_' (codes "metadata")

metadata_of-query : metadata_of (codes "_metadata") query ≡ (codes "key", codes "v") ∷ []
unfolding is_md_param md_key has_prefix has_suffix is_valid_metadata_key is_valid_metadata_value
    bytes_discrete
metadata_of-query = refl

abbrev always_bad_request : ℕ → ℕ
always_bad_request c = 400

abbrev message_only : StatusTranscoder
message_only = record {
  transcode_status = λ c m. (m, false);
  status_content_type = λ c m. codes "text/plain";
}

abbrev refusal : BridgeError
refusal = status_error 3 (codes "no")

write_error_lem_example :
    let r = write_error always_bad_request false (some message_only) refusal new_response in
    (r.written_status ≡ true)
    × (((new_response.written_status ≡ true) × (r ≡ new_response))
        ⊎ ((new_response.written_status ≡ false)
            × (false ≡ true)
            × (r.status_code ≡ some http_canceled)
            × (r.body ≡ []))
        ⊎ ((new_response.written_status ≡ false)
            × (false ≡ false)
            × (r.status_code ≡ some (http_status_of always_bad_request refusal))
            × (r.body ≡ error_body (some message_only) (convert refusal))))
write_error_lem_example =
    write_error_lem always_bad_request false (some message_only) refusal new_response refl refl

abbrev plain_transcoders : Transcoders Bytes
plain_transcoders = record {
  decode = λ s. coded s;
  encode = λ m. coded m;
  content_type_of = λ m. codes "application/json";
  stream_encode = λ m. (m, none);
}

abbrev unary_stream : HttpStream
unary_stream = record { is_streaming = false; read = true; sent = false; response = new_response }

abbrev echo_route : Bool → HttpRoute
echo_route streams = record {
  target = record { name = codes "t"; services = [] };
  service = record { name = codes "s"; methods = [] };
  method = record {
    rpc_name = codes "/s/m";
    input = empty_message;
    output = empty_message;
    client_streaming = streams;
    server_streaming = false;
    bindings = [];
  };
  binding = record {
    http_method = codes "GET";
    pattern_text = codes "/m";
    request_body_path = [];
    response_body_path = [];
  };
  path_params = none;
}

abbrev binds : HttpRoute → BindResult
binds route = bound (record { supports_streams = false; status_transcoder = message_only })

abbrev answers_ok : HttpRoute → Bool → Response → Response × Option BridgeError
answers_ok route streaming w = (write (codes "ok") w, none)

serve_http-answers_example :
    IsForwarded always_bad_request answers_ok false true
      (routed (echo_route true))
      binds
      new_response
      (serve_http always_bad_request answers_ok false true
        (routed (echo_route true))
        binds
        new_response)
    ⊎ ((serve_http always_bad_request answers_ok false true
          (routed (echo_route true))
          binds
          new_response).written_status
        ≡ true)
serve_http-answers_example =
    serve_http-answers always_bad_request answers_ok false true (routed (echo_route true)) binds
      new_response

-- ===== src/Reflection/Client.antt =====
-- reflection/client.go: the requests of the reflection client, over what the calls of its stream give.
-- Errors are wrapped with %w, which keeps what status.Code and errors.Is read of them.
use grpcbridge.Base.{
  ℕ, zero, suc, if◌then◌else◌, List, [], ◌∷◌, ◌++◌, Option, none, some, Bool, true, false, Bytes,
}
use grpcbridge.Rpc.{Err, status, plain, is_eof}
use grpcbridge.Adapter.Forwarder.{Received, message, failed}

-- The `MessageResponse` of a response.
pub data Response : Type 0 where
  list_services_response : List Bytes → Response
  file_descriptor_response : List Bytes → Response
  error_response : ℕ → Response
  other_response : Response

pub data Outcome (A : Type 0) : Type 0 where
  done : A → Outcome A
  refused : Err → Outcome A

-- `status.Error` of the code 0 is nil, and wrapping nil gives an error without a status.
unfoldable response_error : ℕ → Err
response_error zero = plain
response_error (suc c) = status (suc c)

unfoldable pub recv : Received Response → Outcome Response
unfolding response_error
recv (failed e) = refused e
recv (message (error_response c)) = refused (response_error c)
recv (message (list_services_response names)) = done (list_services_response names)
recv (message (file_descriptor_response files)) = done (file_descriptor_response files)
recv (message other_response) = done other_response

unfoldable services_of : Outcome Response → Outcome (List Bytes)
services_of (refused e) = refused e
services_of (done (list_services_response names)) = done names
services_of (done (file_descriptor_response files)) = refused plain
services_of (done (error_response c)) = refused plain
services_of (done other_response) = refused plain

-- Behind an EOF of Send, a response is an error of the stream.
unfoldable unless_eof : Outcome Response → Outcome (List Bytes)
unless_eof (refused e) = refused e
unless_eof (done r) = refused plain

-- `listServiceNames`, for what Send and Recv give.
unfoldable pub list_service_names : Option Err → Received Response → Outcome (List Bytes)
unfolding services_of unless_eof
list_service_names none r = services_of (recv r)
list_service_names (some e) r = if is_eof e then unless_eof (recv r) else refused e

-- The first error of the requester's sends, and how many requests it has sent.
unfoldable pub requester : List (Option Err) → Option Err × ℕ
requester [] = (none, 0)
requester (some e ∷ sends) = (some e, 0)
requester (none ∷ sends) = let rest = requester sends in (rest.0, suc rest.1)

unfoldable files_of : Outcome Response → Outcome (List Bytes)
files_of (refused e) = refused e
files_of (done (file_descriptor_response files)) = done files
files_of (done (list_services_response names)) = refused plain
files_of (done (error_response c)) = refused plain
files_of (done other_response) = refused plain

abbrev and_then : Outcome (List Bytes) → Outcome (List Bytes) → Outcome (List Bytes)
and_then (refused e) rest = refused e
and_then (done files) (refused e) = refused e
and_then (done files) (done more) = done (files ++ more)

-- The receiver, for the requests that were sent.
unfoldable pub receiver : ℕ → List (Received Response) → Outcome (List Bytes)
unfolding files_of
receiver zero responses = done []
receiver (suc sent) [] = done []
receiver (suc sent) (r ∷ responses) = and_then (files_of (recv r)) (receiver sent responses)

-- The two ends, where `select` may take either error.
unfoldable joined : Bool → Option Err → Outcome (List Bytes) → Outcome (List Bytes)
joined receiver_first none r = r
joined receiver_first (some e) (done files) = refused e
joined true (some e) (refused f) = refused f
joined false (some e) (refused f) = refused e

-- `execFileDescriptorRequests`, for what the sends and the receives give, one of each per request.
unfoldable pub exec_file_descriptor_requests :
    Bool → List (Option Err) → List (Received Response) → Outcome (List Bytes)
unfolding joined
exec_file_descriptor_requests receiver_first sends responses =
    joined receiver_first (requester sends).0 (receiver (requester sends).1 responses)

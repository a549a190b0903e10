-- ===== src/Rpc.antt =====
-- internal/rpcutil/rpcutil.go, and the errors that streams return. The texts of errors are left out.
use grpcbridge.Base.{ℕ, Bool, true, false}

-- `io.EOF`, a gRPC status error by the number of its code, or any other error.
pub data Err : Type 0 where
  eof : Err
  status : ℕ → Err
  plain : Err

-- `errors.Is(err, io.EOF)`
abbrev pub is_eof : Err → Bool
is_eof eof = true
is_eof (status _) = false
is_eof plain = false

-- The numbers of google.golang.org/grpc/codes.
abbrev pub canceled : ℕ
canceled = 1

abbrev pub unknown : ℕ
unknown = 2

abbrev pub invalid_argument : ℕ
invalid_argument = 3

abbrev pub deadline_exceeded : ℕ
deadline_exceeded = 4

abbrev pub unimplemented : ℕ
unimplemented = 12

abbrev pub internal : ℕ
internal = 13

abbrev pub unavailable : ℕ
unavailable = 14

-- Why a context is done.
pub data Cause : Type 0 where
  context_canceled context_deadline_exceeded other_cause : Cause

unfoldable pub context_error : Cause → Err
context_error context_canceled = status canceled
context_error context_deadline_exceeded = status deadline_exceeded
context_error other_cause = status unknown

-- ===== src/Web/Framing.antt =====
-- webbridge/grpcweb.go: length-prefixed messages and the request stream of the gRPC-Web bridge.
pub mod RoundTrip
use Prim.Native.Nat.{◌*◌, ◌/◌, ◌%◌}
use grpcbridge.Base.{
  ℕ, zero, suc, ◌+◌, ◌==◌, ltb, if◌then◌else◌, List, [], ◌∷◌, ◌++◌, Option, none, some, Bool, true,
  false, ◌≡◌, Bytes, codes, length, take, drop,
}
use grpcbridge.Rpc.{Err, eof, status, plain, unavailable}

-- google.golang.org/protobuf/proto for the messages of one type.
pub record Codec : Type 1 where
  pub Msg : Type 0
  pub new_msg : Msg
  pub marshal : Msg → Option Bytes
  pub unmarshal : Bytes → Option Msg
  pub unmarshal-marshal :
      (m : Msg) (data' : Bytes) → marshal m ≡ some data' → unmarshal data' ≡ some m
  pub marshal_new : (m : Msg) → marshal m ≡ some [] → m ≡ new_msg

-- `binary.BigEndian.PutUint32` of `uint32(n)`
abbrev pub put_uint32 : ℕ → Bytes
put_uint32 n = (n / 16777216 % 256) ∷ (n / 65536 % 256) ∷ (n / 256 % 256) ∷ (n % 256) ∷ []

-- The frame: a flag byte, the length and the data.
abbrev pub frame : ℕ → Bytes → Bytes
frame flag payload = flag ∷ (put_uint32 (length payload) ++ payload)

-- A request body: the bytes left, and whether reading behind them fails.
pub record Body : Type 0 where
  pub left : Bytes
  pub fails : Bool

pub data ReadResult : Type 0 where
  full : Bytes → Body → ReadResult
  at_eof : Body → ReadResult
  read_error : Body → ReadResult

-- `io.ReadFull` of fewer bytes than asked for: EOF only where there are none.
short_read : Bytes → Bool → ReadResult
short_read [] false = at_eof (record { left = []; fails = false })
short_read (_ ∷ _) false = read_error (record { left = []; fails = false })
short_read _ true = read_error (record { left = []; fails = true })

-- `io.ReadFull` of n bytes
unfoldable pub read_full : ℕ → Body → ReadResult
unfolding short_read
read_full n body =
    if ltb (length body.left) n
    then short_read body.left body.fails
    else full (take n body.left) (record body { left = drop n body.left })

-- 4 MB
abbrev pub max_message : ℕ
max_message = 4194304

abbrev pub min : ℕ → ℕ → ℕ
min a b = if ltb a b then a else b

-- `binary.BigEndian.Uint32(header[1:5])`
abbrev pub length_field : Bytes → ℕ
length_field (_ ∷ a ∷ b ∷ c ∷ d ∷ _) = a * 16777216 + (b * 65536 + (c * 256 + d))
length_field _ = 0

module _ (codec : Codec) where
  open codec use {Msg, marshal, unmarshal}

  pub data Recv : Type 0 where
    received : Msg → Recv
    recv_error : Err → Recv

  unfoldable pub decoded : Option Msg → Recv
  decoded none = recv_error plain
  decoded (some m) = received m

  unfoldable recv_data : ReadResult → Recv × Body
  recv_data (full bytes body) = (decoded (unmarshal bytes), body)
  recv_data (at_eof body) = (recv_error (status unavailable), body)
  recv_data (read_error body) = (recv_error (status unavailable), body)

  unfoldable recv_header : Msg → ReadResult → Recv × Body
  recv_header msg (full header body) =
      if ltb (length_field header) 1
      then (received msg, body)
      else recv_data (read_full (min (length_field header) max_message) body)
  recv_header msg (at_eof body) = (recv_error eof, body)
  recv_header msg (read_error body) = (recv_error (status unavailable), body)

  -- `gRPCWebStream.recv` into `msg`: an empty message leaves it as it is.
  unfoldable pub recv : Msg → Body → Recv × Body
  unfolding recv_header recv_data decoded
  recv msg body = recv_header msg (read_full 5 body)

  framed : Option Bytes → Option Bytes
  framed none = none
  framed (some payload) = some (frame 0 payload)

  unfoldable pub lpm_message : Msg → Option Bytes
  unfolding framed
  lpm_message m = framed (marshal m)

-- Metadata as the list of its entries, in the order of the map's iteration.
abbrev pub Md : Type 0
Md = List (Bytes × List Bytes)

trailer_values : Bytes → List Bytes → Bytes
trailer_values k [] = []
trailer_values k (v ∷ vs) = k ++ (codes ": " ++ (v ++ (13 ∷ 10 ∷ trailer_values k vs)))

unfoldable pub trailer_text : Md → Bytes
unfolding trailer_values
trailer_text [] = []
trailer_text ((k, vs) ∷ md) = trailer_values k vs ++ trailer_text md

unfoldable pub lpm_trailer : Md → Bytes
lpm_trailer md = frame 128 (trailer_text md)

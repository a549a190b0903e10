-- ===== src/Adapter/Timeout.antt =====
-- grpcadapter/forwarder.go: the grpc-timeout field. A time.Duration is its 64-bit pattern.
pub mod Exact
use Prim.Native.Nat.{◌%◌, ◌^◌}
use grpcbridge.Base.{
  ℕ, ◌+◌, ◌-◌, ◌*◌, ◌==◌, ltb, leb, if◌then◌else◌, List, [], ◌∷◌, Option, none, some, Bool, true,
  false, ◌&&◌, ◌||◌, Bytes, length,
}

abbrev pub max_int64 : ℕ
max_int64 = 9223372036854775807

abbrev pub hour : ℕ
hour = 3600000000000

-- In nanoseconds
unfoldable pub timeout_unit_to_duration : ℕ → Option ℕ
timeout_unit_to_duration u =
    if u == b'H'
    then some hour
    else if u == b'M'
    then some 60000000000
    else if u == b'S'
    then some 1000000000
    else if u == b'm'
    then some 1000000
    else if u == b'u'
    then some 1000
    else if u == b'n'
    then some 1
    else none

abbrev pub is_digit : ℕ → Bool
is_digit c = leb b'0' c && leb c b'9'

unfoldable pub digits_from : ℕ → Bytes → Option ℕ
digits_from acc [] = some acc
digits_from acc (c ∷ s) = if is_digit c then digits_from (acc * 10 + (c - b'0')) s else none

unfoldable digits : Bytes → Option ℕ
digits [] = none
digits (c ∷ s) = digits_from 0 (c ∷ s)

-- The sign, true for a minus, and the value.
unfoldable signed : Bool → Option ℕ → Option (Bool × ℕ)
signed neg none = none
signed neg (some v) = some (neg, v)

-- `strconv.ParseInt(s, 10, 64)` of at most 8 bytes, whose value is in the range.
unfoldable pub parse_int : Bytes → Option (Bool × ℕ)
unfolding signed digits
parse_int [] = none
parse_int (c ∷ s) =
    if c == b'-'
    then signed true (digits s)
    else if c == b'+'
    then signed false (digits s)
    else signed false (digits (c ∷ s))

-- `d * time.Duration(t)`
unfoldable pub times : ℕ → Bool × ℕ → ℕ
times d (false, t) = d * t % 2 ^ 64
times d (true, t) = (2 ^ 64 - d * t % 2 ^ 64) % 2 ^ 64

-- `d == time.Hour && t > maxHours`, where 2562047 hours are the most that fit.
unfoldable exceeds_hours : ℕ → Bool × ℕ → Bool
exceeds_hours d (true, t) = false
exceeds_hours d (false, t) = d == hour && ltb 2562047 t

unfoldable scaled : ℕ → Option (Bool × ℕ) → Option ℕ
unfolding exceeds_hours
scaled d none = none
scaled d (some t) = if exceeds_hours d t then some max_int64 else some (times d t)

unfoldable with_unit : Option ℕ → Bytes → Option ℕ
with_unit none s = none
with_unit (some d) s = scaled d (parse_int s)

-- `s[:size-1]` and `s[size-1]`
abbrev pub but_last : Bytes → Bytes
but_last [] = []
but_last (c ∷ []) = []
but_last (c ∷ d ∷ s) = c ∷ but_last (d ∷ s)

abbrev pub last_byte : Bytes → ℕ
last_byte [] = 0
last_byte (c ∷ []) = c
last_byte (c ∷ d ∷ s) = last_byte (d ∷ s)

unfoldable pub decode_timeout : Bytes → Option ℕ
unfolding with_unit scaled
decode_timeout s =
    if ltb (length s) 2 || ltb 9 (length s)
    then none
    else with_unit (timeout_unit_to_duration (last_byte s)) (but_last s)

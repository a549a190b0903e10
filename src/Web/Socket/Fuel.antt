-- ===== src/Web/Socket/Fuel.antt =====
-- webbridge/grpcweb.go: the digits of a number are found within the fuel.
use Prim.Native.Nat.{◌/◌, ◌%◌}
use grpcbridge.Base.{ℕ, zero, suc, ◌<◌, ltb, ◌≡◌, refl, Bytes, ◌∷◌, arith, Bool-cases, inl, inr}
use grpcbridge.Web.Socket.{digit, itoa_from}

-- More fuel than the number changes nothing.
pub itoa_from_enough :
    (f g n : ℕ) (acc : Bytes) → n < f → n < g → itoa_from f n acc ≡ itoa_from g n acc
unfolding itoa_from
itoa_from_enough zero g n acc h k = absurd (omega arith)
itoa_from_enough (suc f) zero n acc h k = absurd (omega arith)
itoa_from_enough (suc f) (suc g) n acc h k = elim (Bool-cases (ltb n 10)) [
  | inl y ↦ rw (y, itoa_from) refl
  | inr m ↦
      rw (m, itoa_from)
        (itoa_from_enough f g (n / 10) (digit (n % 10) ∷ acc) (ground arith) (ground arith))
]

-- ===== src/Adapter/Timeout/Exact.antt =====
-- grpcadapter/forwarder.go: a well-formed timeout is decoded to its duration, or to the longest one.
use grpcbridge.Base.{
  ℕ, zero, suc, ◌+◌, ◌-◌, ◌*◌, ◌≤◌, ◌<◌, ◌==◌, ltb, ◌≡◌, refl, ap, ◌∙◌, if◌then◌else◌, [], ◌∷◌,
  ◌++◌, Option, none, some, Bool, false, ◌||◌, Bytes, length, length-append, arith, All, inl, inr,
  ◌⊎◌,
}
use grpcbridge.Adapter.Timeout.{
  max_int64, hour, timeout_unit_to_duration, digits_from, digits, signed, parse_int, times,
  exceeds_hours, scaled, with_unit, but_last, last_byte, decode_timeout,
}

abbrev pub IsDigit : ℕ → Type 0
IsDigit c = (b'0' ≤ c) × (c ≤ b'9')

-- The number that digits stand for.
abbrev pub value_from : ℕ → Bytes → ℕ
value_from acc [] = acc
value_from acc (c ∷ s) = value_from (acc * 10 + (c - b'0')) s

abbrev pow10 : ℕ → ℕ
pow10 zero = 1
pow10 (suc n) = 10 * pow10 n

digits_from_lem :
    (acc : ℕ) (s : Bytes) → All IsDigit s → digits_from acc s ≡ some (value_from acc s)
unfolding digits_from
digits_from_lem acc [] h = refl
digits_from_lem acc (c ∷ s) h = ground (arith, digits_from_lem (acc * 10 + (c - b'0')) s)

mul_mono : (a b p : ℕ) → a ≤ b → a * p ≤ b * p
mul_mono a b p h = grind arith

bound_step : (acc d p v : ℕ) → d ≤ 9 → v < (acc * 10 + d + 1) * p → v < (acc + 1) * (10 * p)
bound_step acc d p v h k =
    grind (arith, mul_mono (acc * 10 + d + 1) (acc * 10 + 10) p (omega arith))

value_from_bound :
    (acc : ℕ) (s : Bytes) → All IsDigit s → value_from acc s < (acc + 1) * pow10 (length s)
value_from_bound acc [] h = omega arith
value_from_bound acc (c ∷ s) h =
    bound_step acc (c - b'0') (pow10 (length s)) _ (omega arith)
      (value_from_bound (acc * 10 + (c - b'0')) s h.1)

pow10_mono : (n : ℕ) → n ≤ 8 → pow10 n ≤ 100000000
pow10_mono zero h = omega arith
pow10_mono (suc zero) h = omega arith
pow10_mono (suc (suc zero)) h = omega arith
pow10_mono (suc (suc (suc zero))) h = omega arith
pow10_mono (suc (suc (suc (suc zero)))) h = omega arith
pow10_mono (suc (suc (suc (suc (suc zero))))) h = omega arith
pow10_mono (suc (suc (suc (suc (suc (suc zero)))))) h = omega arith
pow10_mono (suc (suc (suc (suc (suc (suc (suc zero))))))) h = omega arith
pow10_mono (suc (suc (suc (suc (suc (suc (suc (suc zero)))))))) h = omega arith
pow10_mono (suc (suc (suc (suc (suc (suc (suc (suc (suc n))))))))) h = absurd (omega arith)

but_last-snoc : (s : Bytes) (u : ℕ) → but_last (s ++ u ∷ []) ≡ s
but_last-snoc [] u = refl
but_last-snoc (c ∷ []) u = refl
but_last-snoc (c ∷ d ∷ s) u = ap (◌∷◌ c) (but_last-snoc (d ∷ s) u)

last_byte-snoc : (s : Bytes) (u : ℕ) → last_byte (s ++ u ∷ []) ≡ u
last_byte-snoc [] u = refl
last_byte-snoc (c ∷ []) u = refl
last_byte-snoc (c ∷ d ∷ s) u = last_byte-snoc (d ∷ s) u

-- The duration of a unit.
abbrev pub unit_of : ℕ → ℕ
unit_of u =
    if u == b'H'
    then hour
    else if u == b'M'
    then 60000000000
    else if u == b'S'
    then 1000000000
    else if u == b'm'
    then 1000000
    else if u == b'u'
    then 1000
    else 1

abbrev pub IsUnit : ℕ → Type 0
IsUnit u = (u ≡ b'H') ⊎ ((u ≡ b'M') ⊎ ((u ≡ b'S') ⊎ ((u ≡ b'm') ⊎ ((u ≡ b'u') ⊎ (u ≡ b'n')))))

unit_known : (u : ℕ) → IsUnit u → timeout_unit_to_duration u ≡ some (unit_of u)
unfolding timeout_unit_to_duration
unit_known u h = ground arith

-- The smaller of the true duration and the longest one.
abbrev pub saturated : ℕ → ℕ
saturated d = if ltb max_int64 d then max_int64 else d

scaled_exact :
    (u v : ℕ)
    → IsUnit u
    → v < 100000000
    → scaled (unit_of u) (some (false, v)) ≡ some (saturated (unit_of u * v))
unfolding scaled exceeds_hours times
scaled_exact u v (inl e) k = rw e (ground arith)
scaled_exact u v (inr (inl e)) k = rw e (ground arith)
scaled_exact u v (inr (inr (inl e))) k = rw e (ground arith)
scaled_exact u v (inr (inr (inr (inl e)))) k = rw e (ground arith)
scaled_exact u v (inr (inr (inr (inr (inl e))))) k = rw e (ground arith)
scaled_exact u v (inr (inr (inr (inr (inr e))))) k = rw e (ground arith)

digit_no_sign :
    (c : ℕ) (s : Bytes)
    → All IsDigit (c ∷ s)
    → parse_int (c ∷ s) ≡ some (false, value_from 0 (c ∷ s))
unfolding parse_int signed digits
digit_no_sign c s h = ground (arith, digits_from_lem 0 (c ∷ s) h)

-- A timeout of 1 to 8 digits and a unit is decoded to its duration in nanoseconds, and to the
-- longest duration of 64 bits if that is smaller.
pub decode_timeout_exact :
    (c : ℕ) (s : Bytes) (u : ℕ)
    → All IsDigit (c ∷ s)
    → length s ≤ 7
    → IsUnit u
    → decode_timeout ((c ∷ s) ++ u ∷ []) ≡ some (saturated (unit_of u * value_from 0 (c ∷ s)))
unfolding decode_timeout with_unit
decode_timeout_exact c s u h l k =
    let text = (c ∷ s) ++ u ∷ [] in
    let fits : (ltb (length text) 2 || ltb 9 (length text)) ≡ false =
      ground (arith, length-append s (u ∷ [])) in
    let small : value_from 0 (c ∷ s) < 100000000 =
      omega (arith, value_from_bound 0 (c ∷ s) h, pow10_mono (length (c ∷ s)) (omega arith)) in
    ap
      (λ (b : Bool).
        if b then none else with_unit (timeout_unit_to_duration (last_byte text)) (but_last text))
      fits
    ∙ ap (λ (x : ℕ). with_unit (timeout_unit_to_duration x) (but_last text))
        (last_byte-snoc (c ∷ s) u)
    ∙ ap (λ (x : Bytes). with_unit (timeout_unit_to_duration u) x) (but_last-snoc (c ∷ s) u)
    ∙ ap (λ (d : Option ℕ). with_unit d (c ∷ s)) (unit_known u k)
    ∙ ap (scaled (unit_of u)) (digit_no_sign c s h)
    ∙ scaled_exact u (value_from 0 (c ∷ s)) k small

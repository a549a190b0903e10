-- ===== src/Web/Framing/RoundTrip.antt =====
-- webbridge/grpcweb.go: what is read back of framed messages.
use grpcbridge.Base.{
  ℕ, zero, suc, ◌≤◌, ◌<◌, ltb, ◌≡◌, refl, ap, ◌∙◌, if◌then◌else◌, List, [], ◌∷◌, ◌++◌, Option, none,
  some, Bool, false, Bytes, length, length-append, take, drop, take-append, arith,
}
use grpcbridge.Rpc.{Err, eof}
use grpcbridge.Web.Framing.{
  Codec, put_uint32, frame, Body, full, short_read, read_full, max_message, min, length_field, Recv,
  received, recv_error, recv, recv_header, recv_data, decoded, lpm_message,
}

pub drop-append : (s t : Bytes) → drop (length s) (s ++ t) ≡ t
drop-append [] t = refl
drop-append (x ∷ s) t = drop-append s t

-- A read that the body can serve.
read_full_served :
    (s t : Bytes) (f : Bool)
    → read_full (length s) (record { left = s ++ t; fails = f })
      ≡ full s (record { left = t; fails = f })
unfolding read_full
read_full_served s t f = ground (arith, length-append s t, take-append s t, drop-append s t)

take-prefix : (n : ℕ) (s t : Bytes) → n ≤ length s → take n (s ++ t) ≡ take n s
take-prefix zero s t h = refl
take-prefix (suc n) [] t h = absurd (omega arith)
take-prefix (suc n) (x ∷ s) t h = ap (◌∷◌ x) (take-prefix n s t (omega arith))

drop-prefix : (n : ℕ) (s t : Bytes) → n ≤ length s → drop n (s ++ t) ≡ drop n s ++ t
drop-prefix zero s t h = refl
drop-prefix (suc n) [] t h = absurd (omega arith)
drop-prefix (suc n) (x ∷ s) t h = drop-prefix n s t (omega arith)

-- A read of a part.
read_full_part :
    (n : ℕ) (s t : Bytes) (f : Bool)
    → n ≤ length s
    → read_full n (record { left = s ++ t; fails = f })
      ≡ full (take n s) (record { left = drop n s ++ t; fails = f })
unfolding read_full
read_full_part n s t f h = ground (arith, length-append s t, take-prefix n s t, drop-prefix n s t)

if_filled {ℓ} : {A : Type ℓ} (n : ℕ) (x y : A) → 0 < n → (if ltb n 1 then x else y) ≡ y
if_filled n x y h = ground arith

min_small : (n m : ℕ) → n ≤ m → min n m ≡ n
min_small n m h = ground arith

min_large : (n m : ℕ) → m < n → min n m ≡ m
min_large n m h = ground arith

-- The length is read back, below the word's range.
length_field-put_uint32 : (flag n : ℕ) → n < 4294967296 → length_field (flag ∷ put_uint32 n) ≡ n
length_field-put_uint32 flag n h = omega arith

module _ (codec : Codec) where
  open codec use {Msg, new_msg, marshal, unmarshal, unmarshal-marshal, marshal_new}

  recv-frame :
      (msg : Msg) (flag : ℕ) (payload rest : Bytes) (f : Bool)
      → length payload < 4294967296
      → recv codec msg (record { left = frame flag payload ++ rest; fails = f }) ≡ (
          if ltb (length payload) 1
          then (received msg, record { left = payload ++ rest; fails = f })
          else recv_data codec (
              read_full
                (min (length payload) max_message)
                (record { left = payload ++ rest; fails = f })))
  unfolding recv recv_header
  recv-frame msg flag payload rest f h =
      ap (recv_header codec msg)
        (read_full_served (flag ∷ put_uint32 (length payload)) (payload ++ rest) f)
      ∙ read_header
    where
      read_header :
          recv_header codec msg (
            full
              (flag ∷ put_uint32 (length payload))
              (record { left = payload ++ rest; fails = f }))
          ≡ (if ltb (length payload) 1
              then (received msg, record { left = payload ++ rest; fails = f })
              else recv_data codec (
                  read_full
                    (min (length payload) max_message)
                    (record { left = payload ++ rest; fails = f })))
      read_header = rw (length_field-put_uint32 flag (length payload) h)

  -- A message of at most 4 MB is read back, and the body stands behind its frame.
  pub recv-lpm_message :
      (m : Msg) (payload rest : Bytes) (f : Bool)
      → marshal m ≡ some payload
      → length payload ≤ max_message
      → (lpm_message codec m ≡ some (frame 0 payload))
        × (recv codec new_msg (record { left = frame 0 payload ++ rest; fails = f })
            ≡ (received m, record { left = rest; fails = f }))
  unfolding lpm_message recv_data decoded
  recv-lpm_message m [] rest f e h =
      (rw e refl, recv-frame new_msg 0 [] rest f (omega arith) ∙ rw (marshal_new m e) refl)
  recv-lpm_message m (c ∷ s) rest f e h = (
    rw e refl,
    recv-frame new_msg 0 (c ∷ s) rest f (omega arith)
        ∙ if_filled (length (c ∷ s)) _ _ (omega arith)
        ∙ ap
            (λ (n : ℕ).
              recv_data codec (read_full n (record { left = c ∷ (s ++ rest); fails = f })))
            (min_small (length (c ∷ s)) max_message h)
        ∙ ap (recv_data codec) (read_full_served (c ∷ s) rest f)
        ∙ rw (unmarshal-marshal m (c ∷ s) e) refl,
  )

  -- Of a framed message of more than 4 MB whose length fits into 32 bits, only the first 4 MB are
  -- read and decoded, and the body then stands inside the message.
  pub recv_long :
      (msg : Msg) (payload rest : Bytes) (f : Bool)
      → max_message < length payload
      → length payload < 4294967296
      → recv codec msg (record { left = frame 0 payload ++ rest; fails = f }) ≡ (
        decoded codec (unmarshal (take max_message payload)),
        record { left = drop max_message payload ++ rest; fails = f },
      )
  unfolding recv_data
  recv_long msg payload rest f h k =
      recv-frame msg 0 payload rest f k
      ∙ if_filled (length payload) _ _ (omega arith)
      ∙ ap (λ (n : ℕ). recv_data codec (read_full n (record { left = payload ++ rest; fails = f })))
          (min_large (length payload) max_message h)
      ∙ ap (recv_data codec) (read_full_part max_message payload rest f (omega arith))

  abbrev after : Recv codec → List Msg × Option Err → List Msg × Option Err
  after (received m) rest = (m ∷ rest.0, rest.1)
  after (recv_error e) rest = ([], some e)

  -- What Recv gives until it fails, for at most n calls.
  unfoldable pub recv_all : ℕ → Body → List Msg × Option Err
  recv_all zero body = ([], none)
  recv_all (suc n) body = let r = recv codec new_msg body in after r.0 (recv_all n r.1)

  -- The frames of messages that can be encoded in at most 4 MB each.
  pub data Frames : List Msg → Bytes → Type 0 where
    no_frames : Frames [] []
    next_frame :
        (m : Msg) (ms : List Msg) (payload rest : Bytes)
        → marshal m ≡ some payload
        → length payload ≤ max_message
        → Frames ms rest
        → Frames (m ∷ ms) (frame 0 payload ++ rest)

  recv_at_end :
      recv codec new_msg (record { left = []; fails = false })
      ≡ (recv_error eof, record { left = []; fails = false })
  unfolding recv recv_header read_full short_read
  recv_at_end = refl

  recv_all_step :
      (n : ℕ) (m : Msg) (ms : List Msg) (b c : Body)
      → recv codec new_msg b ≡ (received m, c)
      → recv_all n c ≡ (ms, some eof)
      → recv_all (suc n) b ≡ (m ∷ ms, some eof)
  unfolding recv_all
  recv_all_step n m ms b c e r =
      ap (λ (x : Recv codec × Body). after x.0 (recv_all n x.1)) e ∙ ap (after (received m)) r

  -- A body of framed messages of at most 4 MB, for a codec that reads back what it writes, is
  -- received as these messages, in order, and then the end of the stream.
  pub recv_all-Frames :
      (ms : List Msg) (body : Bytes)
      → Frames ms body
      → recv_all (suc (length ms)) (record { left = body; fails = false }) ≡ (ms, some eof)
  unfolding recv_all
  recv_all-Frames _ _ no_frames =
      ap (λ (x : Recv codec × Body). after x.0 (recv_all 0 x.1)) recv_at_end
  recv_all-Frames _ _ (next_frame m ms payload rest e h fs) =
      recv_all_step (suc (length ms)) m ms _ _ (recv-lpm_message m payload rest false e h).1
        (recv_all-Frames ms rest fs)

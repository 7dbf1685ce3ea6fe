-- ===== src/Encodings/Frames.antt =====
-- `send_text_frame` and `read_text_frame` (src/studio_host.cpp). A socket is the bytes that it still has
-- to give.
use streammate_studio_host.Prelude.{
  ℕ, ◌+◌, ◌*◌, ◌/◌, ◌%◌, ◌^◌, ◌<◌, ◌≤◌, ◌≡◌, refl, sym, ap, ◌∙◌, Bool, true, false, not, Option,
  none, some, [], ◌∷◌, ◌++◌, ◌==◌, ltb, leb, if◌then◌else◌, Bytes, IsByte, IsText, arith, bit_xor,
  length, take, drop, length-append, suc, if_holds, ==_iff, ltb→lt,
}
use streammate_studio_host.Prelude.Maybe.{◌>>=◌}
use streammate_studio_host.Prelude.Tables.{passes, passes-lt}

-- The bytes of `len`, the highest first.
abbrev pub length_header : ℕ → Bytes
length_header len =
    if ltb len 126
    then len ∷ []
    else if leb len 0xFFFF
    then 126 ∷ len / 2 ^ 8 % 256 ∷ len % 256 ∷ []
    else 127
      ∷ len / 2 ^ 56 % 256
      ∷ len / 2 ^ 48 % 256
      ∷ len / 2 ^ 40 % 256
      ∷ len / 2 ^ 32 % 256
      ∷ len / 2 ^ 24 % 256
      ∷ len / 2 ^ 16 % 256
      ∷ len / 2 ^ 8 % 256
      ∷ len % 256
      ∷ []

-- The bytes that `send_all` is given.
unfoldable pub send_text_frame : Bytes → Bytes
send_text_frame payload = 0x81 ∷ (length_header (length payload) ++ payload)

-- `receive_exact`
unfoldable pub receive_exact : ℕ → Bytes → Option (Bytes × Bytes)
receive_exact n input = if ltb (length input) n then none else some (take n input, drop n input)

pub record Mask : Type 0 where
  pub m0 : ℕ
  pub m1 : ℕ
  pub m2 : ℕ
  pub m3 : ℕ

-- The mask's next byte comes first.
abbrev pub turned : Mask → Mask
turned m = record { m0 = m.m1; m1 = m.m2; m2 = m.m3; m3 = m.m0 }

unfoldable pub unmasked : Mask → Bytes → Bytes
unmasked m [] = []
unmasked m (c ∷ t) = bit_xor c m.m0 ∷ unmasked (turned m) t

-- The length of the payload with the rest: none for a length of 64 bits.
unfoldable pub payload_length : ℕ → Bytes → Option (ℕ × Bytes)
payload_length len (e0 ∷ e1 ∷ t) =
    if len == 126
    then some (e0 * 2 ^ 8 + e1, t)
    else if len == 127
    then none
    else some (len, e0 ∷ e1 ∷ t)
payload_length len t = if leb 126 len then none else some (len, t)

unfoldable pub mask_at : Bool → Bytes → Option (Option Mask × Bytes)
mask_at false t = some (none, t)
mask_at true (m0 ∷ m1 ∷ m2 ∷ m3 ∷ t) =
    some (some (record { m0 = m0; m1 = m1; m2 = m2; m3 = m3 }), t)
mask_at true _ = none

unfoldable pub text_of : ℕ → Option Mask → Bytes → Option Bytes
unfolding unmasked
text_of opcode mask payload =
    if opcode == 8
    then none
    else if not (opcode == 1)
    then some []
    else elim mask [ none ↦ some payload | some m ↦ some (unmasked m payload) ]

-- The text of a frame with what the socket still has, or `none` where the connection ends.
unfoldable pub read_text_frame : Bytes → Option (Bytes × Bytes)
unfolding payload_length mask_at receive_exact text_of
read_text_frame (h0 ∷ h1 ∷ t) = do
  len ← payload_length (h1 % 128) t
  mask ← mask_at (leb 128 h1) len.1
  payload ← receive_exact len.0 mask.1
  text ← text_of (h0 % 16) mask.0 payload.0
  some (text, payload.1)
read_text_frame _ = none

unmask_test : ℕ → Bool
unmask_test c = passes (λ m. bit_xor (bit_xor c m) m == c) 256

unmask_table : passes unmask_test 256 ≡ true
unfolding passes unmask_test
unmask_table = refl

unmask_byte : (c m : ℕ) → IsByte c → IsByte m → bit_xor (bit_xor c m) m ≡ c
unfolding unmask_test
unmask_byte c m hc hm = (==_iff (bit_xor (bit_xor c m) m) c).0 (
    passes-lt (λ x. bit_xor (bit_xor c x) x == c) 256 m hm
      (passes-lt unmask_test 256 c hc unmask_table))

abbrev pub IsMask : Mask → Type 0
IsMask m = IsByte m.m0 × IsByte m.m1 × IsByte m.m2 × IsByte m.m3

-- The mask takes itself off.
unmasked-unmasked : (m : Mask) (s : Bytes) → IsMask m → IsText s → unmasked m (unmasked m s) ≡ s
unfolding unmasked
unmasked-unmasked m [] k h = refl
unmasked-unmasked m (c ∷ s) (k0, k1, k2, k3) (hc, h) =
    rw (unmask_byte c m.m0 hc k0, unmasked-unmasked (turned m) s (k1, k2, k3, k0) h) refl

length-unmasked : (m : Mask) (s : Bytes) → length (unmasked m s) ≡ length s
unfolding unmasked
length-unmasked m [] = refl
length-unmasked m (c ∷ s) = ap suc (length-unmasked (turned m) s)

take-append_own : (a rest : Bytes) → take (length a) (a ++ rest) ≡ a
take-append_own [] rest = refl
take-append_own (c ∷ a) rest = ap (λ x. c ∷ x) (take-append_own a rest)

drop-append_own : (a rest : Bytes) → drop (length a) (a ++ rest) ≡ rest
drop-append_own [] rest = refl
drop-append_own (c ∷ a) rest = drop-append_own a rest

receive_exact-append : (a rest : Bytes) → receive_exact (length a) (a ++ rest) ≡ some (a, rest)
unfolding receive_exact
receive_exact-append a rest =
    if_holds (λ x. x ≡ some (a, rest)) (ltb (length (a ++ rest)) (length a))
      (λ short.
        absurd (omega (arith, length-append a rest, ltb→lt (length (a ++ rest)) (length a) short)))
      λ enough. rw (take-append_own a rest, drop-append_own a rest) refl

payload_length-short : (len : ℕ) (t : Bytes) → len < 126 → payload_length len t ≡ some (len, t)
unfolding payload_length
payload_length-short len [] h = ground arith
payload_length-short len (a ∷ []) h = ground arith
payload_length-short len (a ∷ b ∷ t) h = ground arith

-- A text frame of at most 65535 bytes as a client sends it, masked.
abbrev client_length : ℕ → Bytes
client_length len =
    if ltb len 126 then (128 + len) ∷ [] else 254 ∷ len / 2 ^ 8 % 256 ∷ len % 256 ∷ []

abbrev pub client_frame : Mask → Bytes → Bytes
client_frame m payload =
    0x81 ∷ (client_length (length payload) ++ m.m0 ∷ m.m1 ∷ m.m2 ∷ m.m3 ∷ unmasked m payload)

-- The end of a frame, once its length and its mask are read.
read_text_frame-body :
    (h1 : ℕ) (t t1 body rest : Bytes) (mask : Option Mask) (text : Bytes)
    → payload_length (h1 % 128) t ≡ some (length body, t1)
    → mask_at (leb 128 h1) t1 ≡ some (mask, body ++ rest)
    → text_of 1 mask body ≡ some text
    → read_text_frame (0x81 ∷ h1 ∷ t) ≡ some (text, rest)
unfolding read_text_frame
read_text_frame-body h1 t t1 body rest mask text l k e =
    rw (l, k, receive_exact-append body rest, e) refl

same_byte : (x y : ℕ) (t : Bytes) → x ≡ y → x ∷ t ≡ y ∷ t
same_byte x y t e = ap (λ z. z ∷ t) e

payload_length-long :
    (len : ℕ) (t : Bytes)
    → len ≤ 65535
    → payload_length 126 (len / 2 ^ 8 % 256 ∷ len % 256 ∷ t) ≡ some (len, t)
unfolding payload_length
payload_length-long len t h =
    let e : len / 2 ^ 8 % 256 * 2 ^ 8 + len % 256 ≡ len = omega arith in ap (λ x. some (x, t)) e

-- What `send_text_frame` writes, `read_text_frame` reads: the payload of at most 65535 bytes comes
-- back, and what follows the frame is left on the socket.
pub read_text_frame-send_text_frame :
    (payload rest : Bytes)
    → length payload ≤ 65535
    → read_text_frame (send_text_frame payload ++ rest) ≡ some (payload, rest)
unfolding send_text_frame mask_at text_of
read_text_frame-send_text_frame payload rest h =
    if_holds (λ x. read_text_frame (0x81 ∷ ((x ++ payload) ++ rest)) ≡ some (payload, rest))
      (ltb (length payload) 126)
      (λ short.
        let less : length payload < 126 = ltb→lt (length payload) 126 short in
        let e : length payload % 128 ≡ length payload = omega arith in
        let unmarked : leb 128 (length payload) ≡ false = ground arith in
        read_text_frame-body (length payload) (payload ++ rest) (payload ++ rest) payload rest none
          payload
          (ap (λ l. payload_length l (payload ++ rest)) e
            ∙ payload_length-short (length payload) (payload ++ rest) less)
          (ap (λ b. mask_at b (payload ++ rest)) unmarked) refl)
      λ long.
        if_holds (λ x. read_text_frame (0x81 ∷ ((x ++ payload) ++ rest)) ≡ some (payload, rest))
          (leb (length payload) 0xFFFF)
          (λ fits.
            read_text_frame-body 126
              (length payload / 2 ^ 8 % 256 ∷ length payload % 256 ∷ (payload ++ rest))
              (payload ++ rest) payload rest none payload
              (payload_length-long (length payload) (payload ++ rest) h) refl refl)
          λ over. absurd (ground arith)

-- What a client masks, `read_text_frame` unmasks: whatever the four bytes of the mask are, the payload
-- of at most 65535 bytes comes back, and what follows the frame is left on the socket.
pub read_text_frame-client_frame :
    (m : Mask) (payload rest : Bytes)
    → IsMask m
    → IsText payload
    → length payload ≤ 65535
    → read_text_frame (client_frame m payload ++ rest) ≡ some (payload, rest)
unfolding mask_at text_of
read_text_frame-client_frame m payload rest k b h =
    if_holds
      (λ x.
        read_text_frame (0x81 ∷ ((x ++ m.m0 ∷ m.m1 ∷ m.m2 ∷ m.m3 ∷ unmasked m payload) ++ rest))
        ≡ some (payload, rest))
      (ltb (length payload) 126)
      (λ short.
        let less : length payload < 126 = ltb→lt (length payload) 126 short in
        let e : (128 + length payload) % 128 ≡ length (unmasked m payload) =
          omega (arith, length-unmasked m payload) in
        let marked : leb 128 (128 + length payload) ≡ true = ground arith in
        let body_less : length (unmasked m payload) < 126 =
          omega (arith, length-unmasked m payload) in
        read_text_frame-body (128 + length payload) behind behind (unmasked m payload) rest (some m)
          payload
          (ap (λ l. payload_length l behind) e
            ∙ payload_length-short (length (unmasked m payload)) behind body_less)
          (ap (λ b. mask_at b behind) marked) (ap some (unmasked-unmasked m payload k b)))
      λ long.
        read_text_frame-body 254 (length payload / 2 ^ 8 % 256 ∷ length payload % 256 ∷ behind)
          behind (unmasked m payload) rest (some m) payload
          (payload_length-long (length payload) behind h
            ∙ ap (λ l. some (l, behind)) (sym (length-unmasked m payload)))
          refl (ap some (unmasked-unmasked m payload k b))
  where
    behind : Bytes
    behind = m.m0 ∷ m.m1 ∷ m.m2 ∷ m.m3 ∷ (unmasked m payload ++ rest)

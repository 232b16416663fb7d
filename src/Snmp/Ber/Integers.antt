-- ===== src/Snmp/Ber/Integers.antt =====
-- The integer contents of BER: what the encoders write is read back, at every value.
use native.Mathlib.Nat.{pow-suc}
use wireguardd.Base.{
  ltb, leb, ◌==◌, if◌then◌else◌, Bool-cases, ltb→lt, length, All, length-append, All-append, Bytes,
  IsByte, top_bit, ℕ, zero, suc, ◌+◌, ◌-◌, ◌*◌, ◌/◌, ◌%◌, ◌^◌, ◌≤◌, ◌<◌, ◌≡◌, refl, ap, ◌∙◌, ◌⊎◌,
  inl, inr, true, false, ◌&&◌, [], ◌∷◌, ◌++◌, arith,
}
use wireguardd.Snmp.Ber.{ok}
use wireguardd.Snmp.Ber.Encode.{
  be_bytes, top_set, skip_zeros, skip_ones, unsigned_content, integer_content,
}
use wireguardd.Snmp.Ber.Decode.{shift_in, decode_integer_content, decode_unsigned_content}

pub shift_in-append : (v : ℕ) (xs ys : Bytes) → shift_in v (xs ++ ys) ≡ shift_in (shift_in v xs) ys
unfolding shift_in
shift_in-append v [] ys = refl
shift_in-append v (x ∷ xs) ys = shift_in-append ((v * 2 ^ 8 + x) % 2 ^ 64) xs ys

shift_in_one : (v b : ℕ) → shift_in v (b ∷ []) ≡ (v * 2 ^ 8 + b) % 2 ^ 64
unfolding shift_in
shift_in_one v b = refl

shift_in_zero : (bs : Bytes) → shift_in 0 (0 ∷ bs) ≡ shift_in 0 bs
unfolding shift_in
shift_in_zero bs = refl

-- Big-endian bytes shifted into any start value.
shift_in-be_bytes :
    (n acc v : ℕ)
    → v < 256 ^ n
    → shift_in acc (be_bytes n v) % 2 ^ 64 ≡ (acc * 256 ^ n + v) % 2 ^ 64
unfolding shift_in be_bytes
shift_in-be_bytes zero acc v h = omega arith
shift_in-be_bytes (suc n) acc v h = rw shift_in-append (
    omega (
      arith,
      shift_in-be_bytes n acc (v / 256) (omega (arith, pow-suc 256 n)),
      ap (λ (t : ℕ). acc * t) (pow-suc 256 n),
      shift_in_one (shift_in acc (be_bytes n (v / 256))) (v % 256),
    ))

length-be_bytes : (n v : ℕ) → length (be_bytes n v) ≡ n
unfolding be_bytes
length-be_bytes zero v = refl
length-be_bytes (suc n) v =
    omega
      (arith, length-be_bytes n (v / 256), length-append (be_bytes n (v / 256)) ((v % 256) ∷ []))

be_bytes-IsByte : (n v : ℕ) → All IsByte (be_bytes n v)
unfolding be_bytes
be_bytes-IsByte zero v = tt
be_bytes-IsByte (suc n) v =
    All-append IsByte (be_bytes n (v / 256)) ((v % 256) ∷ []) (be_bytes-IsByte n (v / 256))
      (omega arith)

shift_in-skip_zeros : (bs : Bytes) → shift_in 0 (skip_zeros bs) ≡ shift_in 0 bs
unfolding shift_in skip_zeros
shift_in-skip_zeros [] = refl
shift_in-skip_zeros (b ∷ []) = refl
shift_in-skip_zeros (b ∷ c ∷ rest) = ground (arith, shift_in-skip_zeros (c ∷ rest))

shift_in-skip_ones : (bs : Bytes) → shift_in (2 ^ 64 - 1) (skip_ones bs) ≡ shift_in (2 ^ 64 - 1) bs
unfolding shift_in skip_ones
shift_in-skip_ones [] = refl
shift_in-skip_ones (b ∷ []) = refl
shift_in-skip_ones (b ∷ c ∷ rest) = ground (arith, shift_in-skip_ones (c ∷ rest))

-- A shorter content than the buffer, with room for the byte in front.
length-skip_zeros :
    (bs : Bytes)
    → (length (skip_zeros bs) ≤ length bs)
      × ((length (skip_zeros bs) < length bs) ⊎ (skip_zeros bs ≡ bs))
unfolding skip_zeros
length-skip_zeros [] = (omega arith, inr refl)
length-skip_zeros (b ∷ []) = (omega arith, inr refl)
length-skip_zeros (b ∷ c ∷ rest) = ground (arith, length-skip_zeros (c ∷ rest))

length-skip_ones : (bs : Bytes) → length (skip_ones bs) ≤ length bs
unfolding skip_ones
length-skip_ones [] = omega arith
length-skip_ones (b ∷ []) = omega arith
length-skip_ones (b ∷ c ∷ rest) = ground (arith, length-skip_ones (c ∷ rest))

-- `top_set` survives the skip of 0xff bytes before a set bit.
top_set-skip_ones : (bs : Bytes) → top_set bs ≡ true → top_set (skip_ones bs) ≡ true
unfolding top_set skip_ones
top_set-skip_ones [] h = h
top_set-skip_ones (b ∷ []) h = h
top_set-skip_ones (b ∷ c ∷ rest) h = ground (arith, top_set-skip_ones (c ∷ rest))

shift_in-lt : (v : ℕ) (bs : Bytes) → v < 2 ^ 64 → shift_in v bs < 2 ^ 64
unfolding shift_in
shift_in-lt v [] h = h
shift_in-lt v (b ∷ bs) h = shift_in-lt ((v * 2 ^ 8 + b) % 2 ^ 64) bs (omega arith)

shift_in-be_bytes_eight : (acc v : ℕ) → acc < 2 ^ 64 → v < 2 ^ 64 → shift_in acc (be_bytes 8 v) ≡ v
shift_in-be_bytes_eight acc v ha h =
    omega (arith, shift_in-be_bytes 8 acc v (omega arith), shift_in-lt acc (be_bytes 8 v) ha)

shift_in-be_bytes_four : (v : ℕ) → v < 2 ^ 32 → shift_in 0 (be_bytes 4 v) ≡ v
shift_in-be_bytes_four v h =
    omega (arith, shift_in-be_bytes 4 0 v (omega arith), shift_in-lt 0 (be_bytes 4 v) (omega arith))

skip_zeros-cons : (b : ℕ) (bs : Bytes) → (c : ℕ) × (cs : Bytes) × (skip_zeros (b ∷ bs) ≡ c ∷ cs)
unfolding skip_zeros
skip_zeros-cons b [] = (b, [], refl)
skip_zeros-cons b (c ∷ rest) = elim (Bool-cases (b == 0)) [
  | inl e ↦ rw e (skip_zeros-cons c rest)
  | inr e ↦ (b, c ∷ rest, rw e)
]

skip_ones-cons : (b : ℕ) (bs : Bytes) → (c : ℕ) × (cs : Bytes) × (skip_ones (b ∷ bs) ≡ c ∷ cs)
unfolding skip_ones
skip_ones-cons b [] = (b, [], refl)
skip_ones-cons b (c ∷ rest) = elim (Bool-cases ((b == 0xff) && top_set (c ∷ rest))) [
  | inl e ↦ rw e (skip_ones-cons c rest)
  | inr e ↦ (b, c ∷ rest, rw e)
]

-- The zero that the unsigned decoder skips adds nothing.
decode_unsigned_content-cons :
    (b : ℕ) (bs : Bytes) → decode_unsigned_content (b ∷ bs) ≡ ok (shift_in 0 (b ∷ bs))
unfolding decode_unsigned_content shift_in
decode_unsigned_content-cons b bs = ground arith

unsigned_content_decodes :
    (b : ℕ) (bs : Bytes)
    → decode_unsigned_content (unsigned_content (b ∷ bs)) ≡ ok (shift_in 0 (b ∷ bs))
unfolding unsigned_content
unsigned_content_decodes b bs =
    let (c, cs, e) = skip_zeros-cons b bs in
    ground (
      arith,
      decode_unsigned_content-cons 0 (c ∷ cs),
      decode_unsigned_content-cons c cs,
      shift_in-skip_zeros (b ∷ bs),
      shift_in_zero (c ∷ cs),
    )

-- A Counter64 content is read back at every uint64.
pub decode_unsigned-be_bytes_eight :
    (v : ℕ) → v < 2 ^ 64 → decode_unsigned_content (unsigned_content (be_bytes 8 v)) ≡ ok v
decode_unsigned-be_bytes_eight v h =
    unfold be_bytes in
    unsigned_content_decodes _ _ ∙ ap ok (shift_in-be_bytes_eight 0 v (omega arith) h)

pub decode_unsigned-be_bytes_four :
    (v : ℕ) → v < 2 ^ 32 → decode_unsigned_content (unsigned_content (be_bytes 4 v)) ≡ ok v
decode_unsigned-be_bytes_four v h =
    unfold be_bytes in unsigned_content_decodes _ _ ∙ ap ok (shift_in-be_bytes_four v h)

decode_integer_content-eq :
    (c : Bytes)
    → 1 ≤ length c
    → length c ≤ 8
    → decode_integer_content c ≡ ok (shift_in (if top_set c then 2 ^ 64 - 1 else 0) c)
unfolding decode_integer_content top_set
decode_integer_content-eq [] h k = absurd (omega arith)
decode_integer_content-eq (b ∷ bs) h k = ground arith

top_set-be_bytes : (v : ℕ) → v < 2 ^ 64 → top_set (be_bytes 8 v) ≡ leb (2 ^ 63) v
unfolding top_set be_bytes
top_set-be_bytes v h = ground (arith, top_bit (v / 256 / 256 / 256 / 256 / 256 / 256 / 256 % 256))

skip_zeros_pos : (bs : Bytes) → 1 ≤ length bs → 1 ≤ length (skip_zeros bs)
skip_zeros_pos [] h = absurd (omega arith)
skip_zeros_pos (b ∷ bs) h = let (c, cs, e) = skip_zeros-cons b bs in rw e (omega arith)

skip_ones_pos : (bs : Bytes) → 1 ≤ length bs → 1 ≤ length (skip_ones bs)
skip_ones_pos [] h = absurd (omega arith)
skip_ones_pos (b ∷ bs) h = let (c, cs, e) = skip_ones-cons b bs in rw e (omega arith)

-- The zero in front fits: only a buffer that has lost a byte can need it.
length-unsigned_content :
    (bs : Bytes)
    → top_set bs ≡ false
    → 1 ≤ length bs
    → (1 ≤ length (unsigned_content bs)) × (length (unsigned_content bs) ≤ length bs)
unfolding unsigned_content
length-unsigned_content bs t h = ground (arith, length-skip_zeros bs, skip_zeros_pos bs)

-- After the prefix the first bit is clear.
top_set-unsigned_content : (bs : Bytes) → top_set (unsigned_content bs) ≡ false
unfolding unsigned_content top_set
top_set-unsigned_content bs = ground arith

shift_in-unsigned_content : (bs : Bytes) → shift_in 0 (unsigned_content bs) ≡ shift_in 0 bs
unfolding unsigned_content
shift_in-unsigned_content bs = ground (arith, shift_in-skip_zeros bs, shift_in_zero (skip_zeros bs))

integer_content_positive :
    (v : ℕ) → v < 2 ^ 63 → decode_integer_content (unsigned_content (be_bytes 8 v)) ≡ ok v
integer_content_positive v h =
    let bs = be_bytes 8 v in
    let n = length-be_bytes 8 v in
    let t : top_set bs ≡ false = top_set-be_bytes v (omega arith) ∙ ltb-leb v h in
    let (lo, hi) = length-unsigned_content bs t (omega arith) in
    decode_integer_content-eq (unsigned_content bs) lo (omega arith)
    ∙ rw (top_set-unsigned_content bs, shift_in-unsigned_content bs)
        (ap ok (shift_in-be_bytes_eight 0 v (omega arith) (omega arith)))
  where
    ltb-leb : (v : ℕ) → v < 2 ^ 63 → leb (2 ^ 63) v ≡ false
    ltb-leb v h = ground arith

integer_content_negative :
    (v : ℕ)
    → v < 2 ^ 64
    → leb (2 ^ 63) v ≡ true
    → decode_integer_content (skip_ones (be_bytes 8 v)) ≡ ok v
integer_content_negative v h e =
    let bs = be_bytes 8 v in
    let n = length-be_bytes 8 v in
    let t : top_set bs ≡ true = top_set-be_bytes v h ∙ e in
    decode_integer_content-eq (skip_ones bs) (skip_ones_pos bs (omega arith))
      (omega (arith, length-skip_ones bs))
    ∙ rw (top_set-skip_ones bs t, shift_in-skip_ones bs)
        (ap ok (shift_in-be_bytes_eight (2 ^ 64 - 1) v (omega arith) h))

-- Minimal two's complement is read back at every int64, given as its pattern.
pub decode_integer-integer_content :
    (v : ℕ) → v < 2 ^ 64 → decode_integer_content (integer_content v) ≡ ok v
unfolding integer_content
decode_integer-integer_content v h = elim (Bool-cases (ltb v (2 ^ 63))) [
  | inl e ↦ rw e (integer_content_positive v (ltb→lt v (2 ^ 63) e))
  | inr e ↦ rw e (integer_content_negative v h (ground arith))
]

decoded_length : (c : Bytes) (v : ℕ) → decode_integer_content c ≡ ok v → length c ≤ 8
unfolding decode_integer_content
decoded_length [] v e = cc
decoded_length (b ∷ bs) v e = ground arith

pub length-integer_content : (v : ℕ) → v < 2 ^ 64 → length (integer_content v) ≤ 8
length-integer_content v h =
    decoded_length (integer_content v) v (decode_integer-integer_content v h)

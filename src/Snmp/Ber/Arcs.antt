-- ===== src/Snmp/Ber/Arcs.antt =====
-- Object identifiers in BER: base-128 arcs, and the first byte that joins two arcs.
use mathlib.Core.List.{map-append}
use wireguardd.Base.{
  ltb, ◌==◌, Bool-cases, ltb→lt, lt→ltb, ltb→ge, ge→ltb, All, reverse-cons, reverse, Bytes,
  low_bits, top_bit, set_top_bit, ℕ, zero, suc, ◌+◌, ◌*◌, ◌/◌, ◌%◌, ◌^◌, ◌≤◌, ◌<◌, bit_and, bit_or,
  ◌≡◌, refl, ap, ◌∙◌, inl, inr, false, [], ◌∷◌, ◌++◌, map, append_assoc, arith,
}
use wireguardd.Snmp.Oid.{Oid}
use wireguardd.Snmp.Ber.Encode.{stack_groups, mark_groups, encode_base128, encode_arcs}
use wireguardd.Snmp.Ber.Decode.{decode_arcs}

abbrev marked : Bytes → Bytes
marked xs = map (λ b. bit_or b 0x80) xs

mark_groups-append : (xs : Bytes) (y : ℕ) → mark_groups (xs ++ y ∷ []) ≡ marked xs ++ y ∷ []
unfolding mark_groups
mark_groups-append [] y = refl
mark_groups-append (x ∷ []) y = refl
mark_groups-append (x ∷ c ∷ rest) y =
    ap (λ zs. bit_or x 0x80 ∷ zs) (mark_groups-append (c ∷ rest) y)

-- One byte with its top bit set carries on, one without ends the arc.
inner_byte :
    (v g : ℕ) (ys : Bytes)
    → g < 128
    → decode_arcs v (bit_or g 0x80 ∷ ys) ≡ decode_arcs ((v * 2 ^ 7 + g) % 2 ^ 64) ys
unfolding decode_arcs
inner_byte v g ys h =
    let low : bit_and (g + 128) 0x7f ≡ g = low_bits (g + 128) (omega arith) ∙ omega arith in
    let top : (bit_and (g + 128) 0x80 == 0) ≡ false = ground (arith, top_bit (g + 128)) in
    rw (set_top_bit g h, low, top)

last_byte :
    (v g : ℕ) (ys : Bytes)
    → g < 128
    → decode_arcs v (g ∷ ys) ≡ ((v * 2 ^ 7 + g) % 2 ^ 64) ∷ decode_arcs 0 ys
unfolding decode_arcs
last_byte v g ys h = ground (arith, low_bits g, top_bit g)

marked-reverse-cons :
    (x : ℕ) (xs ys : Bytes)
    → marked (reverse (x ∷ xs)) ++ ys ≡ marked (reverse xs) ++ bit_or x 0x80 ∷ ys
marked-reverse-cons x xs ys =
    ap (λ zs. marked zs ++ ys) (reverse-cons x xs)
    ∙ ap (λ zs. zs ++ ys) (map-append (λ b. bit_or b 0x80) (reverse xs) (x ∷ []))
    ∙ append_assoc (marked (reverse xs)) (bit_or x 0x80 ∷ []) ys

inner_groups :
    (fuel n : ℕ) (ys : Bytes)
    → n < 128 ^ fuel
    → n < 2 ^ 57
    → decode_arcs 0 (marked (reverse (stack_groups fuel n)) ++ ys) ≡ decode_arcs n ys
unfolding stack_groups
inner_groups zero n ys h k = ap (λ v. decode_arcs v ys) (omega arith)
inner_groups (suc fuel) n ys h k = elim (Bool-cases (ltb 0 n)) [
  | inl e ↦ rw e (
      ap (decode_arcs 0) (marked-reverse-cons (n % 128) (stack_groups fuel (n / 2 ^ 7)) ys)
      ∙ inner_groups fuel (n / 2 ^ 7) (bit_or (n % 128) 0x80 ∷ ys) (omega arith) (omega arith)
      ∙ inner_byte (n / 2 ^ 7) (n % 128) ys (omega arith)
      ∙ ap (λ v. decode_arcs v ys) (omega arith))
  | inr e ↦ rw e (ap (λ v. decode_arcs v ys) (omega (arith, ltb→ge 0 n e)))
]

encode_base128-wide :
    (n : ℕ)
    → 128 ≤ n
    → encode_base128 n ≡ marked (reverse (stack_groups 9 (n / 2 ^ 7))) ++ (n % 128) ∷ []
unfolding encode_base128
encode_base128-wide n h = rw (ge→ltb n 0x80 h) (
    ap mark_groups
      (ap reverse (first_group n h) ∙ reverse-cons (n % 128) (stack_groups 9 (n / 2 ^ 7)))
    ∙ mark_groups-append (reverse (stack_groups 9 (n / 2 ^ 7))) (n % 128))
  where
    first_group : (n : ℕ) → 128 ≤ n → stack_groups 10 n ≡ (n % 128) ∷ stack_groups 9 (n / 2 ^ 7)
    first_group n h = rw (lt→ltb 0 n (omega arith))

encode_base128-narrow : (n : ℕ) → n < 128 → encode_base128 n ≡ n ∷ []
unfolding encode_base128
encode_base128-narrow n h = rw (lt→ltb n 0x80 h) (ap (λ b. b ∷ []) (omega arith))

-- One arc is read back, and the rest is left to read.
decode_arcs-encode_base128 :
    (n : ℕ) (ys : Bytes)
    → n < 2 ^ 64
    → decode_arcs 0 (encode_base128 n ++ ys) ≡ n ∷ decode_arcs 0 ys
decode_arcs-encode_base128 n ys h = elim (Bool-cases (ltb n 0x80)) [
  | inl e ↦
      ap (λ zs. decode_arcs 0 (zs ++ ys)) (encode_base128-narrow n (ltb→lt n 0x80 e))
      ∙ last_byte 0 n ys (ltb→lt n 0x80 e)
      ∙ ap (λ v. v ∷ decode_arcs 0 ys) (omega arith)
  | inr e ↦
      ap (λ zs. decode_arcs 0 (zs ++ ys)) (encode_base128-wide n (ltb→ge n 0x80 e))
      ∙ ap (decode_arcs 0)
          (append_assoc (marked (reverse (stack_groups 9 (n / 2 ^ 7)))) ((n % 128) ∷ []) ys)
      ∙ inner_groups 9 (n / 2 ^ 7) ((n % 128) ∷ ys) (omega arith) (omega arith)
      ∙ last_byte (n / 2 ^ 7) (n % 128) ys (omega arith)
      ∙ ap (λ v. v ∷ decode_arcs 0 ys) (omega arith)
]

abbrev pub IsArc : ℕ → Type 0
IsArc n = n < 2 ^ 64

pub decode_arcs-encode_arcs : (oid : Oid) → All IsArc oid → decode_arcs 0 (encode_arcs oid) ≡ oid
unfolding encode_arcs
decode_arcs-encode_arcs [] h = unfold decode_arcs in refl
decode_arcs-encode_arcs (n ∷ rest) (h, hs) =
    decode_arcs-encode_base128 n (encode_arcs rest) h
    ∙ ap (λ zs. n ∷ zs) (decode_arcs-encode_arcs rest hs)

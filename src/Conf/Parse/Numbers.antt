-- ===== src/Conf/Parse/Numbers.antt =====
-- `Atoi` reads what `%d` prints.
use wireguardd.Base.{
  is_edge, starts_well, trim_space_none, parse_digits, IsDigit, parse_digits-format_uint,
  format_uint-IsDigit, format_uint_pos, leb, if-cases, length, All, is_space, format_uint,
  format_int, has_byte, length-reverse, All-reverse, reverse, Bytes, ℕ, ◌-◌, ◌^◌, ◌≤◌, ◌<◌, ◌≡◌,
  refl, ap, ◌∙◌, Bool, true, false, some, [], ◌∷◌, arith,
}
use wireguardd.Conf.Parse.{signed, magnitude, atoi, parse_int}
use wireguardd.Conf.Clean.{IsClean, starts_well-reverse_append}

digit_IsClean : (s : Bytes) → 1 ≤ length s → All IsDigit s → starts_well s ≡ true
unfolding is_edge is_space
digit_IsClean [] h k = absurd (omega arith)
digit_IsClean (c ∷ cs) h (k, ks) = ground arith

digits_no_newline : (s : Bytes) → All IsDigit s → has_byte b'\n' s ≡ false
unfolding has_byte
digits_no_newline [] h = refl
digits_no_newline (c ∷ cs) (h, hs) = ground (arith, digits_no_newline cs hs)

format_uint-IsClean : (n : ℕ) → IsClean (format_uint n)
format_uint-IsClean n = (
  digit_IsClean (format_uint n) (format_uint_pos n) (format_uint-IsDigit n),
  digit_IsClean (reverse (format_uint n))
      (omega (arith, length-reverse (format_uint n), format_uint_pos n))
      (All-reverse (λ c. IsDigit c) (format_uint n) (format_uint-IsDigit n)),
  digits_no_newline (format_uint n) (format_uint-IsDigit n),
)

minus-IsClean : (s : Bytes) → IsClean s → IsClean (b'-' ∷ s)
unfolding is_edge is_space has_byte
minus-IsClean s (h, k, l) = (refl, starts_well-reverse_append (b'-' ∷ []) s k, ground arith)

pub format_int-IsClean : (n : ℕ) → IsClean (format_int n)
unfolding format_int
format_int-IsClean n =
    if-cases IsClean (leb (2 ^ 63) n) _ _
      (λ e. minus-IsClean (format_uint (2 ^ 64 - n)) (format_uint-IsClean (2 ^ 64 - n)))
      (λ e. format_uint-IsClean n)

magnitude-digits :
    (neg : Bool) (s : Bytes)
    → 1 ≤ length s
    → magnitude neg s ≡ signed neg (parse_digits (2 ^ 64) 0 s)
unfolding magnitude
magnitude-digits neg [] h = absurd (omega arith)
magnitude-digits neg (c ∷ cs) h = refl

magnitude-format_uint :
    (neg : Bool) (n : ℕ) → n < 2 ^ 64 → magnitude neg (format_uint n) ≡ signed neg (some n)
magnitude-format_uint neg n h =
    magnitude-digits neg (format_uint n) (format_uint_pos n)
    ∙ ap (signed neg) (parse_digits-format_uint (2 ^ 64) n h h)

atoi-digits : (s : Bytes) → 1 ≤ length s → All IsDigit s → atoi s ≡ magnitude false s
unfolding atoi
atoi-digits [] h k = absurd (omega arith)
atoi-digits (c ∷ cs) h (k, ks) = ground arith

atoi-minus : (s : Bytes) → atoi (b'-' ∷ s) ≡ magnitude true s
unfolding atoi
atoi-minus s = refl

signed_neg : (n : ℕ) → 2 ^ 63 ≤ n → n < 2 ^ 64 → signed true (some (2 ^ 64 - n)) ≡ some n
signed_neg n h k = ground arith

signed_pos : (n : ℕ) → n < 2 ^ 63 → signed false (some n) ≡ some n
signed_pos n h = ground arith

pub atoi-format_int : (n : ℕ) → n < 2 ^ 64 → atoi (format_int n) ≡ some n
unfolding format_int
atoi-format_int n h =
    if-cases (λ s. atoi s ≡ some n) (leb (2 ^ 63) n) _ _
      (λ e.
        atoi-minus (format_uint (2 ^ 64 - n))
        ∙ magnitude-format_uint true (2 ^ 64 - n) (ground arith)
        ∙ signed_neg n (ground arith) h)
      (λ e.
        atoi-digits (format_uint n) (format_uint_pos n) (format_uint-IsDigit n)
        ∙ magnitude-format_uint false n h
        ∙ signed_pos n (ground arith))

pub parse_int-format_int : (n : ℕ) → n < 2 ^ 64 → parse_int (format_int n) ≡ some n
unfolding parse_int
parse_int-format_int n h =
    let (p, q, r) = format_int-IsClean n in
    ap atoi (trim_space_none (format_int n) p q) ∙ atoi-format_int n h

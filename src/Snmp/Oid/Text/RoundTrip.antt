-- ===== src/Snmp/Oid/Text/RoundTrip.antt =====
-- `parseOID` reads what `OID.String` prints.
use mathlib.Core.List.{reverse-append}
use wireguardd.Base.{
  true, is_edge, starts_well, trim_space_none, parse_digits, IsDigit, parse_digits-format_uint,
  format_uint-IsDigit, format_uint_pos, format_uint, is_space, trim_space, length, All,
  reverse-cons, length-reverse, All-reverse, reverse, Bytes, ℕ, ◌^◌, ◌≤◌, ◌<◌, ◌≡◌, refl, ap, ◌∙◌,
  some, List, [], ◌∷◌, ◌++◌, arith,
}
use wireguardd.Snmp.Oid.{Oid}
use wireguardd.Snmp.Oid.Text.{
  trim_dot, split_dots, parse_parts, parse_trimmed, parse_oid, oid_string,
}

-- The parts of a printed identifier.
abbrev printed : Oid → List Bytes
printed [] = []
printed (n ∷ rest) = format_uint n ∷ printed rest

split_dots-digits : (ds : Bytes) → All IsDigit ds → split_dots ds ≡ ds ∷ []
unfolding split_dots
split_dots-digits [] h = refl
split_dots-digits (d ∷ ds) (h, hs) = ground (arith, split_dots-digits ds hs)

split_dots-append :
    (ds rest : Bytes) → All IsDigit ds → split_dots (ds ++ b'.' ∷ rest) ≡ ds ∷ split_dots rest
unfolding split_dots
split_dots-append [] rest h = refl
split_dots-append (d ∷ ds) rest (h, hs) = ground (arith, split_dots-append ds rest hs)

split_dots-oid_string :
    (n : ℕ) (rest : Oid) → split_dots (oid_string (n ∷ rest)) ≡ printed (n ∷ rest)
unfolding oid_string
split_dots-oid_string n [] = split_dots-digits (format_uint n) (format_uint-IsDigit n)
split_dots-oid_string n (m ∷ rest) =
    split_dots-append (format_uint n) (oid_string (m ∷ rest)) (format_uint-IsDigit n)
    ∙ ap (λ ps. format_uint n ∷ ps) (split_dots-oid_string m rest)

abbrev pub IsSubId : ℕ → Type 0
IsSubId n = n < 2 ^ 32

parse_parts-cons :
    (ds : Bytes) (ps : List Bytes) (n : ℕ)
    → 1 ≤ length ds
    → parse_digits (2 ^ 32) 0 ds ≡ some n
    → parse_parts (ds ∷ ps) ≡ n ∷ parse_parts ps
unfolding parse_parts
parse_parts-cons [] ps n h e = absurd (omega arith)
parse_parts-cons (c ∷ cs) ps n h e = rw e

parse_parts-printed : (oid : Oid) → All IsSubId oid → parse_parts (printed oid) ≡ oid
parse_parts-printed [] h = unfold parse_parts in refl
parse_parts-printed (n ∷ rest) (h, hs) =
    parse_parts-cons (format_uint n) (printed rest) n (format_uint_pos n)
      (parse_digits-format_uint (2 ^ 32) n (omega arith) h)
    ∙ ap (λ zs. n ∷ zs) (parse_parts-printed rest hs)

-- No white space at either end and no leading dot: trimming keeps such a text.
digit_starts_well : (d : ℕ) (ds : Bytes) → IsDigit d → starts_well (d ∷ ds) ≡ true
unfolding is_edge is_space
digit_starts_well d ds h = ground arith

trim_dot-digit : (d : ℕ) (ds : Bytes) → IsDigit d → trim_dot (d ∷ ds) ≡ d ∷ ds
unfolding trim_dot
trim_dot-digit d ds h = ground arith

abbrev StartsWithDigit : Bytes → Type 0
StartsWithDigit s = (d : ℕ) × (ds : Bytes) × (s ≡ d ∷ ds) × IsDigit d

append-StartsWithDigit : (xs ys : Bytes) → StartsWithDigit xs → StartsWithDigit (xs ++ ys)
append-StartsWithDigit xs ys (d, ds, e, h) = (d, ds ++ ys, ap (λ zs. zs ++ ys) e, h)

digits-StartsWithDigit : (xs : Bytes) → 1 ≤ length xs → All IsDigit xs → StartsWithDigit xs
digits-StartsWithDigit [] h k = absurd (omega arith)
digits-StartsWithDigit (x ∷ xs) h (k, ks) = (x, xs, refl, k)

format_uint-StartsWithDigit : (n : ℕ) → StartsWithDigit (format_uint n)
format_uint-StartsWithDigit n =
    digits-StartsWithDigit (format_uint n) (format_uint_pos n) (format_uint-IsDigit n)

reverse_format-StartsWithDigit : (n : ℕ) → StartsWithDigit (reverse (format_uint n))
reverse_format-StartsWithDigit n =
    digits-StartsWithDigit (reverse (format_uint n))
      (omega (arith, length-reverse (format_uint n), format_uint_pos n))
      (All-reverse (λ c. IsDigit c) (format_uint n) (format_uint-IsDigit n))

oid_string-StartsWithDigit : (n : ℕ) (rest : Oid) → StartsWithDigit (oid_string (n ∷ rest))
unfolding oid_string
oid_string-StartsWithDigit n [] = format_uint-StartsWithDigit n
oid_string-StartsWithDigit n (m ∷ rest) =
    append-StartsWithDigit (format_uint n) (b'.' ∷ oid_string (m ∷ rest))
      (format_uint-StartsWithDigit n)

reverse_string-StartsWithDigit :
    (n : ℕ) (rest : Oid) → StartsWithDigit (reverse (oid_string (n ∷ rest)))
unfolding oid_string
reverse_string-StartsWithDigit n [] = reverse_format-StartsWithDigit n
reverse_string-StartsWithDigit n (m ∷ rest) =
    rw (reverse-append (format_uint n) (b'.' ∷ oid_string (m ∷ rest))) (
      append-StartsWithDigit (reverse (b'.' ∷ oid_string (m ∷ rest))) (reverse (format_uint n)) (
        rw (reverse-cons b'.' (oid_string (m ∷ rest))) (
          append-StartsWithDigit (reverse (oid_string (m ∷ rest))) (b'.' ∷ [])
            (reverse_string-StartsWithDigit m rest))))

trimmed : (s : Bytes) → StartsWithDigit s → StartsWithDigit (reverse s) → trim_space s ≡ s
trimmed s h k = trim_space_none s (well s h) (well (reverse s) k)
  where
    well : (s : Bytes) → StartsWithDigit s → starts_well s ≡ true
    well s (d, ds, e, h) = rw e (digit_starts_well d ds h)

trim_dot_none : (s : Bytes) → StartsWithDigit s → trim_dot s ≡ s
trim_dot_none s (d, ds, e, h) = rw e (trim_dot-digit d ds h)

parse_oid-trimmed :
    (s : Bytes) → trim_space s ≡ s → StartsWithDigit s → parse_oid s ≡ parse_parts (split_dots s)
unfolding parse_oid parse_trimmed
parse_oid-trimmed s t (d, ds, e, h) =
    ap (λ u. parse_trimmed (trim_dot u)) t ∙ ap parse_trimmed (trim_dot_none s (d, ds, e, h)) ∙ rw e

-- Every identifier whose arcs fit 32 bits survives printing and parsing.
pub parse_oid-oid_string : (oid : Oid) → All IsSubId oid → parse_oid (oid_string oid) ≡ oid
parse_oid-oid_string [] h = unfold parse_oid oid_string in refl
parse_oid-oid_string (n ∷ rest) h =
    parse_oid-trimmed (oid_string (n ∷ rest))
      (trimmed (oid_string (n ∷ rest)) (oid_string-StartsWithDigit n rest)
        (reverse_string-StartsWithDigit n rest))
      (oid_string-StartsWithDigit n rest)
    ∙ ap parse_parts (split_dots-oid_string n rest)
    ∙ parse_parts-printed (n ∷ rest) h

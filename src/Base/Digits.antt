-- ===== src/Base/Digits.antt =====
-- Decimal digits: what `strconv.FormatUint` prints, `strconv.ParseUint` reads.
use Prim.Native.Nat.{ℕ, zero, suc, ◌+◌, ◌-◌, ◌*◌, ◌/◌, ◌%◌, ◌^◌, ◌≤◌, ◌<◌}
use mathlib.Core.Path.{◌≡◌, refl, ap, ◌∙◌}
use mathlib.Core.Logic.{inl, inr}
use mathlib.Core.Bool.{Bool, ◌&&◌}
use mathlib.Core.Option.{Option, none, some}
use mathlib.Core.List.{[], ◌∷◌, ◌++◌}
use native.Mathlib.Omega.{arith}
use native.Mathlib.Nat.{pow-suc}
use wireguardd.Base.Tests.{leb, ltb, if◌then◌else◌, Bool-cases, ltb→lt, ltb→ge}
use wireguardd.Base.Lists.{length, All, length-append, All-append}
use wireguardd.Base.Octets.{Bytes}
use wireguardd.Base.Strings.{format_digits, format_uint}

abbrev pub is_digit : ℕ → Bool
is_digit c = leb 48 c && leb c 57

-- `strconv.ParseUint` in base 10 of a text that is not empty: a number below `lim`, from the
-- digits read so far; `none` is an error.
unfoldable pub parse_digits : ℕ → ℕ → Bytes → Option ℕ
parse_digits lim n [] = some n
parse_digits lim n (c ∷ cs) =
    let m = n * 10 + (c - 48) in
    let rest = parse_digits lim m cs in if is_digit c && ltb m lim then rest else none

abbrev next_digit : ℕ → ℕ → Option ℕ → Option ℕ
next_digit lim c none = none
next_digit lim c (some n) =
    if is_digit c && ltb (n * 10 + (c - 48)) lim then some (n * 10 + (c - 48)) else none

parse_digits-append :
    (lim n : ℕ) (cs : Bytes) (c : ℕ)
    → parse_digits lim n (cs ++ c ∷ []) ≡ next_digit lim c (parse_digits lim n cs)
unfolding parse_digits
parse_digits-append lim n [] c = refl
parse_digits-append lim n (d ∷ cs) c =
    ground (arith, parse_digits-append lim (n * 10 + (d - 48)) cs c)

abbrev pub IsDigit : ℕ → Type 0
IsDigit c = (48 ≤ c) × (c ≤ 57)

-- Enough digits: the text is digits only, is not empty, and reads as the number.
format_digits-IsDigit : (fuel n : ℕ) → All IsDigit (format_digits fuel n)
unfolding format_digits
format_digits-IsDigit zero n = tt
format_digits-IsDigit (suc fuel) n = elim (Bool-cases (ltb n 10)) [
  | inl e ↦ rw e (omega (arith, ltb→lt n 10 e))
  | inr e ↦ rw e (
      All-append (λ c. (48 ≤ c) × (c ≤ 57)) (format_digits fuel (n / 10)) ((48 + n % 10) ∷ [])
        (format_digits-IsDigit fuel (n / 10)) (omega arith))
]

format_digits_pos : (fuel n : ℕ) → 1 ≤ length (format_digits (suc fuel) n)
unfolding format_digits
format_digits_pos fuel n =
    ground (arith, length-append (format_digits fuel (n / 10)) ((48 + n % 10) ∷ []))

one_digit : (lim n : ℕ) → n < 10 → n < lim → parse_digits lim 0 ((48 + n) ∷ []) ≡ some n
unfolding parse_digits
one_digit lim n h k = ground arith

last_digit : (lim n : ℕ) → n < lim → next_digit lim (48 + n % 10) (some (n / 10)) ≡ some n
last_digit lim n h = ground arith

parse_digits-format_digits :
    (lim fuel n : ℕ)
    → n < 10 ^ fuel
    → n < lim
    → 1 ≤ fuel
    → parse_digits lim 0 (format_digits fuel n) ≡ some n
unfolding format_digits
parse_digits-format_digits lim zero n h k pos = absurd (omega arith)
parse_digits-format_digits lim (suc fuel) n h k pos = elim (Bool-cases (ltb n 10)) [
  | inl e ↦ rw e (one_digit lim n (ltb→lt n 10 e) k)
  | inr e ↦ rw e (
      parse_digits-append lim 0 (format_digits fuel (n / 10)) (48 + n % 10)
      ∙ ap (next_digit lim (48 + n % 10)) (
          parse_digits-format_digits lim fuel (n / 10) (omega (arith, pow-suc 10 fuel))
            (omega arith) (more_fuel fuel (ltb→ge n 10 e) h))
      ∙ last_digit lim n k)
]
  where
    more_fuel : (fuel : ℕ) → 10 ≤ n → n < 10 ^ suc fuel → 1 ≤ fuel
    more_fuel zero p q = absurd (omega arith)
    more_fuel (suc fuel) p q = omega arith

pub parse_digits-format_uint :
    (lim n : ℕ) → n < 2 ^ 64 → n < lim → parse_digits lim 0 (format_uint n) ≡ some n
unfolding format_uint
parse_digits-format_uint lim n h k =
    parse_digits-format_digits lim 20 n (omega arith) k (omega arith)

pub format_uint-IsDigit : (n : ℕ) → All IsDigit (format_uint n)
unfolding format_uint
format_uint-IsDigit n = format_digits-IsDigit 20 n

pub format_uint_pos : (n : ℕ) → 1 ≤ length (format_uint n)
unfolding format_uint
format_uint_pos n = format_digits_pos 19 n

-- ===== src/Base/Octets.antt =====
-- Bytes as numbers below 256, and the masks on one byte as arithmetic, each checked on all values.
use Prim.Native.Nat.{ℕ, zero, suc, ◌+◌, ◌*◌, ◌/◌, ◌%◌, ◌<◌, bit_and, bit_or}
use mathlib.Core.Path.{◌≡◌, refl}
use mathlib.Core.Bool.{Bool, true, false, ◌&&◌}
use mathlib.Core.List.{List, [], ◌∷◌}
use native.Mathlib.Omega.{arith}
use wireguardd.Base.Tests.{ltb, ltb→lt, if◌then◌else◌, ◌==◌, ==→eq}

-- A `[]byte` or the bytes of a Go string.
abbrev pub Bytes : Type 0
Bytes = List ℕ

abbrev pub IsByte : ℕ → Type 0
IsByte b = b < 256

-- Equality of byte strings, `a == b` on Go strings.
abbrev pub bytes_eq : Bytes → Bytes → Bool
bytes_eq [] [] = true
bytes_eq [] (y ∷ ys) = false
bytes_eq (x ∷ xs) [] = false
bytes_eq (x ∷ xs) (y ∷ ys) = (x == y) && bytes_eq xs ys

pub bytes_eq→eq : (xs ys : Bytes) → bytes_eq xs ys ≡ true → xs ≡ ys
bytes_eq→eq [] [] h = refl
bytes_eq→eq [] (y ∷ ys) h = cc
bytes_eq→eq (x ∷ xs) [] h = cc
bytes_eq→eq (x ∷ xs) (y ∷ ys) h = ground (arith, bytes_eq→eq xs ys)

pub bytes_eq_refl : (xs : Bytes) → bytes_eq xs xs ≡ true
bytes_eq_refl [] = refl
bytes_eq_refl (x ∷ xs) = ground (arith, bytes_eq_refl xs)

-- A test of every value below a bound, by evaluation.
holds_below : (ℕ → Bool) → ℕ → Bool
holds_below test zero = true
holds_below test (suc limit) = if test limit then holds_below test limit else false

holds_below→true :
    (test : ℕ → Bool) (limit b : ℕ) → b < limit → holds_below test limit ≡ true → test b ≡ true
unfolding holds_below
holds_below→true test zero b below checked = absurd (omega arith)
holds_below→true test (suc limit) b below checked = ground (arith, holds_below→true test limit b)

abbrev keeps_low : ℕ → Bool
keeps_low b = bit_and b 0x7f == b % 128

abbrev keeps_top : ℕ → Bool
keeps_top b = bit_and b 0x80 == (b / 128) * 128

abbrev adds_top : ℕ → Bool
adds_top b = bit_or b 0x80 == b + 128

masks_checked :
    (holds_below keeps_low 256 ≡ true)
    × (holds_below keeps_top 256 ≡ true)
    × (holds_below adds_top 128 ≡ true)
unfolding holds_below
masks_checked = (refl, refl, refl)

pub low_bits : (b : ℕ) → b < 256 → bit_and b 0x7f ≡ b % 128
low_bits b h = ==→eq _ _ (holds_below→true keeps_low 256 b h masks_checked.0)

pub top_bit : (b : ℕ) → b < 256 → bit_and b 0x80 ≡ (b / 128) * 128
top_bit b h = ==→eq _ _ (holds_below→true keeps_top 256 b h masks_checked.1)

pub set_top_bit : (b : ℕ) → b < 128 → bit_or b 0x80 ≡ b + 128
set_top_bit b h = ==→eq _ _ (holds_below→true adds_top 128 b h masks_checked.2)

-- The disjunction of two bytes is a byte: every pair is tried.
abbrev or_fits : ℕ → ℕ → Bool
or_fits a b = ltb (bit_or a b) 256

abbrev row_fits : ℕ → Bool
unfolding holds_below
row_fits a = holds_below (or_fits a) 256

or_checked : holds_below row_fits 256 ≡ true
unfolding holds_below row_fits
or_checked = refl

pub bit_or-byte : (a b : ℕ) → a < 256 → b < 256 → bit_or a b < 256
unfolding row_fits
bit_or-byte a b h k =
    ltb→lt _ _ (holds_below→true (or_fits a) 256 b k (holds_below→true row_fits 256 a h or_checked))

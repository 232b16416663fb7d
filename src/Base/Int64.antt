-- ===== src/Base/Int64.antt =====
-- int64 as its two's complement pattern below 2 ^ 64: sums and differences wrap around.
use Prim.Native.Nat.{ℕ, ◌+◌, ◌-◌, ◌%◌, ◌^◌, ◌<◌}
use mathlib.Core.Bool.{Bool}
use wireguardd.Base.Tests.{ltb, leb}

abbrev pub add64 : ℕ → ℕ → ℕ
add64 a b = (a + b) % 2 ^ 64

abbrev pub sub64 : ℕ → ℕ → ℕ
sub64 a b = (a + 2 ^ 64 - b) % 2 ^ 64

-- `a < 0`
abbrev pub is_negative : ℕ → Bool
is_negative a = leb (2 ^ 63) a

-- The place of an int64 in the order of all int64s.
abbrev pub rank64 : ℕ → ℕ
rank64 a = (a + 2 ^ 63) % 2 ^ 64

-- `a < b` and `a <= b`
abbrev pub less64 : ℕ → ℕ → Bool
less64 a b = ltb (rank64 a) (rank64 b)

abbrev pub le64 : ℕ → ℕ → Bool
le64 a b = leb (rank64 a) (rank64 b)

-- `a > 0`
abbrev pub is_positive : ℕ → Bool
is_positive a = less64 0 a

-- A count that an int64 holds: not negative.
abbrev pub IsCount : ℕ → Type 0
IsCount a = a < 2 ^ 63

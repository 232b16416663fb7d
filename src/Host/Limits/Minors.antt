-- ===== src/Host/Limits/Minors.antt =====
-- internal/wgbackend/tc_limits.go: the class number that a peer is given.
use wireguardd.Base.{
  Bytes, Bool, refl, sym, ℕ, zero, suc, ◌+◌, ◌%◌, ◌≤◌, ◌<◌, ◌≡◌, ◌⊎◌, inl, inr, true, false, arith,
}
use wireguardd.Host.Limits.{
  Minors, is_usable, minor_at, find_minor, allocate_minor, peer_minor_hint, tc_minor_min,
  tc_minor_max, minor_count,
}

-- A class number in the range of peers, and one that a peer may take, unless none of those that the
-- loop tries from `i` on is.
pub record IsFound (ms : Minors) (key : Bytes) (base i left m : ℕ) : Type 0 where
  pub from_min : tc_minor_min ≤ m
  pub to_max : m ≤ tc_minor_max
  pub usable :
      (is_usable ms key m ≡ true)
      ⊎ ((j : ℕ) → i ≤ j → j < i + left → is_usable ms key (minor_at base j) ≡ false)

abbrev pub IsAllotted : Minors → Bytes → ℕ → Type 0
IsAllotted ms key m = IsFound ms key (peer_minor_hint key) 0 minor_count m

same_or_later : (i j : ℕ) → i ≤ j → (i ≡ j) ⊎ (i + 1 ≤ j)
same_or_later i j p = omega arith

from_base : (n : ℕ) → tc_minor_min ≤ tc_minor_min + n
from_base n = omega arith

at_most : (n : ℕ) → tc_minor_min + n % minor_count ≤ tc_minor_max
at_most n = omega arith

last_resort : (n : ℕ) → tc_minor_min + n % 100 ≤ tc_minor_max
last_resort n = omega arith

module _ (ms : Minors) (key : Bytes) (base : ℕ) where
  none_earlier :
      (i left : ℕ)
      → is_usable ms key (minor_at base i) ≡ false
      → ((j : ℕ) → i + 1 ≤ j → j < i + 1 + left → is_usable ms key (minor_at base j) ≡ false)
      → (j : ℕ) → i ≤ j
      → j < i + suc left
      → is_usable ms key (minor_at base j) ≡ false
  none_earlier i left e f j p q = elim (same_or_later i j p) [
    | inl same ↦ rw (sym same) e
    | inr later ↦ f j later (omega arith)
  ]

  later-IsFound :
      (i left m : ℕ)
      → is_usable ms key (minor_at base i) ≡ false
      → IsFound ms key base (i + 1) left m
      → IsFound ms key base i (suc left) m
  later-IsFound i left m e found = record {
    from_min = found.from_min;
    to_max = found.to_max;
    usable = elim found.usable [ inl u ↦ inl u | inr f ↦ inr (none_earlier i left e f) ];
  }

  find_minor-IsFound : (left i : ℕ) → IsFound ms key base i left (find_minor left ms key base i)
  unfolding find_minor
  find_minor-IsFound zero i = record {
    from_min = from_base (base % 100);
    to_max = last_resort base;
    usable = inr (λ j p q. absurd (omega arith));
  }
  find_minor-IsFound (suc left) i = by_usable _ refl (find_minor-IsFound left (i + 1))
    where
      by_usable :
          (b : Bool)
          → is_usable ms key (minor_at base i) ≡ b
          → IsFound ms key base (i + 1) left (find_minor left ms key base (i + 1))
          → IsFound ms key base i
              (suc left)
              (elim b [ true ↦ minor_at base i | false ↦ find_minor left ms key base (i + 1) ])
      by_usable true e found = record { from_min = from_base _; to_max = at_most _; usable = inl e }
      by_usable false e found = later-IsFound i left _ e found

-- The number allotted lies from tcMinorMin to tcMinorMax, and it is free or the peer's own and not
-- the default class, unless each of the 4079 numbers tried is another's.
pub allocate_minor-IsAllotted :
    (ms : Minors) (key : Bytes) → IsAllotted ms key (allocate_minor ms key)
unfolding allocate_minor
allocate_minor-IsAllotted ms key = find_minor-IsFound ms key (peer_minor_hint key) minor_count 0

-- ===== src/Base/Trim.antt =====
-- Strings that `strings.TrimSpace` keeps, and spaces that it drops.
use Prim.Native.Nat.{ℕ}
use mathlib.Core.Path.{◌≡◌, refl, ap, ◌∙◌}
use mathlib.Core.Bool.{Bool, true, false, false≢true}
use mathlib.Core.List.{[], ◌∷◌, reverse, reverse-reverse}
use native.Mathlib.Omega.{arith}
use wireguardd.Base.Octets.{Bytes}
use wireguardd.Base.Strings.{
  is_space, is_wide2, is_wide3, wide_size, space_size, wide_size_back, space_size_back, is_edge,
  trim_front, trim_left, trim_left_back, trim_space,
}

-- A string whose first byte no white space begins or ends with.
abbrev pub starts_well : Bytes → Bool
starts_well [] = false
starts_well (c ∷ cs) = is_edge c

pub edge_not_space : (c : ℕ) → is_edge c ≡ true → is_space c ≡ false
unfolding is_edge is_space
edge_not_space c h = ground arith

wide2-edge : (c d : ℕ) → is_edge c ≡ true → is_wide2 c d ≡ false
unfolding is_edge is_space is_wide2
wide2-edge c d h = ground arith

wide3-edge : (c d e : ℕ) → is_edge c ≡ true → is_wide3 c d e ≡ false
unfolding is_edge is_space is_wide3
wide3-edge c d e h = ground arith

wide2_edge_back : (c d : ℕ) → is_edge c ≡ true → is_wide2 d c ≡ false
unfolding is_edge is_space is_wide2
wide2_edge_back c d h = ground arith

wide3_edge_back : (c d e : ℕ) → is_edge c ≡ true → is_wide3 e d c ≡ false
unfolding is_edge is_space is_wide3
wide3_edge_back c d e h = ground arith

wide_size-edge : (c : ℕ) (cs : Bytes) → is_edge c ≡ true → wide_size c cs ≡ 0
unfolding wide_size
wide_size-edge c [] h = refl
wide_size-edge c (d ∷ []) h = rw (wide2-edge c d h) refl
wide_size-edge c (d ∷ e ∷ rest) h = rw (wide2-edge c d h, wide3-edge c d e h) refl

wide_size_back-edge : (c : ℕ) (cs : Bytes) → is_edge c ≡ true → wide_size_back c cs ≡ 0
unfolding wide_size_back
wide_size_back-edge c [] h = refl
wide_size_back-edge c (d ∷ []) h = rw (wide2_edge_back c d h) refl
wide_size_back-edge c (d ∷ e ∷ rest) h = rw (wide2_edge_back c d h, wide3_edge_back c d e h) refl

space_size-edge : (c : ℕ) (cs : Bytes) → is_edge c ≡ true → space_size c cs ≡ 0
unfolding space_size
space_size-edge c cs h = ground (arith, edge_not_space c h, wide_size-edge c cs h)

space_size_back-edge : (c : ℕ) (cs : Bytes) → is_edge c ≡ true → space_size_back c cs ≡ 0
unfolding space_size_back
space_size_back-edge c cs h = ground (arith, edge_not_space c h, wide_size_back-edge c cs h)

trim_front_none :
    (size : ℕ → Bytes → ℕ) (c : ℕ) (cs : Bytes)
    → size c cs ≡ 0
    → trim_front size 0 (c ∷ cs) ≡ c ∷ cs
unfolding trim_front
trim_front_none size c cs h = rw (h, trim_front) refl

pub trim_left_none : (s : Bytes) → starts_well s ≡ true → trim_left s ≡ s
unfolding trim_left
trim_left_none [] h = absurd (false≢true h)
trim_left_none (c ∷ cs) h = trim_front_none space_size c cs (space_size-edge c cs h)

trim_left_back_none : (s : Bytes) → starts_well s ≡ true → trim_left_back s ≡ s
unfolding trim_left_back
trim_left_back_none [] h = absurd (false≢true h)
trim_left_back_none (c ∷ cs) h = trim_front_none space_size_back c cs (space_size_back-edge c cs h)

pub trim_space_none :
    (s : Bytes) → starts_well s ≡ true → starts_well (reverse s) ≡ true → trim_space s ≡ s
unfolding trim_space
trim_space_none s h k =
    ap (λ t. reverse (trim_left_back (reverse t))) (trim_left_none s h)
    ∙ ap reverse (trim_left_back_none (reverse s) k)
    ∙ reverse-reverse s

-- A space at the front is dropped.
pub trim_space-space : (s : Bytes) → trim_space (32 ∷ s) ≡ trim_space s
unfolding trim_space trim_left trim_front space_size is_space
trim_space-space s = refl

-- ===== src/Conf/Clean.antt =====
-- Texts that a line of a configuration keeps: no newline, and at either end a byte that is no part of
-- a white space.
use wireguardd.Base.{
  edge_not_space, starts_well, is_space, has_byte, reverse-cons, reverse, Bytes, ℕ, ◌≡◌, refl, ap,
  ◌⊎◌, true, false, false≢true, some, [], ◌∷◌, ◌++◌, arith,
}
use mathlib.Core.Path.{subst}
use mathlib.Core.List.{reverse-append, reverse-reverse}
use wireguardd.Conf.Parse.{cut}
use wireguardd.Conf.Parse.Loop.{scan_lines, drop_cr}

abbrev pub IsClean : Bytes → Type 0
IsClean v = (starts_well v ≡ true) × (starts_well (reverse v) ≡ true) × (has_byte b'\n' v ≡ false)

-- A field that is left out, or kept by its line.
abbrev pub IsText : Bytes → Type 0
IsText v = (v ≡ []) ⊎ IsClean v

pub starts_well-append : (xs ys : Bytes) → starts_well xs ≡ true → starts_well (xs ++ ys) ≡ true
starts_well-append [] ys h = absurd (false≢true h)
starts_well-append (x ∷ xs) ys h = h

pub starts_well-reverse_append :
    (xs ys : Bytes) → starts_well (reverse ys) ≡ true → starts_well (reverse (xs ++ ys)) ≡ true
starts_well-reverse_append xs ys h =
    rw (reverse-append xs ys) (starts_well-append (reverse ys) (reverse xs) h)

drop_cr_last : (xs : Bytes) (d : ℕ) → is_space d ≡ false → drop_cr (xs ++ d ∷ []) ≡ xs ++ d ∷ []
unfolding drop_cr is_space
drop_cr_last [] d h = ground arith
drop_cr_last (x ∷ []) d h = ground arith
drop_cr_last (x ∷ y ∷ xs) d h = ap (λ zs. x ∷ zs) (drop_cr_last (y ∷ xs) d h)

pub drop_cr_none : (s : Bytes) → starts_well (reverse s) ≡ true → drop_cr s ≡ s
drop_cr_none s h = subst (λ t. drop_cr t ≡ t) (reverse-reverse s) (of_reverse (reverse s) h)
  where
    of_reverse : (r : Bytes) → starts_well r ≡ true → drop_cr (reverse r) ≡ reverse r
    of_reverse [] k = absurd (false≢true k)
    of_reverse (c ∷ cs) k =
        rw (reverse-cons c cs) (drop_cr_last (reverse cs) c (edge_not_space c k))

pub scan_lines-append :
    (l rest : Bytes)
    → has_byte b'\n' l ≡ false
    → scan_lines (l ++ b'\n' ∷ rest) ≡ l ∷ scan_lines rest
unfolding scan_lines has_byte
scan_lines-append [] rest h = refl
scan_lines-append (c ∷ cs) rest h = ground (arith, scan_lines-append cs rest)

pub cut-append :
    (sep : ℕ) (k v : Bytes) → has_byte sep k ≡ false → cut sep (k ++ sep ∷ v) ≡ some (k, v)
unfolding cut has_byte
cut-append sep [] v h = ground arith
cut-append sep (c ∷ cs) v h = ground (arith, cut-append sep cs v)

pub has_byte-append :
    (sep : ℕ) (xs ys : Bytes)
    → has_byte sep xs ≡ false
    → has_byte sep ys ≡ false
    → has_byte sep (xs ++ ys) ≡ false
unfolding has_byte
has_byte-append sep [] ys h k = k
has_byte-append sep (x ∷ xs) ys h k = ground (arith, has_byte-append sep xs ys)

-- ===== src/Snmp/Oid/Order.antt =====
-- `Compare` of internal/snmp/oid.go is a total order, and `Equal` and `IsPrefix` agree with it.
use wireguardd.Base.{
  ltb, Bool-cases, ltb→ge, ge→ltb, eq→==, length, length-append, ◌≤◌, ◌≡◌, refl, sym, ap, ◌∙◌, ◌↔◌,
  inl, inr, true, false≢true, [], ◌∷◌, ◌++◌, append-nil, arith,
}
use wireguardd.Snmp.Oid.{Oid, equal, equal_arcs, Sign, less, same, more, compare_oid, is_prefix}

abbrev pub flip : Sign → Sign
flip less = more
flip same = same
flip more = less

-- Swapping the arguments turns the sign.
pub compare_oid-flip : (a b : Oid) → compare_oid b a ≡ flip (compare_oid a b)
unfolding compare_oid
compare_oid-flip [] [] = refl
compare_oid-flip [] (y ∷ ys) = refl
compare_oid-flip (x ∷ xs) [] = refl
compare_oid-flip (x ∷ xs) (y ∷ ys) = ground (arith, compare_oid-flip xs ys)

pub compare_oid_refl : (a : Oid) → compare_oid a a ≡ same
unfolding compare_oid
compare_oid_refl [] = refl
compare_oid_refl (x ∷ xs) = ground (arith, compare_oid_refl xs)

pub compare_oid-same : (a b : Oid) → compare_oid a b ≡ same → a ≡ b
unfolding compare_oid
compare_oid-same [] [] h = refl
compare_oid-same [] (y ∷ ys) h = cc
compare_oid-same (x ∷ xs) [] h = cc
compare_oid-same (x ∷ xs) (y ∷ ys) h = ground (arith, compare_oid-same xs ys)

pub compare_oid_trans :
    (a b c : Oid) → compare_oid a b ≡ less → compare_oid b c ≡ less → compare_oid a c ≡ less
unfolding compare_oid
compare_oid_trans [] [] c h k = cc
compare_oid_trans [] (y ∷ ys) [] h k = cc
compare_oid_trans [] (y ∷ ys) (z ∷ zs) h k = refl
compare_oid_trans (x ∷ xs) [] c h k = cc
compare_oid_trans (x ∷ xs) (y ∷ ys) [] h k = cc
compare_oid_trans (x ∷ xs) (y ∷ ys) (z ∷ zs) h k = ground (arith, compare_oid_trans xs ys zs)

equal_arcs→eq : (a b : Oid) → length a ≡ length b → equal_arcs a b ≡ true → a ≡ b
unfolding equal_arcs
equal_arcs→eq [] [] h e = refl
equal_arcs→eq [] (y ∷ ys) h e = absurd (omega arith)
equal_arcs→eq (x ∷ xs) [] h e = cc
equal_arcs→eq (x ∷ xs) (y ∷ ys) h e = ground (arith, equal_arcs→eq xs ys)

equal_arcs-append : (a b : Oid) → equal_arcs a (a ++ b) ≡ true
unfolding equal_arcs
equal_arcs-append [] b = refl
equal_arcs-append (x ∷ xs) b = ground (arith, equal_arcs-append xs b)

pub equal→eq : (a b : Oid) → equal a b ≡ true → a ≡ b
unfolding equal
equal→eq a b e = ground (arith, equal_arcs→eq a b)

pub equal_refl : (a : Oid) → equal a a ≡ true
unfolding equal
equal_refl a =
    rw (eq→== (length a) (length a) refl)
      (ap (equal_arcs a) (sym (append-nil a)) ∙ equal_arcs-append a [])

-- `Equal` decides equality, and so answers as `Compare` does.
pub equal-compare_oid : (a b : Oid) → (equal a b ≡ true) ↔ (compare_oid a b ≡ same)
equal-compare_oid a b = (
  (λ e. rw (equal→eq a b e) (compare_oid_refl b)),
  (λ e. rw (compare_oid-same a b e) (equal_refl b)),
)

prefix_rest :
    (a b : Oid) → length a ≤ length b → equal_arcs a b ≡ true → (rest : Oid) × (b ≡ a ++ rest)
unfolding equal_arcs
prefix_rest [] b h e = (b, refl)
prefix_rest (x ∷ xs) [] h e = absurd (omega arith)
prefix_rest (x ∷ xs) (y ∷ ys) h e =
    let (rest, p) = prefix_rest xs ys (omega arith) (ground arith) in (rest, ground arith)

-- `IsPrefix` decides that one identifier extends the other.
pub is_prefix_iff : (a b : Oid) → (is_prefix a b ≡ true) ↔ ((rest : Oid) × (b ≡ a ++ rest))
is_prefix_iff a b = (to, from)
  where
    to : is_prefix a b ≡ true → (rest : Oid) × (b ≡ a ++ rest)
    to e =
        unfold is_prefix in
        elim (Bool-cases (ltb (length b) (length a))) [
          | inl short ↦ absurd (false≢true (sym (rw short) ∙ e))
          | inr long ↦ prefix_rest a b (ltb→ge (length b) (length a) long) (sym (rw long) ∙ e)
        ]

    from : ((rest : Oid) × (b ≡ a ++ rest)) → is_prefix a b ≡ true
    from (rest, e) = rw e (
        unfold is_prefix in
        rw (ge→ltb (length (a ++ rest)) (length a) (omega (arith, length-append a rest)))
          (equal_arcs-append a rest))

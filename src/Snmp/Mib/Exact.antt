-- ===== src/Snmp/Mib/Exact.antt =====
-- `Get` on a sorted MIB answers for exactly the identifiers that are leaves.
use mathlib.Core.Path.{subst}
use mathlib.Core.Option.{some-injective}
use wireguardd.Base.{
  ltb, Bool-cases, ltb→lt, ltb→ge, length, get_elem?, All, ℕ, zero, suc, ◌≤◌, ◌<◌, ◌≡◌, refl, sym,
  ap, ◌∙◌, ◌≢◌, inl, inr, true, false≢true, Option, none, some, List, [], ◌∷◌, arith,
}
use wireguardd.Snmp.Oid.{Oid, equal, less, same, more, compare_oid}
use wireguardd.Snmp.Oid.Order.{compare_oid_refl, compare_oid-same, equal→eq, equal_refl}
use wireguardd.Snmp.Mib.{Variable, at_least, search, exact, mib_get}
use wireguardd.Snmp.Mib.Lookup.{IsSorted, search-IsSplit}

-- A leaf of this very identifier, or no leaf has it.
abbrev pub IsExact : List Variable → Oid → Option Variable → Type 0
IsExact vars oid none = (k : ℕ) (w : Variable) → get_elem? vars k ≡ some w → w.oid ≢ oid
IsExact vars oid (some v) = ((k : ℕ) × (get_elem? vars k ≡ some v)) × (v.oid ≡ oid)

less-ne : (a b : Oid) → compare_oid a b ≡ less → a ≢ b
less-ne a b h e = cc (h, ap (compare_oid a) e, compare_oid_refl a)

-- Two places of a sorted list, in order.
sorted_places :
    (vars : List Variable) (i k : ℕ) (v w : Variable)
    → IsSorted vars
    → i ≤ k
    → get_elem? vars i ≡ some v
    → get_elem? vars k ≡ some w
    → compare_oid v.oid w.oid ≢ more
sorted_places [] i k v w s h e q = cc
sorted_places (u ∷ us) zero zero v w s h e q =
    rw (sym (some-injective _ _ e) ∙ some-injective _ _ q) (λ p. cc (p, compare_oid_refl w.oid))
sorted_places (u ∷ us) zero (suc k) v w (s, ss) h e q =
    rw (sym (some-injective _ _ e)) (place_of us k s q)
  where
    place_of :
        (us : List Variable) (k : ℕ)
        → All (λ w. compare_oid u.oid w.oid ≢ more) us
        → get_elem? us k ≡ some w
        → compare_oid u.oid w.oid ≢ more
    place_of [] k a q = cc
    place_of (x ∷ xs) zero (a, as') q = rw (sym (some-injective _ _ q)) a
    place_of (x ∷ xs) (suc k) (a, as') q = place_of xs k as' q
sorted_places (u ∷ us) (suc i) zero v w s h e q = absurd (omega arith)
sorted_places (u ∷ us) (suc i) (suc k) v w (s, ss) h e q =
    sorted_places us i k v w ss (omega arith) e q

place-lt :
    (vars : List Variable) (k : ℕ) (w : Variable) → get_elem? vars k ≡ some w → k < length vars
place-lt [] k w q = cc
place-lt (v ∷ vs) zero w q = omega arith
place-lt (v ∷ vs) (suc k) w q = omega (arith, place-lt vs k w q)

place-none : (vars : List Variable) (k : ℕ) → get_elem? vars k ≡ none → length vars ≤ k
place-none [] k q = omega arith
place-none (v ∷ vs) zero q = cc
place-none (v ∷ vs) (suc k) q = omega (arith, place-none vs k q)

at_least_self : (oid : Oid) (w : Variable) → w.oid ≡ oid → at_least oid (some w) ≡ true
at_least_self oid w e =
    let h : compare_oid w.oid oid ≡ same = rw e (compare_oid_refl oid) in ground arith

equal_between :
    (oid : Oid) (v : Variable)
    → compare_oid v.oid oid ≢ more
    → at_least oid (some v) ≡ true
    → equal v.oid oid ≡ true
equal_between oid v h e =
    let c : compare_oid v.oid oid ≡ same = ground arith in
    rw (compare_oid-same v.oid oid c) (equal_refl oid)

mib_get_none :
    (vars : List Variable) (oid : Oid)
    → IsSorted vars
    → (o : Option Variable) → get_elem? vars (search vars oid) ≡ o
    → exact oid o ≡ none
    → IsExact vars oid none
mib_get_none vars oid s o p e k w q x =
    let split = search-IsSplit vars oid s in
    let here : at_least oid (get_elem? vars k) ≡ true = rw q (at_least_self oid w x) in
    elim (Bool-cases (ltb k (search vars oid))) [
      | inl early ↦ absurd (false≢true (sym (split.below k (ltb→lt _ _ early)) ∙ here))
      | inr late ↦ found o p e (ltb→ge _ _ late) (split.above (search vars oid) (omega arith))
    ]
  where
    found :
        (o : Option Variable)
        → get_elem? vars (search vars oid) ≡ o
        → exact oid o ≡ none
        → search vars oid ≤ k
        → (search vars oid < length vars → at_least oid (get_elem? vars (search vars oid)) ≡ true)
        → ⊥
    found none p e h a =
        absurd (omega (arith, place-lt vars k w q, place-none vars (search vars oid) p))
    found (some v) p e h a =
        let low : compare_oid v.oid oid ≢ more =
          subst (λ z. compare_oid v.oid z ≢ more) x
            (sorted_places vars (search vars oid) k v w s h p q) in
        let up : at_least oid (some v) ≡ true =
          ap (at_least oid) (sym p) ∙ a (place-lt vars (search vars oid) v p) in
        cc (e, equal_between oid v low up)

pub mib_get_some :
    (vars : List Variable) (oid : Oid) (v : Variable)
    → exact oid (get_elem? vars (search vars oid)) ≡ some v
    → IsExact vars oid (some v)
mib_get_some vars oid v e = go (get_elem? vars (search vars oid)) refl e
  where
    go :
        (o : Option Variable)
        → get_elem? vars (search vars oid) ≡ o
        → exact oid o ≡ some v
        → IsExact vars oid (some v)
    go none p e = cc
    go (some w) p e = elim (Bool-cases (equal w.oid oid)) [
      | inl t ↦
          let q : w ≡ v = some-injective _ _ (sym (rw t) ∙ e) in
          (
            (search vars oid, p ∙ ap some q),
            subst (λ (z : Variable). z.oid ≡ oid) q (equal→eq w.oid oid t),
          )
      | inr f ↦ cc
    ]

-- On every sorted MIB `Get` finds a leaf of the identifier, and answers with none only if there is
-- none.
pub mib_get-IsExact :
    (vars : List Variable) (oid : Oid) → IsSorted vars → IsExact vars oid (mib_get vars oid)
unfolding mib_get
mib_get-IsExact vars oid s = go (exact oid (get_elem? vars (search vars oid))) refl
  where
    go :
        (o : Option Variable)
        → exact oid (get_elem? vars (search vars oid)) ≡ o
        → IsExact vars oid o
    go none e = mib_get_none vars oid s (get_elem? vars (search vars oid)) refl e
    go (some v) e = mib_get_some vars oid v e

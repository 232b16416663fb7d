-- ===== src/Snmp/Mib/Lookup.antt =====
-- `Get` and `GetNext` on a sorted MIB: the exact leaf, and the least leaf above.
use mathlib.Core.Path.{subst}
use mathlib.Core.Option.{some-injective}
use wireguardd.Base.{
  Bool-cases, length, get_elem?, drop, All, ℕ, zero, suc, ◌+◌, ◌<◌, ◌≡◌, refl, sym, ◌∙◌, ◌≢◌, inl,
  inr, true, false, false≢true, Option, none, some, List, [], ◌∷◌, arith,
}
use wireguardd.Snmp.Oid.{Oid, equal, Sign, less, same, more, compare_oid}
use wireguardd.Snmp.Oid.Order.{
  compare_oid_refl, compare_oid-same, compare_oid_trans, equal-compare_oid,
}
use wireguardd.Snmp.Mib.{Variable, at_least, search, first_above, past_exact, mib_get_next}
use wireguardd.Snmp.Mib.Search.{IsSplit, IsMonotone, sort_search-IsSplit}

-- No leaf is above a later one; leaves of one identifier may stand side by side.
abbrev pub IsSorted : List Variable → Type 0
IsSorted [] = Unit {0}
IsSorted (v ∷ vs) = All (λ w. compare_oid v.oid w.oid ≢ more) vs × IsSorted vs

All-get_elem? {ℓ κ} :
    {A : Type ℓ} (P : A → Type κ) (xs : List A) (k : ℕ) (a : A)
    → All P xs
    → get_elem? xs k ≡ some a
    → P a
All-get_elem? P [] k a h e = cc
All-get_elem? P (x ∷ xs) zero a (h, hs) e = subst P (some-injective _ _ e) h
All-get_elem? P (x ∷ xs) (suc k) a (h, hs) e = All-get_elem? P xs k a hs e

-- What is not above an identifier's predecessor is a predecessor too.
pub le-lt_trans :
    (a b c : Oid) → compare_oid a b ≢ more → compare_oid b c ≡ less → compare_oid a c ≡ less
le-lt_trans a b c h k = go (compare_oid a b) refl
  where
    go : (s : Sign) → compare_oid a b ≡ s → compare_oid a c ≡ less
    go less e = compare_oid_trans a b c e k
    go same e = rw (compare_oid-same a b e) k
    go more e = absurd (h e)

pub at_least-less :
    (oid : Oid) (v : Variable) → at_least oid (some v) ≡ false → compare_oid v.oid oid ≡ less
at_least-less oid v e = ground arith

pub less-at_least :
    (oid : Oid) (v : Variable) → compare_oid v.oid oid ≡ less → at_least oid (some v) ≡ false
less-at_least oid v e = ground arith

-- In a sorted list an element that is at least `oid` is followed by such elements only.
at_least_later :
    (oid : Oid) (v w : Variable)
    → compare_oid v.oid w.oid ≢ more
    → at_least oid (some v) ≡ true
    → at_least oid (some w) ≡ true
at_least_later oid v w h e = elim (Bool-cases (at_least oid (some w))) [
  | inl t ↦ t
  | inr f ↦ absurd (
      false≢true
        (sym (less-at_least oid v (le-lt_trans v.oid w.oid oid h (at_least-less oid w f))) ∙ e))
]

at_least-All :
    (oid : Oid) (v : Variable) (vs : List Variable) (k : ℕ)
    → All (λ w. compare_oid v.oid w.oid ≢ more) vs
    → at_least oid (some v) ≡ true
    → k < length vs
    → at_least oid (get_elem? vs k) ≡ true
at_least-All oid v [] k h e l = absurd (omega arith)
at_least-All oid v (w ∷ vs) zero (h, hs) e l = at_least_later oid v w h e
at_least-All oid v (w ∷ vs) (suc k) (h, hs) e l = at_least-All oid v vs k hs e (omega arith)

at_least-IsMonotone :
    (oid : Oid) (vars : List Variable)
    → IsSorted vars
    → IsMonotone (λ i. at_least oid (get_elem? vars i)) (length vars)
at_least-IsMonotone oid [] s a b h l e = absurd (omega arith)
at_least-IsMonotone oid (v ∷ vs) s zero zero h l e = e
at_least-IsMonotone oid (v ∷ vs) (s, ss) zero (suc b) h l e =
    at_least-All oid v vs b s e (omega arith)
at_least-IsMonotone oid (v ∷ vs) s (suc a) zero h l e = absurd (omega arith)
at_least-IsMonotone oid (v ∷ vs) (s, ss) (suc a) (suc b) h l e =
    at_least-IsMonotone oid vs ss a b (omega arith) (omega arith) e

pub search-IsSplit :
    (vars : List Variable) (oid : Oid)
    → IsSorted vars
    → IsSplit (λ i. at_least oid (get_elem? vars i)) (length vars) (search vars oid)
unfolding search
search-IsSplit vars oid s = sort_search-IsSplit _ (length vars) (at_least-IsMonotone oid vars s)

pub first_above-skip :
    (oid : Oid) (v : Variable) (vs : List Variable)
    → compare_oid v.oid oid ≢ more
    → first_above oid (v ∷ vs) ≡ first_above oid vs
unfolding first_above
first_above-skip oid v vs h = ground arith

pub first_above-stop :
    (oid : Oid) (v : Variable) (vs : List Variable)
    → compare_oid v.oid oid ≡ more
    → first_above oid (v ∷ vs) ≡ some v
unfolding first_above
first_above-stop oid v vs h = ground arith

pub less-ne-more : {s : Sign} → s ≡ less → s ≢ more
less-ne-more e = λ p. cc

pub same-ne-more : {s : Sign} → s ≡ same → s ≢ more
same-ne-more e = λ p. cc

first_above-drop :
    (oid : Oid) (i : ℕ) (vars : List Variable)
    → ((k : ℕ) → k < i → at_least oid (get_elem? vars k) ≡ false)
    → first_above oid (drop i vars) ≡ first_above oid vars
first_above-drop oid zero vars h = refl
first_above-drop oid (suc i) [] h = refl
first_above-drop oid (suc i) (v ∷ vs) h =
    first_above-drop oid i vs (λ k l. h (suc k) (omega arith))
    ∙ sym (first_above-skip oid v vs (less-ne-more (at_least-less oid v (h 0 (omega arith)))))

first_above-exact :
    (oid : Oid) (i : ℕ) (vars : List Variable) (v : Variable)
    → get_elem? vars i ≡ some v
    → equal v.oid oid ≡ true
    → first_above oid (drop (i + 1) vars) ≡ first_above oid (drop i vars)
first_above-exact oid i [] v e q = cc
first_above-exact oid zero (w ∷ vs) v e q = sym (
    first_above-skip oid w vs
      (same-ne-more (rw (some-injective _ _ e) ((equal-compare_oid v.oid oid).0 q))))
first_above-exact oid (suc i) (w ∷ vs) v e q = rw (shift i) (first_above-exact oid i vs v e q)
  where
    shift : (i : ℕ) → suc i + 1 ≡ suc (i + 1)
    shift i = omega arith

-- On a sorted MIB `GetNext`, with its binary search, is the plain scan for the first leaf above.
pub mib_get_next-first_above :
    (vars : List Variable) (oid : Oid)
    → IsSorted vars
    → mib_get_next vars oid ≡ first_above oid vars
unfolding mib_get_next
mib_get_next-first_above vars oid s = go (get_elem? vars (search vars oid)) refl
  where
    before : first_above oid (drop (search vars oid) vars) ≡ first_above oid vars
    before = first_above-drop oid (search vars oid) vars (search-IsSplit vars oid s).below

    go :
        (o : Option Variable)
        → get_elem? vars (search vars oid) ≡ o
        → first_above oid (drop (past_exact oid (search vars oid) o) vars) ≡ first_above oid vars
    go none e = before
    go (some v) e = elim (Bool-cases (equal v.oid oid)) [
      | inl t ↦ rw t (first_above-exact oid (search vars oid) vars v e t ∙ before)
      | inr f ↦ rw f before
    ]

-- What `GetNext` promises: the least leaf above `oid`, or none if there is none above.
abbrev pub IsNext : List Variable → Oid → Option Variable → Type 0
IsNext vars oid none = All (λ w. compare_oid w.oid oid ≢ more) vars
IsNext vars oid (some v) =
    ((k : ℕ) × (get_elem? vars k ≡ some v))
    × (compare_oid v.oid oid ≡ more)
    × All (λ w. compare_oid w.oid oid ≡ more → compare_oid v.oid w.oid ≢ more) vars

pub All-map {ℓ} :
    {A : Type ℓ} {P Q : A → Type 0} (xs : List A) → ((x : A) → P x → Q x) → All P xs → All Q xs
All-map [] f h = tt
All-map (x ∷ xs) f (h, hs) = (f x h, All-map xs f hs)

IsNext-skip :
    (v : Variable) (vs : List Variable) (oid : Oid) (o : Option Variable)
    → compare_oid v.oid oid ≢ more
    → IsNext vs oid o
    → IsNext (v ∷ vs) oid o
IsNext-skip v vs oid none h n = (h, n)
IsNext-skip v vs oid (some w) h ((k, e), m, all) = ((suc k, e), m, ((λ p. absurd (h p)), all))

IsNext-stop :
    (v : Variable) (vs : List Variable) (oid : Oid)
    → IsSorted (v ∷ vs)
    → compare_oid v.oid oid ≡ more
    → IsNext (v ∷ vs) oid (some v)
IsNext-stop v vs oid (s, ss) h =
    ((0, refl), h, ((λ _. same-ne-more (compare_oid_refl v.oid)), All-map vs (λ w p _. p) s))

first_above-IsNext :
    (oid : Oid) (vars : List Variable) → IsSorted vars → IsNext vars oid (first_above oid vars)
first_above-IsNext oid [] s = unfold first_above in tt
first_above-IsNext oid (v ∷ vs) (s, ss) =
    go (compare_oid v.oid oid) refl (first_above-IsNext oid vs ss)
  where
    go :
        (c : Sign)
        → compare_oid v.oid oid ≡ c
        → IsNext vs oid (first_above oid vs)
        → IsNext (v ∷ vs) oid (first_above oid (v ∷ vs))
    go less e ih =
        rw (first_above-skip oid v vs (less-ne-more e))
          (IsNext-skip v vs oid (first_above oid vs) (less-ne-more e) ih)
    go same e ih =
        rw (first_above-skip oid v vs (same-ne-more e))
          (IsNext-skip v vs oid (first_above oid vs) (same-ne-more e) ih)
    go more e ih = rw (first_above-stop oid v vs e) (IsNext-stop v vs oid (s, ss) e)

-- On every sorted MIB `GetNext` returns the least leaf above the identifier, and reports the end
-- only if no leaf is above it.
pub mib_get_next-IsNext :
    (vars : List Variable) (oid : Oid) → IsSorted vars → IsNext vars oid (mib_get_next vars oid)
mib_get_next-IsNext vars oid s =
    rw (mib_get_next-first_above vars oid s) (first_above-IsNext oid vars s)

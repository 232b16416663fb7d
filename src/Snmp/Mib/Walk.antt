-- ===== src/Snmp/Mib/Walk.antt =====
-- A manager's walk by `GetNext`, each answer the next question.
use mathlib.Core.Path.{subst}
use mathlib.Core.Option.{some-injective}
use wireguardd.Base.{
  length, take, All, take-all, ℕ, zero, suc, ◌≤◌, ◌≡◌, refl, sym, ap, ◌∙◌, ◌≢◌, Option, none, some,
  List, [], ◌∷◌, arith,
}
use wireguardd.Snmp.Oid.{Oid, Sign, less, same, more, compare_oid}
use wireguardd.Snmp.Oid.Order.{flip, compare_oid-flip, compare_oid_refl, compare_oid_trans}
use wireguardd.Snmp.Mib.{Variable, mib_get_next, first_above}
use wireguardd.Snmp.Mib.Lookup.{
  IsSorted, mib_get_next-first_above, first_above-skip, first_above-stop, less-ne-more,
  same-ne-more, All-map,
}

-- The answers to `fuel` questions, up to the end of the view.
pub walk : ℕ → List Variable → Oid → List Variable
walk zero vars oid = []
walk (suc fuel) vars oid = elim (mib_get_next vars oid) [
  | none ↦ []
  | some v ↦ v ∷ walk fuel vars v.oid
]

-- The leaves above an identifier, in their order.
unfoldable pub leaves_above : Oid → List Variable → List Variable
leaves_above oid [] = []
leaves_above oid (v ∷ vs) =
    let rest = leaves_above oid vs in elim (compare_oid v.oid oid) [ more ↦ v ∷ rest | _ ↦ rest ]

-- Every leaf is below the later ones.
abbrev pub IsStrict : List Variable → Type 0
IsStrict [] = Unit {0}
IsStrict (v ∷ vs) = All (λ w. compare_oid v.oid w.oid ≡ less) vs × IsStrict vs

pub IsStrict-IsSorted : (vars : List Variable) → IsStrict vars → IsSorted vars
IsStrict-IsSorted [] s = tt
IsStrict-IsSorted (v ∷ vs) (s, ss) = (go vs s, IsStrict-IsSorted vs ss)
  where
    go :
        (ws : List Variable)
        → All (λ w. compare_oid v.oid w.oid ≡ less) ws
        → All (λ w. compare_oid v.oid w.oid ≢ more) ws
    go [] h = tt
    go (w ∷ ws) (h, hs) = ((λ p. cc (h, p)), go ws hs)

leaves_above-skip :
    (oid : Oid) (v : Variable) (vs : List Variable)
    → compare_oid v.oid oid ≢ more
    → leaves_above oid (v ∷ vs) ≡ leaves_above oid vs
unfolding leaves_above
leaves_above-skip oid v vs h = ground arith

leaves_above-keep :
    (oid : Oid) (v : Variable) (vs : List Variable)
    → compare_oid v.oid oid ≡ more
    → leaves_above oid (v ∷ vs) ≡ v ∷ leaves_above oid vs
unfolding leaves_above
leaves_above-keep oid v vs h = ground arith

leaves_above-All :
    (oid : Oid) (vs : List Variable)
    → All (λ w. compare_oid w.oid oid ≡ more) vs
    → leaves_above oid vs ≡ vs
leaves_above-All oid [] h = unfold leaves_above in refl
leaves_above-All oid (v ∷ vs) (h, hs) =
    leaves_above-keep oid v vs h ∙ ap (λ ws. v ∷ ws) (leaves_above-All oid vs hs)

less→more : (a b : Oid) → compare_oid a b ≡ less → compare_oid b a ≡ more
less→more a b h = compare_oid-flip a b ∙ ap flip h

more→less : (a b : Oid) → compare_oid a b ≡ more → compare_oid b a ≡ less
more→less a b h = compare_oid-flip a b ∙ ap flip h

-- The leaves behind one that is above are all above.
behind_above :
    (oid : Oid) (v : Variable) (vs : List Variable)
    → compare_oid v.oid oid ≡ more
    → All (λ w. compare_oid v.oid w.oid ≡ less) vs
    → All (λ w. compare_oid w.oid oid ≡ more) vs
behind_above oid v vs h s =
    All-map vs
      (λ w p. less→more oid w.oid (compare_oid_trans oid v.oid w.oid (more→less v.oid oid h) p)) s

pub first_above-All :
    (P : Variable → Type 0) (oid : Oid) (vs : List Variable) (u : Variable)
    → All P vs
    → first_above oid vs ≡ some u
    → P u
first_above-All P oid [] u h e = unfold first_above in cc
first_above-All P oid (v ∷ vs) u (h, hs) e =
    go (compare_oid v.oid oid) refl (first_above-All P oid vs u hs)
  where
    go : (c : Sign) → compare_oid v.oid oid ≡ c → (first_above oid vs ≡ some u → P u) → P u
    go less p k = k (sym (first_above-skip oid v vs (less-ne-more p)) ∙ e)
    go same p k = k (sym (first_above-skip oid v vs (same-ne-more p)) ∙ e)
    go more p k = subst P (some-injective _ _ (sym (first_above-stop oid v vs p) ∙ e)) h

abbrev pub and_above : List Variable → Option Variable → List Variable
and_above vars none = []
and_above vars (some v) = v ∷ leaves_above v.oid vars

-- One question splits off the first leaf above.
leaves_above-first_above :
    (vars : List Variable) (oid : Oid)
    → IsStrict vars
    → leaves_above oid vars ≡ and_above vars (first_above oid vars)
leaves_above-first_above [] oid s = unfold leaves_above first_above in refl
leaves_above-first_above (v ∷ vs) oid (s, ss) =
    go (compare_oid v.oid oid) refl (leaves_above-first_above vs oid ss)
  where
    passed :
        compare_oid v.oid oid ≢ more
        → leaves_above oid vs ≡ and_above vs (first_above oid vs)
        → (o : Option Variable) → first_above oid vs ≡ o
        → leaves_above oid (v ∷ vs) ≡ and_above (v ∷ vs) (first_above oid (v ∷ vs))
    passed h ih none e =
        leaves_above-skip oid v vs h
        ∙ ih
        ∙ ap (and_above vs) e
        ∙ sym (ap (and_above (v ∷ vs)) (first_above-skip oid v vs h ∙ e))
    passed h ih (some u) e =
        leaves_above-skip oid v vs h
        ∙ ih
        ∙ ap (and_above vs) e
        ∙ ap (λ ws. u ∷ ws)
            (sym (
              leaves_above-skip u.oid v vs (
                less-ne-more (first_above-All (λ w. compare_oid v.oid w.oid ≡ less) oid vs u s e))))
        ∙ sym (ap (and_above (v ∷ vs)) (first_above-skip oid v vs h ∙ e))

    go :
        (c : Sign)
        → compare_oid v.oid oid ≡ c
        → leaves_above oid vs ≡ and_above vs (first_above oid vs)
        → leaves_above oid (v ∷ vs) ≡ and_above (v ∷ vs) (first_above oid (v ∷ vs))
    go less e ih = passed (less-ne-more e) ih (first_above oid vs) refl
    go same e ih = passed (same-ne-more e) ih (first_above oid vs) refl
    go more e ih =
        leaves_above-keep oid v vs e
        ∙ ap (λ ws. v ∷ ws)
            (leaves_above-All oid vs (behind_above oid v vs e s)
              ∙ sym (leaves_above-All v.oid vs (All-map vs (λ w p. less→more v.oid w.oid p) s))
              ∙ sym (leaves_above-skip v.oid v vs (same-ne-more (compare_oid_refl v.oid))))
        ∙ sym (ap (and_above (v ∷ vs)) (first_above-stop oid v vs e))

-- A walk of fewer questions returns the first leaves above.
pub walk-take :
    (fuel : ℕ) (vars : List Variable) (oid : Oid)
    → IsStrict vars
    → walk fuel vars oid ≡ take fuel (leaves_above oid vars)
unfolding walk
walk-take zero vars oid s = refl
walk-take (suc fuel) vars oid s =
    go (first_above oid vars) (mib_get_next-first_above vars oid (IsStrict-IsSorted vars s))
      (leaves_above-first_above vars oid s) (λ v. walk-take fuel vars v.oid s)
  where
    go :
        (o : Option Variable)
        → mib_get_next vars oid ≡ o
        → leaves_above oid vars ≡ and_above vars o
        → ((v : Variable) → walk fuel vars v.oid ≡ take fuel (leaves_above v.oid vars))
        → walk (suc fuel) vars oid ≡ take (suc fuel) (leaves_above oid vars)
    go none e l ih = ground arith
    go (some v) e l ih = ground (arith, ih v)

-- With leaves of distinct identifiers in order, a walk from any identifier returns every leaf above
-- it, in order and once each, and then the end of the view.
pub walk-leaves_above :
    (fuel : ℕ) (vars : List Variable) (oid : Oid)
    → IsStrict vars
    → length (leaves_above oid vars) ≤ fuel
    → walk fuel vars oid ≡ leaves_above oid vars
walk-leaves_above fuel vars oid s h =
    walk-take fuel vars oid s ∙ take-all fuel (leaves_above oid vars) h

-- The leaves above an identifier, by the answer to one question.
pub leaves_above-mib_get_next :
    (vars : List Variable) (oid : Oid) (o : Option Variable)
    → IsStrict vars
    → mib_get_next vars oid ≡ o
    → leaves_above oid vars ≡ and_above vars o
leaves_above-mib_get_next vars oid o s e =
    leaves_above-first_above vars oid s
    ∙ ap (and_above vars) (sym (mib_get_next-first_above vars oid (IsStrict-IsSorted vars s)) ∙ e)

-- ===== src/Snmp/Mib/Members.antt =====
-- The lookups return leaves of the MIB, sorted or not.
use mathlib.Core.Path.{subst}
use mathlib.Core.Option.{some-injective}
use wireguardd.Base.{get_elem?, drop, All, ℕ, zero, suc, ◌≡◌, some, List, [], ◌∷◌}
use wireguardd.Snmp.Oid.{Oid}
use wireguardd.Snmp.Mib.{Variable, mib_get, mib_get_next}
use wireguardd.Snmp.Mib.Walk.{first_above-All}
use wireguardd.Snmp.Mib.Exact.{mib_get_some}

pub All-drop {ℓ} :
    {A : Type ℓ} (P : A → Type 0) (n : ℕ) (vs : List A) → All P vs → All P (drop n vs)
All-drop P zero vs h = h
All-drop P (suc n) [] h = tt
All-drop P (suc n) (v ∷ vs) (h, hs) = All-drop P n vs hs

module _ (P : Variable → Type 0) where
  All-place : (vs : List Variable) (k : ℕ) (v : Variable) → All P vs → get_elem? vs k ≡ some v → P v
  All-place [] k v h e = cc
  All-place (w ∷ vs) zero v (h, hs) e = subst P (some-injective _ _ e) h
  All-place (w ∷ vs) (suc k) v (h, hs) e = All-place vs k v hs e

  pub mib_get_next-All :
      (vars : List Variable) (oid : Oid) (v : Variable)
      → All P vars
      → mib_get_next vars oid ≡ some v
      → P v
  unfolding mib_get_next
  mib_get_next-All vars oid v h e = first_above-All P oid _ v (All-drop P _ vars h) e

  pub mib_get-All :
      (vars : List Variable) (oid : Oid) (v : Variable)
      → All P vars
      → mib_get vars oid ≡ some v
      → P v
  unfolding mib_get
  mib_get-All vars oid v h e = let ((k, p), q) = mib_get_some vars oid v e in All-place vars k v h p

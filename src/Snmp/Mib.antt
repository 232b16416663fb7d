-- ===== src/Snmp/Mib.antt =====
-- internal/snmp/mib.go: the lookups over the sorted list of leaves.
pub mod Search
pub mod Lookup
pub mod Exact
pub mod Walk
pub mod Members
use wireguardd.Base.{
  ltb, if◌then◌else◌, length, get_elem?, drop, ℕ, zero, suc, ◌+◌, ◌/◌, Bool, true, false, Option,
  none, some, List, [], ◌∷◌,
}
use wireguardd.Snmp.Oid.{Oid, equal, Sign, less, same, more, compare_oid}
use wireguardd.Snmp.Ber.{Value}

pub record Variable : Type 0 where
  pub oid : Oid
  pub value : Value

-- The loop of `sort.Search`: `h := int(uint(i+j) >> 1)`. The gap `j - i` at least halves.
unfoldable pub search_loop : ℕ → (ℕ → Bool) → ℕ → ℕ → ℕ
search_loop zero f i j = i
search_loop (suc fuel) f i j =
    let h = (i + j) / 2 in
    let rest = search_loop fuel f (if f h then i else h + 1) (if f h then h else j) in
    if ltb i j then rest else i

-- `sort.Search(n, f)`; `n` rounds are enough.
unfoldable pub sort_search : ℕ → (ℕ → Bool) → ℕ
unfolding search_loop
sort_search n f = search_loop n f 0 n

-- `m.vars[i].OID.Compare(oid) >= 0`; the index is in range wherever the search asks.
abbrev pub at_least : Oid → Option Variable → Bool
at_least oid none = false
at_least oid (some v) = elim (compare_oid v.oid oid) [ less ↦ false | _ ↦ true ]

unfoldable pub search : List Variable → Oid → ℕ
unfolding sort_search
search vars oid = sort_search (length vars) (λ i. at_least oid (get_elem? vars i))

abbrev pub exact : Oid → Option Variable → Option Variable
exact oid none = none
exact oid (some v) = if equal v.oid oid then some v else none

-- `MIB.Get`
unfoldable pub mib_get : List Variable → Oid → Option Variable
unfolding search
mib_get vars oid = exact oid (get_elem? vars (search vars oid))

-- `for i < len(m.vars) && m.vars[i].OID.Compare(oid) <= 0 { i++ }` on `m.vars[i:]`, and the leaf
-- that it stops at.
unfoldable pub first_above : Oid → List Variable → Option Variable
first_above oid [] = none
first_above oid (v ∷ vs) =
    let rest = first_above oid vs in elim (compare_oid v.oid oid) [ more ↦ some v | _ ↦ rest ]

abbrev pub past_exact : Oid → ℕ → Option Variable → ℕ
past_exact oid i none = i
past_exact oid i (some v) = if equal v.oid oid then i + 1 else i

-- `MIB.GetNext`
unfoldable pub mib_get_next : List Variable → Oid → Option Variable
unfolding search first_above
mib_get_next vars oid =
    let i = search vars oid in first_above oid (drop (past_exact oid i (get_elem? vars i)) vars)

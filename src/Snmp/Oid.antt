-- ===== src/Snmp/Oid.antt =====
-- internal/snmp/oid.go: an object identifier is a list of arcs, each a `uint`.
pub mod Order
pub mod Text
use wireguardd.Base.{ltb, ◌==◌, if◌then◌else◌, length, ℕ, Bool, true, false, List, [], ◌∷◌, ◌++◌}

abbrev pub Oid : Type 0
Oid = List ℕ

-- The loop of `Equal` over the common indices.
pub equal_arcs : Oid → Oid → Bool
equal_arcs [] other = true
equal_arcs (x ∷ xs) [] = false
equal_arcs (x ∷ xs) (y ∷ ys) = if x == y then equal_arcs xs ys else false

unfoldable pub equal : Oid → Oid → Bool
unfolding equal_arcs
equal o other = if length o == length other then equal_arcs o other else false

pub child : Oid → Oid → Oid
child o extra = o ++ extra

-- The results -1, 0 and 1 of `Compare`.
pub data Sign : Type 0 where
  less same more : Sign

-- After the common indices the lengths decide.
unfoldable pub compare_oid : Oid → Oid → Sign
compare_oid [] [] = same
compare_oid [] (y ∷ ys) = less
compare_oid (x ∷ xs) [] = more
compare_oid (x ∷ xs) (y ∷ ys) =
    if ltb x y then less else if ltb y x then more else compare_oid xs ys

unfoldable pub is_prefix : Oid → Oid → Bool
unfolding equal_arcs
is_prefix o other = if ltb (length other) (length o) then false else equal_arcs o other

-- ===== src/Policy/Bandwidth.antt =====
-- The caps that a peer's settings come to.
use wireguardd.Base.{le64, ℕ, ◌≡◌, false, arith}
use wireguardd.Policy.{effective_bandwidth}

-- With a positive total, no direction is left without a cap.
pub effective_bandwidth-positive :
    (rx tx total : ℕ)
    → le64 total 0 ≡ false
    → let (r, t) = effective_bandwidth rx tx total in (le64 r 0 ≡ false) × (le64 t 0 ≡ false)
unfolding effective_bandwidth
effective_bandwidth-positive rx tx total h = ground arith

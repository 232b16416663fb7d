-- ===== src/Policy/Suspension.antt =====
-- When a peer is suspended by policy, and with which reason.
use wireguardd.Base.{IsCount, Bytes, ℕ, ◌+◌, ◌-◌, ◌≤◌, ◌<◌, ◌≡◌, ◌≢◌, ◌↔◌, true, Option, [], arith}
use wireguardd.Db.{Peer, effective_bytes-counts}
use wireguardd.Policy.{
  effective_bytes, traffic_limit_exceeded, should_auto_suspend_at, auto_suspend_reason,
}

-- For counts whose sum an int64 holds, the quota is exceeded exactly if there is one and the bytes
-- since the soft reset have reached it.
pub traffic_limit_exceeded_iff :
    (p : Peer)
    → IsCount p.last_rx_bytes
    → IsCount p.rx_bytes_offset
    → IsCount p.last_tx_bytes
    → IsCount p.tx_bytes_offset
    → IsCount p.traffic_limit_bytes
    → IsCount (p.last_rx_bytes + p.last_tx_bytes)
    → (traffic_limit_exceeded p ≡ true) ↔ (
        (0 < p.traffic_limit_bytes)
        × (p.traffic_limit_bytes
            ≤ (p.last_rx_bytes - p.rx_bytes_offset) + (p.last_tx_bytes - p.tx_bytes_offset)))
unfolding traffic_limit_exceeded effective_bytes
traffic_limit_exceeded_iff p a b c d e f =
    let (r, t) = effective_bytes-counts p a b c d in ground arith

module _ (parse_nano parse_seconds : Bytes → Option ℕ) (p : Peer) (now : ℕ) where
  -- The two entry points agree: there is a reason exactly if the peer should be suspended.
  pub should_auto_suspend_iff :
      (should_auto_suspend_at parse_nano parse_seconds p now ≡ true)
      ↔ (auto_suspend_reason parse_nano parse_seconds p now ≢ [])
  unfolding should_auto_suspend_at auto_suspend_reason
  should_auto_suspend_iff = ground arith

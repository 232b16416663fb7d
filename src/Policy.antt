-- ===== src/Policy.antt =====
-- internal/policy/policy.go: quotas, expiry and bandwidth. `time.Parse` for the two layouts is a
-- parameter; an instant is a number of nanoseconds, and 0 is the zero time.
pub mod Suspension
pub mod Bandwidth
use wireguardd.Base.{
  leb, ◌==◌, if◌then◌else◌, text, trim_space, is_blank, add64, le64, Bytes, ℕ, Bool, true, false,
  Option, none, some, [],
}
use wireguardd.Db.{Peer, effective_rx, effective_tx}

unfoldable pub effective_bytes : Peer → ℕ
unfolding effective_rx effective_tx
effective_bytes p = add64 (effective_rx p) (effective_tx p)

unfoldable pub traffic_limit_exceeded : Peer → Bool
traffic_limit_exceeded p =
    if le64 p.traffic_limit_bytes 0 then false else le64 p.traffic_limit_bytes (effective_bytes p)

-- `EffectiveBandwidth`: a direction without a cap of its own takes the total.
unfoldable pub effective_bandwidth : ℕ → ℕ → ℕ → ℕ × ℕ
effective_bandwidth rx tx total =
    if le64 total 0
    then (rx, tx)
    else (if le64 rx 0 then total else rx, if le64 tx 0 then total else tx)

module _ (parse_nano parse_seconds : Bytes → Option ℕ) where
  -- `ParseExpiresAt`: `none` is an error.
  unfoldable pub parse_expires_at : Bytes → Option ℕ
  unfolding trim_space
  parse_expires_at s =
      let s' = trim_space s in
      if is_blank s'
      then some 0
      else elim (parse_nano s') [ some t ↦ some t | none ↦ parse_seconds s' ]

  -- `err != nil || t.IsZero()` is no expiry, else `!now.Before(t)`.
  expired_at : Option ℕ → ℕ → Bool
  expired_at none now = false
  expired_at (some t) now = if t == 0 then false else leb t now

  unfoldable pub is_expired : Peer → ℕ → Bool
  unfolding expired_at
  is_expired p now =
      if is_blank p.expires_at then false else expired_at (parse_expires_at p.expires_at) now

  unfoldable pub should_auto_suspend_at : Peer → ℕ → Bool
  should_auto_suspend_at p now =
      if p.suspended then false else if is_expired p now then true else traffic_limit_exceeded p

  unfoldable pub auto_suspend_reason : Peer → ℕ → Bytes
  auto_suspend_reason p now =
      if p.suspended
      then []
      else if is_expired p now
      then text "expired"
      else if traffic_limit_exceeded p
      then text "traffic_limit"
      else []

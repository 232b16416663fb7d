-- ===== src/Stats.antt =====
-- internal/stats: lifetime totals, window deltas, and the cache of what was last seen. The float rates
-- and averages are left out.
pub mod Lifetime
pub mod Cache
use wireguardd.Base.{
  if◌then◌else◌, add64, sub64, is_negative, le64, Map, lookup, insert, retain, contains, Bytes, ℕ,
  Bool, Option, List, [], ◌∷◌, ◌++◌,
}

-- `AccumulateLifetime(lifetime, raw, prevRaw, hasPrev)`
unfoldable pub accumulate_lifetime : ℕ → ℕ → ℕ → Bool → ℕ
accumulate_lifetime lifetime raw prev_raw has_prev =
    if has_prev
    then (if le64 prev_raw raw then add64 lifetime (sub64 raw prev_raw) else add64 lifetime raw)
    else if le64 lifetime raw
    then raw
    else lifetime

-- One direction of `WindowDelta`.
unfoldable pub moved_since : ℕ → ℕ → ℕ
moved_since current base = let d = sub64 current base in if is_negative d then current else d

-- The byte counts of `WindowDelta(curRx, curTx, baseRx, baseTx, span)`.
unfoldable pub window_delta : ℕ → ℕ → ℕ → ℕ → ℕ × ℕ
unfolding moved_since
window_delta cur_rx cur_tx base_rx base_tx =
    (moved_since cur_rx base_rx, moved_since cur_tx base_tx)

-- `IfaceStats` and `PeerStats`, but their rates and windows.
pub record IfaceStats : Type 0 where
  pub name : Bytes
  pub public_key : Bytes
  pub up : Bool
  pub listen_port : ℕ
  pub peer_count : ℕ
  pub rx_bytes : ℕ
  pub tx_bytes : ℕ
  pub updated_at : ℕ

pub record PeerStats : Type 0 where
  pub interface : Bytes
  pub public_key : Bytes
  pub name : Bytes
  pub endpoint : Bytes
  pub allowed_ips : List Bytes
  pub last_handshake : ℕ
  pub connected : Bool
  pub connected_since : ℕ
  pub rx_bytes : ℕ
  pub tx_bytes : ℕ
  pub suspended : Bool
  pub traffic_limit_bytes : ℕ
  pub bandwidth_rx_bps : ℕ
  pub bandwidth_tx_bps : ℕ
  pub updated_at : ℕ

pub record Seen : Type 0 where
  pub ifaces : Map IfaceStats
  pub peers : Map PeerStats

unfoldable pub peer_key : Bytes → Bytes → Bytes
peer_key iface key = iface ++ b'/' ∷ key

-- `NewCache`, and `Clear`
unfoldable pub new_cache : Seen
new_cache = record { ifaces = []; peers = [] }

unfoldable pub set_interface : IfaceStats → Seen → Seen
set_interface s c = record c { ifaces = insert s.name s c.ifaces }

unfoldable pub set_peer : PeerStats → Seen → Seen
unfolding peer_key
set_peer s c = record c { peers = insert (peer_key s.interface s.public_key) s c.peers }

unfoldable pub get_peer : Bytes → Bytes → Seen → Option PeerStats
unfolding peer_key
get_peer iface key c = lookup (peer_key iface key) c.peers

-- `Snapshot`: the maps are copies.
unfoldable pub snapshot : Seen → Map IfaceStats × Map PeerStats
snapshot c = (c.ifaces, c.peers)

-- `Retain(ifaces, peerKeys)`
unfoldable pub retain_keys : List Bytes → List Bytes → Seen → Seen
retain_keys ifaces keys c = record {
  ifaces = retain (λ k. contains k ifaces) c.ifaces;
  peers = retain (λ k. contains k keys) c.peers;
}

-- ===== src/Db.antt =====
-- internal/db/models.go: the rows of the store. The float rates of a peer and the times of creation and
-- update of rows are left out: nothing that is modelled reads them. A time in text is its bytes.
pub mod Tables
use wireguardd.Base.{
  if◌then◌else◌, sub64, is_negative, IsCount, Bytes, ℕ, ◌-◌, ◌≡◌, Bool, Option, List, arith,
}

pub record Interface : Type 0 where
  pub id : ℕ
  pub name : Bytes
  pub private_key : Bytes
  pub public_key : Bytes
  pub listen_port : ℕ
  pub fw_mark : ℕ
  pub mtu : ℕ
  pub table_mode : Bytes
  pub table_id : Option ℕ
  pub dns : List Bytes
  pub addresses : List Bytes
  pub pre_up : Bytes
  pub post_up : Bytes
  pub pre_down : Bytes
  pub post_down : Bytes
  pub default_keepalive : ℕ
  pub public_endpoint : Bytes
  pub enabled : Bool
  pub backend : Bytes
  pub protocol : Bytes
  pub amnezia_json : Bytes
  pub pair_name : Bytes
  pub mux_port : ℕ

pub record Peer : Type 0 where
  pub id : ℕ
  pub interface_id : ℕ
  pub interface_name : Bytes
  pub public_key : Bytes
  pub preshared_key : Bytes
  pub client_private_key : Bytes
  pub name : Bytes
  pub notes : Bytes
  pub allowed_ips : List Bytes
  pub assigned_ips : List Bytes
  pub endpoint : Bytes
  pub persistent_keepalive : ℕ
  pub suspended : Bool
  pub traffic_limit_bytes : ℕ
  pub expires_at : Bytes
  pub bandwidth_rx_bps : ℕ
  pub bandwidth_tx_bps : ℕ
  pub bandwidth_total_bps : ℕ
  pub rx_bytes_offset : ℕ
  pub tx_bytes_offset : ℕ
  pub first_handshake_at : Bytes
  pub last_handshake_at : Bytes
  pub connected_since : Bytes
  pub last_endpoint : Bytes
  pub last_rx_bytes : ℕ
  pub last_tx_bytes : ℕ
  pub tags : List Bytes

-- An event, but its id; its time is the text that the table holds.
pub record Event : Type 0 where
  pub ts : Bytes
  pub level : Bytes
  pub kind : Bytes
  pub interface : Bytes
  pub peer_public_key : Bytes
  pub message : Bytes
  pub meta : Bytes

-- A traffic sample, but its rates; its time is the text that the table holds.
pub record TrafficSample : Type 0 where
  pub peer_id : ℕ
  pub sampled_at : Bytes
  pub rx_bytes : ℕ
  pub tx_bytes : ℕ

-- `EffectiveRx` and `EffectiveTx`: what was counted since the soft reset, never below 0.
since_reset : ℕ → ℕ → ℕ
since_reset last offset = let v = sub64 last offset in if is_negative v then 0 else v

unfoldable pub effective_rx : Peer → ℕ
unfolding since_reset
effective_rx p = since_reset p.last_rx_bytes p.rx_bytes_offset

unfoldable pub effective_tx : Peer → ℕ
unfolding since_reset
effective_tx p = since_reset p.last_tx_bytes p.tx_bytes_offset

-- On counts this is the difference that stops at 0.
pub effective_bytes-counts :
    (p : Peer)
    → IsCount p.last_rx_bytes
    → IsCount p.rx_bytes_offset
    → IsCount p.last_tx_bytes
    → IsCount p.tx_bytes_offset
    → (effective_rx p ≡ p.last_rx_bytes - p.rx_bytes_offset)
      × (effective_tx p ≡ p.last_tx_bytes - p.tx_bytes_offset)
unfolding effective_rx effective_tx
effective_bytes-counts p a b c d = ground arith

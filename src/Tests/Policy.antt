-- ===== src/Tests/Policy.antt =====
-- A peer of the tests of internal/policy, and counters that restart.
use wireguardd.Base.{
  if◌then◌else◌, text, has_byte, le64, contains, Bytes, ℕ, ◌≤◌, ◌<◌, ◌≡◌, refl, ◌≢◌, ◌↔◌, ◌⊎◌, true,
  false, Option, none, some, List, [], ◌∷◌, arith,
}
use wireguardd.Db.{Peer}
use wireguardd.Policy.{
  traffic_limit_exceeded, should_auto_suspend_at, auto_suspend_reason, effective_bandwidth,
}
use wireguardd.Policy.Suspension.{traffic_limit_exceeded_iff, should_auto_suspend_iff}
use wireguardd.Policy.Bandwidth.{effective_bandwidth-positive}
use wireguardd.Stats.{
  accumulate_lifetime, PeerStats, peer_key, set_peer, get_peer, retain_keys, new_cache,
}
use wireguardd.Stats.Lifetime.{
  Tick, continued, restarted, lifetime_after, lifetime_after-traffic, accumulate_lifetime-bounds,
}
use wireguardd.Stats.Cache.{get_peer-set_peer}

abbrev pub quota_peer : Peer
quota_peer = record {
  id = 1;
  interface_id = 1;
  interface_name = text "wg0";
  public_key = text "alice";
  preshared_key = [];
  client_private_key = [];
  name = text "alice";
  notes = [];
  allowed_ips = text "10.0.0.2/32" ∷ [];
  assigned_ips = text "10.0.0.2" ∷ [];
  endpoint = [];
  persistent_keepalive = 25;
  suspended = false;
  traffic_limit_bytes = 1400;
  expires_at = [];
  bandwidth_rx_bps = 0;
  bandwidth_tx_bps = 500;
  bandwidth_total_bps = 1000;
  rx_bytes_offset = 100;
  tx_bytes_offset = 0;
  first_handshake_at = [];
  last_handshake_at = [];
  connected_since = [];
  last_endpoint = [];
  last_rx_bytes = 1000;
  last_tx_bytes = 500;
  tags = [];
}

abbrev pub no_time : Bytes → Option ℕ
no_time s = none

traffic_limit_exceeded_iff_example :
    (traffic_limit_exceeded quota_peer ≡ true) ↔ ((0 < 1400) × (1400 ≤ 1400))
traffic_limit_exceeded_iff_example =
    traffic_limit_exceeded_iff quota_peer (omega arith) (omega arith) (omega arith) (omega arith)
      (omega arith) (omega arith)

should_auto_suspend_iff_example :
    (should_auto_suspend_at no_time no_time quota_peer 7 ≡ true)
    ↔ (auto_suspend_reason no_time no_time quota_peer 7 ≢ [])
should_auto_suspend_iff_example = should_auto_suspend_iff no_time no_time quota_peer 7

effective_bandwidth-positive_example :
    let (r, t) = effective_bandwidth 0 500 1000 in (le64 r 0 ≡ false) × (le64 t 0 ≡ false)
effective_bandwidth-positive_example = effective_bandwidth-positive 0 500 1000 refl

-- 300 bytes, a reboot after which 50 pass, and 20 more.
abbrev boots : List Tick
boots = continued 300 ∷ restarted 50 ∷ continued 20 ∷ []

lifetime_after-traffic_example : lifetime_after 1000 700 boots ≡ 1370
lifetime_after-traffic_example =
    lifetime_after-traffic 1000 700 boots (omega arith, tt) (omega arith) (omega arith)

accumulate_lifetime-bounds_example :
    (1000 ≤ accumulate_lifetime 1000 40 700 true) × (accumulate_lifetime 1000 40 700 true ≤ 1040)
accumulate_lifetime-bounds_example =
    accumulate_lifetime-bounds 1000 40 700 true (omega arith) (omega arith)

abbrev alice_stats : PeerStats
alice_stats = record {
  interface = text "wg0";
  public_key = text "alice";
  name = text "alice";
  endpoint = [];
  allowed_ips = [];
  last_handshake = 0;
  connected = false;
  connected_since = 0;
  rx_bytes = 5;
  tx_bytes = 6;
  suspended = false;
  traffic_limit_bytes = 0;
  bandwidth_rx_bps = 0;
  bandwidth_tx_bps = 0;
  updated_at = 9;
}

get_peer-set_peer_example :
    (get_peer (text "wg0") (text "alice") (set_peer alice_stats new_cache) ≡ some alice_stats)
    × (((text "wg0" ≡ text "wg1") × (text "alice" ≡ text "bob"))
        ⊎ (get_peer (text "wg1") (text "bob") (set_peer alice_stats new_cache)
            ≡ get_peer (text "wg1") (text "bob") new_cache))
    × (get_peer (text "wg1") (text "bob") (retain_keys [] (text "wg0/alice" ∷ []) new_cache) ≡ (
        if contains (peer_key (text "wg1") (text "bob")) (text "wg0/alice" ∷ [])
        then get_peer (text "wg1") (text "bob") new_cache
        else none))
get_peer-set_peer_example =
    get_peer-set_peer alice_stats new_cache (text "wg1") (text "bob") [] (text "wg0/alice" ∷ [])
      (unfold has_byte in refl) (unfold has_byte in refl)

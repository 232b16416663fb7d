-- ===== src/Reconcile/Sampling.antt =====
-- internal/reconcile/reconciler.go: `sampleInterface`, but its rates and windows.
use wireguardd.Base.{
  leb, ◌==◌, if◌then◌else◌, length, text, is_blank, add64, lookup, insert, Bytes, bytes_eq, ℕ, ◌+◌,
  ◌*◌, Bool, true, false, not, ◌&&◌, ◌||◌, Option, none, some, List, [], ◌∷◌, map,
}
use wireguardd.Db.{Interface, Peer, Event, TrafficSample, effective_rx, effective_tx}
use wireguardd.Db.Tables.{update_peer_stats, insert_samples}
use wireguardd.Host.{LivePeer, Device, Backend}
use wireguardd.Stats.{accumulate_lifetime, set_interface, set_peer, peer_key, PeerStats}
use wireguardd.Reconcile.{Config, Env, World, Sample, sampling}
use wireguardd.Reconcile.Desired.{record_event, event}

-- `liveByPub`: of two peers with one key the last counts.
unfoldable pub live_peer : Bytes → List LivePeer → Option LivePeer
live_peer key [] = none
live_peer key (l ∷ ls) = elim (live_peer key ls) [
  | some m ↦ some m
  | none ↦ if bytes_eq l.public_key key then some l else none
]

-- What is read of a live peer, or of none: its counters, its handshake and its endpoint.
pub record Reading : Type 0 where
  pub seen : Sample
  pub handshake : ℕ
  pub endpoint : Bytes

abbrev pub reading_of : Peer → Option LivePeer → Reading
reading_of p none = record {
  seen = record { rx = 0; tx = 0 };
  handshake = 0;
  endpoint = p.endpoint;
}
reading_of p (some l) = record {
  seen = record { rx = l.receive_bytes; tx = l.transmit_bytes };
  handshake = l.last_handshake_time;
  endpoint = if is_blank l.endpoint then p.endpoint else l.endpoint;
}

abbrev prev_of : Option Sample → Sample × Bool
prev_of none = (record { rx = 0; tx = 0 }, false)
prev_of (some s) = (s, true)

-- The lifetime totals, the endpoint and the handshake times of the row.
unfoldable pub sampled_peer : Config → Env → ℕ → Reading → Option Sample → Peer → Bool × Peer
unfolding accumulate_lifetime
sampled_peer cfg env now r prev p =
    let (s, has_prev) = prev_of prev in
    let hs = env.format_time r.handshake in
    let recent = leb now (r.handshake + cfg.handshake_connected_sec * 1000000000) in
    let p' = record p {
      last_rx_bytes = accumulate_lifetime p.last_rx_bytes r.seen.rx s.rx has_prev;
      last_tx_bytes = accumulate_lifetime p.last_tx_bytes r.seen.tx s.tx has_prev;
      last_endpoint = r.endpoint;
    } in
    if r.handshake == 0 then (false, p') else (
      recent,
      record p' {
        first_handshake_at = if is_blank p.first_handshake_at then hs else p.first_handshake_at;
        last_handshake_at = hs;
        connected_since =
            if recent then (if is_blank p.connected_since then hs else p.connected_since) else [];
      },
    )

connection_event : Env → Bytes → Bytes → Bool → Event
unfolding event
connection_event env iface key connected =
    if connected
    then event env (text "info") (text "peer.connected") iface key (text "peer handshake active")
        (text "{}")
    else event env (text "info") (text "peer.disconnected") iface key (text "peer handshake stale")
        (text "{}")

-- An event if the connection changed since the last sample.
unfoldable pub note_connection :
    {S : Type 0} → Env → Bytes → Bytes → Bool → Option Bool → World S → World S
unfolding record_event connection_event
note_connection env iface key connected none w = w
note_connection env iface key connected (some was) w =
    if (was && not connected) || (not was && connected)
    then record_event env (connection_event env iface key connected) w
    else w

peer_stats : Env → Interface → Peer → Reading → Bool → ℕ → PeerStats
unfolding effective_rx effective_tx
peer_stats env i p r connected now = record {
  interface = i.name;
  public_key = p.public_key;
  name = p.name;
  endpoint = r.endpoint;
  allowed_ips = p.allowed_ips;
  last_handshake = r.handshake;
  connected = connected;
  connected_since =
      if is_blank p.connected_since
      then 0
      else elim (env.parse_nano p.connected_since) [ none ↦ 0 | some t ↦ t ];
  rx_bytes = effective_rx p;
  tx_bytes = effective_tx p;
  suspended = p.suspended;
  traffic_limit_bytes = p.traffic_limit_bytes;
  bandwidth_rx_bps = p.bandwidth_rx_bps;
  bandwidth_tx_bps = p.bandwidth_tx_bps;
  updated_at = now;
}

module _ {S : Type 0} (cfg : Config) (env : Env) (i : Interface) (live : List LivePeer)
    (now : ℕ) where
  -- One turn of the loop over the peers.
  unfoldable pub sample_peer : Peer → World S → Peer × World S
  unfolding live_peer sampled_peer peer_key note_connection peer_stats update_peer_stats set_peer
  sample_peer p w =
      let key = peer_key i.name p.public_key in
      let r = reading_of p (live_peer p.public_key live) in
      let (connected, p') = sampled_peer cfg env now r (lookup key w.prev_sample) p in
      let w1 = record w { prev_sample = insert key r.seen w.prev_sample } in
      let w2 =
        note_connection env i.name p.public_key connected (lookup key w1.prev_peer_conn) w1 in
      (
        p',
        record w2 {
          prev_peer_conn = insert key connected w2.prev_peer_conn;
          tables = update_peer_stats env.faults p' w2.tables;
          cache = set_peer (peer_stats env i p' r connected now) w2.cache;
        },
      )

  unfoldable pub sample_peers : List Peer → World S → List Peer × World S
  unfolding sample_peer
  sample_peers [] w = ([], w)
  sample_peers (p ∷ ps) w =
      let (p', w') = sample_peer p w in let (ps', w'') = sample_peers ps w' in (p' ∷ ps', w'')

traffic_sample : Env → ℕ → Peer → TrafficSample
unfolding effective_rx effective_tx
traffic_sample env now p = record {
  peer_id = p.id;
  sampled_at = env.format_time now;
  rx_bytes = effective_rx p;
  tx_bytes = effective_tx p;
}

unfoldable pub sum64 : List ℕ → ℕ
sum64 [] = 0
sum64 (n ∷ ns) = add64 n (sum64 ns)

unfoldable pub sample_device :
    {S : Type 0} → Config → Env → Interface → List Peer → Option Device → World S → World S
unfolding sample_peers insert_samples set_interface traffic_sample sum64 effective_rx effective_tx
sample_device cfg env i peers none w = record w {
  cache =
      set_interface
        (record {
          name = i.name;
          public_key = i.public_key;
          up = i.enabled;
          listen_port = i.listen_port;
          peer_count = length peers;
          rx_bytes = 0;
          tx_bytes = 0;
          updated_at = env.now (sampling i.name);
        })
        w.cache;
}
sample_device cfg env i peers (some dev) w =
    let now = env.now (sampling i.name) in
    let (peers', w') = sample_peers cfg env i dev.peers now peers w in
    record w' {
      tables = insert_samples env.faults (map (traffic_sample env now) peers') w'.tables;
      cache =
          set_interface
            (record {
              name = i.name;
              public_key = i.public_key;
              up = dev.up && i.enabled;
              listen_port = dev.listen_port;
              peer_count = length peers;
              rx_bytes = sum64 (map effective_rx peers');
              tx_bytes = sum64 (map effective_tx peers');
              updated_at = now;
            })
            w'.cache;
    }

-- `sampleInterface`
unfoldable pub sample_interface :
    {S : Type 0} → Backend S → Config → Env → Interface → List Peer → World S → World S
unfolding sample_device
sample_interface B cfg env i peers w = sample_device cfg env i peers (B.device w.host i.name) w

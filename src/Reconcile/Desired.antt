-- ===== src/Reconcile/Desired.antt =====
-- internal/reconcile/reconciler.go: quota and expiry are enforced, then rows become what is asked of the host.
use wireguardd.Base.{
  if◌then◌else◌, text, is_blank, Bytes, bytes_eq, ℕ, true, List, [], ◌∷◌, ◌++◌, map,
}
use wireguardd.Db.{Interface, Peer, Event}
use wireguardd.Db.Tables.{set_peer_suspended, add_event}
use wireguardd.Policy.{auto_suspend_reason, effective_bandwidth}
use wireguardd.Host.{no_params, DesiredPeer, DesiredInterface}
use wireguardd.Reconcile.{Env, World, recording}
use wireguardd.Reconcile.Twins.{decode_amnezia_json}

unfoldable pub record_event : {S : Type 0} → Env → Event → World S → World S
unfolding add_event
record_event env e w = record w { tables = add_event env.faults e w.tables }

unfoldable pub event : Env → Bytes → Bytes → Bytes → Bytes → Bytes → Bytes → Event
event env level kind iface key message meta = record {
  ts = env.format_time (env.now (recording kind (iface ++ key)));
  level = level;
  kind = kind;
  interface = iface;
  peer_public_key = key;
  message = message;
  meta = meta;
}

suspend_event : Env → Bytes → Bytes → Peer → Event
unfolding event
suspend_event env reason iface p =
    if bytes_eq reason (text "expired")
    then event env (text "warn") (text "peer.expired") iface p.public_key
        (text "auto-suspended: expires_at passed")
        (text "{\"reason\":\"expired\",\"expires_at\":" ++ env.quote p.expires_at ++ text "}")
    else event env (text "warn") (text "enforce") iface p.public_key
        (text "auto-suspended: traffic limit exceeded") (text "{\"reason\":\"traffic_limit\"}")

module _ {S : Type 0} (env : Env) (iface : Bytes) where
  -- One turn of the loop that suspends peers.
  unfoldable pub enforce_peer : ℕ → Peer → World S → Peer × World S
  unfolding auto_suspend_reason set_peer_suspended record_event suspend_event
  enforce_peer now p w =
      let reason = auto_suspend_reason env.parse_nano env.parse_seconds p now in
      let p' = record p { suspended = true } in
      let w' = record w { tables = set_peer_suspended env.faults p.id true w.tables } in
      if is_blank reason
      then (p, w)
      else (p', record_event env (suspend_event env reason iface p') w')

  unfoldable pub enforce_peers : ℕ → List Peer → World S → List Peer × World S
  unfolding enforce_peer
  enforce_peers now [] w = ([], w)
  enforce_peers now (p ∷ ps) w =
      let (p', w') = enforce_peer now p w in
      let (ps', w'') = enforce_peers now ps w' in (p' ∷ ps', w'')

unfoldable pub desired_peer : Peer → DesiredPeer
unfolding effective_bandwidth
desired_peer p =
    let (rx, tx) =
      effective_bandwidth p.bandwidth_rx_bps p.bandwidth_tx_bps p.bandwidth_total_bps in
    record {
      public_key = p.public_key;
      preshared_key = p.preshared_key;
      endpoint = p.endpoint;
      allowed_ips = p.allowed_ips;
      assigned_ips = p.assigned_ips;
      persistent_keepalive = p.persistent_keepalive;
      suspended = p.suspended;
      bandwidth_rx_bps = rx;
      bandwidth_tx_bps = tx;
    }

unfoldable pub desired_interface : Env → Interface → List Peer → DesiredInterface
unfolding desired_peer decode_amnezia_json
desired_interface env i peers = record {
  name = i.name;
  private_key = i.private_key;
  listen_port = i.listen_port;
  fw_mark = i.fw_mark;
  mtu = i.mtu;
  addresses = i.addresses;
  table_mode = i.table_mode;
  table_id = i.table_id;
  dns = i.dns;
  pre_up = i.pre_up;
  post_up = i.post_up;
  pre_down = i.pre_down;
  post_down = i.post_down;
  enabled = i.enabled;
  peers = map desired_peer peers;
  backend = i.backend;
  protocol = i.protocol;
  amnezia =
      if is_blank i.amnezia_json
      then no_params
      else decode_amnezia_json env.unmarshal i.amnezia_json;
}

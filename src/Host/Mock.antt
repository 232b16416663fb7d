-- ===== src/Host/Mock.antt =====
-- internal/wgbackend/mock_backend.go: the backend in memory, one method for each call. `failing` is
-- `FailNext`; a keepalive that the mock never sets is left out.
use wireguardd.Base.{
  ◌==◌, if◌then◌else◌, length, text, format_int, is_blank, Map, lookup, insert, remove, is_positive,
  Bytes, bytes_eq, ℕ, ◌+◌, Bool, true, false, not, ◌||◌, Option, none, some, List, [], ◌∷◌, ◌++◌,
  map,
}
use wireguardd.Host.{
  LivePeer, Device, DesiredPeer, DesiredInterface, MuxMap, is_zero_key, is_zero_params, Backend,
  Call, run_hook, ensure_interface, apply_peers, apply_suspend_routes, sync_bandwidth, set_up,
  sync_routes, sync_dns, export_conf, sync_mux, remove_interface,
}
use wireguardd.Host.Names.{is_amnezia_backend}
use wireguardd.Host.Mux.{validate_mux_maps}
use wireguardd.Host.Dns.{DnsConfig, parse_dns_list}

pub record Mock : Type 0 where
  pub devices : Map Device
  pub hooks : List Bytes
  pub exports : Map Bytes
  pub bandwidth : Map (Map DesiredPeer)
  pub route_tables : Map Bytes
  pub route_counts : Map ℕ
  pub dns_applied : Map DnsConfig
  pub mux_maps : List MuxMap
  pub failing : Bool

unfoldable pub new_mock : Mock
new_mock = record {
  devices = [];
  hooks = [];
  exports = [];
  bandwidth = [];
  route_tables = [];
  route_counts = [];
  dns_applied = [];
  mux_maps = [];
  failing = false;
}

-- `m.fail()` before a call that may fail.
unfoldable pub unless_failing : (Mock → Bool × Mock) → Mock → Bool × Mock
unless_failing f m = if m.failing then (false, record m { failing = false }) else f m

blank_device : Bytes → Device
blank_device name = record {
  name = name;
  public_key = [];
  private_key = [];
  listen_port = 0;
  firewall_mark = 0;
  mtu = 0;
  addresses = [];
  peers = [];
  up = false;
  backend = [];
  protocol = [];
}

unfoldable pub device_or_new : Bytes → Option Device → Device
unfolding blank_device
device_or_new name none = blank_device name
device_or_new name (some d) = d

abbrev or_else : List Bytes → List Bytes → List Bytes
or_else [] old = old
or_else (a ∷ as') old = a ∷ as'

mock_backend_name : DesiredInterface → Bytes
unfolding is_zero_params
mock_backend_name di =
    if is_blank di.backend || bytes_eq di.backend (text "auto")
    then (if bytes_eq di.protocol (text "awg") || not (is_zero_params di.amnezia)
        then text "amnezia_kernel"
        else text "kernel")
    else di.backend

unfoldable pub configured : DesiredInterface → Device → Device
unfolding is_zero_key mock_backend_name is_amnezia_backend
configured di d = record d {
  private_key = if is_zero_key di.private_key then d.private_key else di.private_key;
  listen_port = if is_positive di.listen_port then di.listen_port else d.listen_port;
  firewall_mark = if is_positive di.fw_mark then di.fw_mark else d.firewall_mark;
  mtu = if is_positive di.mtu then di.mtu else d.mtu;
  addresses = or_else di.addresses d.addresses;
  backend = mock_backend_name di;
  protocol =
      if not (is_blank di.protocol)
      then di.protocol
      else if is_amnezia_backend (mock_backend_name di)
      then text "awg"
      else text "wg";
  up = di.enabled;
}

unfoldable pub mock_ensure_interface : DesiredInterface → Mock → Bool × Mock
unfolding device_or_new configured
mock_ensure_interface di m = (
  true,
  record m {
    devices =
        insert di.name (configured di (device_or_new di.name (lookup di.name m.devices))) m.devices;
  },
)

unfoldable pub mock_remove_interface : Bytes → Mock → Bool × Mock
mock_remove_interface name m = (true, record m { devices = remove name m.devices })

unfoldable pub mock_set_up : Bytes → Bool → Mock → Bool × Mock
mock_set_up name up m = elim (lookup name m.devices) [
  | none ↦ (false, m)
  | some d ↦ (true, record m { devices = insert name (record d { up = up }) m.devices })
]

-- `prev[p.PublicKey]`: of two peers with one key the last counts.
unfoldable pub old_peer : Bytes → List LivePeer → Option LivePeer
old_peer key [] = none
old_peer key (l ∷ ls) = elim (old_peer key ls) [
  | some k ↦ some k
  | none ↦ if bytes_eq l.public_key key then some l else none
]

-- Counters and handshakes of a peer that was there stay.
unfoldable pub applied_peer : DesiredPeer → Option LivePeer → LivePeer
applied_peer p none = record {
  public_key = p.public_key;
  preshared_key = p.preshared_key;
  endpoint = p.endpoint;
  allowed_ips = if p.suspended then [] else p.allowed_ips;
  last_handshake_time = 0;
  receive_bytes = 0;
  transmit_bytes = 0;
}
applied_peer p (some old) = record {
  public_key = p.public_key;
  preshared_key = p.preshared_key;
  endpoint = if is_blank p.endpoint then old.endpoint else p.endpoint;
  allowed_ips = if p.suspended then [] else p.allowed_ips;
  last_handshake_time = old.last_handshake_time;
  receive_bytes = old.receive_bytes;
  transmit_bytes = old.transmit_bytes;
}

unfoldable pub applied_peers : List LivePeer → List DesiredPeer → List LivePeer
unfolding old_peer applied_peer
applied_peers prev ps = map (λ p. applied_peer p (old_peer p.public_key prev)) ps

unfoldable pub mock_apply_peers : Bytes → List DesiredPeer → Mock → Bool × Mock
unfolding applied_peers
mock_apply_peers name ps m = elim (lookup name m.devices) [
  | none ↦ (false, m)
  | some d ↦ (
    true,
    record m { devices = insert name (record d { peers = applied_peers d.peers ps }) m.devices },
  )
]

limited : List DesiredPeer → Map DesiredPeer → Map DesiredPeer
limited [] cur = cur
limited (p ∷ ps) cur = limited ps (
    if is_positive p.bandwidth_rx_bps || is_positive p.bandwidth_tx_bps
    then insert p.public_key p cur
    else cur)

unfoldable pub mock_sync_bandwidth : Bytes → List DesiredPeer → Mock → Bool × Mock
unfolding limited
mock_sync_bandwidth name ps m =
    (true, record m { bandwidth = insert name (limited ps []) m.bandwidth })

mock_table : DesiredInterface → Bytes
unfolding format_int
mock_table di =
    let mode = if is_blank di.table_mode then text "auto" else di.table_mode in
    let numbered : Bytes = elim di.table_id [ none ↦ mode | some n ↦ format_int n ] in
    if not di.enabled then text "off" else if bytes_eq mode (text "number") then numbered else mode

route_count : List DesiredPeer → ℕ
route_count [] = 0
route_count (p ∷ ps) =
    let rest = route_count ps in if p.suspended then rest else length p.allowed_ips + rest

unfoldable pub mock_sync_routes : DesiredInterface → Mock → Bool × Mock
unfolding mock_table route_count
mock_sync_routes di m = (
  true,
  record m {
    route_tables = insert di.name (mock_table di) m.route_tables;
    route_counts = insert di.name (route_count di.peers) m.route_counts;
  },
)

-- Packages net and os: addresses, and whether a file can be written.
module _ (split_host_port : Bytes → Option Bytes) (is_ip : Bytes → Bool)
    (writes : Bytes → Bool) where
  unfoldable pub mock_sync_dns : DesiredInterface → Mock → Bool × Mock
  unfolding parse_dns_list
  mock_sync_dns di m =
      let cleared = record m { dns_applied = remove di.name m.dns_applied } in
      let cfg = parse_dns_list split_host_port is_ip di.dns in
      let applied = record m { dns_applied = insert di.name cfg m.dns_applied } in
      if not di.enabled || (length di.dns == 0) then (true, cleared) else (true, applied)

  unfoldable pub mock_export_conf : Bytes → Bytes → Mock → Bool × Mock
  mock_export_conf path content m =
      (writes path, record m { exports = insert path content m.exports })

  unfoldable pub mock_sync_mux : List MuxMap → Mock → Bool × Mock
  unfolding validate_mux_maps
  mock_sync_mux ms m =
      if validate_mux_maps ms then (true, record m { mux_maps = ms }) else (false, m)

  unfoldable pub mock_perform : Call → Mock → Bool × Mock
  unfolding mock_ensure_interface mock_remove_interface mock_set_up mock_apply_peers
      mock_sync_bandwidth mock_sync_routes mock_sync_dns mock_export_conf mock_sync_mux
      unless_failing
  mock_perform (run_hook cmd) m = (true, record m { hooks = m.hooks ++ cmd ∷ [] })
  mock_perform (ensure_interface di) m = unless_failing (mock_ensure_interface di) m
  mock_perform (apply_peers name ps) m = unless_failing (mock_apply_peers name ps) m
  mock_perform (apply_suspend_routes name p suspend) m = (true, m)
  mock_perform (sync_bandwidth name ps) m = mock_sync_bandwidth name ps m
  mock_perform (set_up name up) m = unless_failing (mock_set_up name up) m
  mock_perform (sync_routes di) m = mock_sync_routes di m
  mock_perform (sync_dns di) m = mock_sync_dns di m
  mock_perform (export_conf path content) m = mock_export_conf path content m
  mock_perform (sync_mux ms) m = mock_sync_mux ms m
  mock_perform (remove_interface name) m = unless_failing (mock_remove_interface name) m

  abbrev values : Map Device → List Device
  values [] = []
  values ((k, d) ∷ ds) = d ∷ values ds

  -- `MockBackend` as a `Backend`.
  unfoldable pub mock_backend : Backend Mock
  unfolding mock_perform
  mock_backend = record {
    perform = mock_perform;
    devices = λ m. values m.devices;
    device = λ m name. lookup name m.devices;
    drives_mux = true;
  }

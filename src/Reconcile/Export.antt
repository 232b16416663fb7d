-- ===== src/Reconcile/Export.antt =====
-- internal/reconcile/reconciler.go: `exportConf`.
use wireguardd.Base.{
  if◌then◌else◌, text, format_int, join, has_byte, is_blank, Bytes, bytes_eq, ℕ, Bool, false, not,
  ◌&&◌, ◌||◌, Option, none, some, List, [], ◌∷◌, ◌++◌, map,
}
use wireguardd.Db.{Interface, Peer}
use wireguardd.Conf.{InterfaceSection, PeerSection, Conf, render}
use wireguardd.Host.{is_zero_key, Call, export_conf}
use wireguardd.Reconcile.{Config, Env}

exported_address : List Bytes → Bytes
unfolding has_byte
exported_address [] = []
exported_address (a ∷ as') = if has_byte b'/' a then a else a ++ text "/32"

unfoldable pub peer_section : Peer → PeerSection
unfolding exported_address
peer_section p = record {
  public_key = p.public_key;
  preshared_key = p.preshared_key;
  allowed_ips = if p.suspended then [] else p.allowed_ips;
  endpoint = p.endpoint;
  persistent_keepalive = p.persistent_keepalive;
  name = p.name;
  address = exported_address p.assigned_ips;
  dns = [];
  client_allowed_ips = [];
  traffic_limit = p.traffic_limit_bytes;
  expires_at = p.expires_at;
  notes = p.notes;
}

-- `Table`: the number itself if the mode is "number" and there is one.
exported_table : Bytes → Option ℕ → Bytes
unfolding format_int
exported_table mode none = mode
exported_table mode (some n) = if bytes_eq mode (text "number") then format_int n else mode

unfoldable pub interface_section : Interface → InterfaceSection
unfolding exported_table join
interface_section i = record {
  private_key = i.private_key;
  address = i.addresses;
  listen_port = i.listen_port;
  dns = i.dns;
  mtu = i.mtu;
  table = exported_table i.table_mode i.table_id;
  fw_mark = i.fw_mark;
  pre_up = i.pre_up;
  post_up = i.post_up;
  pre_down = i.pre_down;
  post_down = i.post_down;
  save_config = false;
  jc = 0;
  jmin = 0;
  jmax = 0;
  s1 = 0;
  s2 = 0;
  s3 = 0;
  s4 = 0;
  h1 = [];
  h2 = [];
  h3 = [];
  h4 = [];
  i1 = [];
  i2 = [];
  i3 = [];
  i4 = [];
  i5 = [];
  public_key_comment = i.public_key;
  peer_dns = join (text ", ") i.dns;
  peer_endpoint = i.public_endpoint;
  backend = [];
  protocol = [];
  pair_name = [];
}

unfoldable pub exported_conf : Interface → List Peer → Conf
unfolding interface_section peer_section
exported_conf i peers = record { interface = interface_section i; peers = map peer_section peers }

unfoldable pub export_call : Config → Env → Interface → List Peer → Call
unfolding render exported_conf
export_call cfg env i peers =
    export_conf (env.join_path cfg.conf_dir (i.name ++ text ".conf"))
      (render (exported_conf i peers))

-- The guard of the export: files are kept, and the private key is neither empty nor zero.
unfoldable pub exports : Config → Interface → Bool
unfolding is_zero_key
exports cfg i =
    (bytes_eq cfg.persistence (text "hybrid") || bytes_eq cfg.persistence (text "wg-quick"))
    && not (is_blank i.private_key)
    && not (is_zero_key i.private_key)

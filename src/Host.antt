-- ===== src/Host.antt =====
-- internal/wgbackend: what the data plane is asked for and what it shows. An `int`, an `int64` and a
-- duration are int64 patterns, an instant is a number of nanoseconds, and 0 is the zero time.
pub mod Names
pub mod Mux
pub mod Dns
pub mod Mock
pub mod Net
pub mod Resolve
pub mod Blackholes
pub mod Routes
pub mod Limits
pub mod Amnezia
use wireguardd.Base.{
  ◌==◌, if◌then◌else◌, text, is_blank, Bytes, bytes_eq, ℕ, Bool, ◌&&◌, ◌||◌, Option, List, [],
}

unfoldable pub zero_key : Bytes
zero_key = text "AAAAAAAAAAAAAAAAAAAAAAAAAAAAAAAAAAAAAAAAAAA="

unfoldable pub is_zero_key : Bytes → Bool
is_zero_key k = is_blank k || bytes_eq k zero_key

-- What a live peer shows, but its keepalive, which nothing that is modelled reads.
pub record LivePeer : Type 0 where
  pub public_key : Bytes
  pub preshared_key : Bytes
  pub endpoint : Bytes
  pub allowed_ips : List Bytes
  pub last_handshake_time : ℕ
  pub receive_bytes : ℕ
  pub transmit_bytes : ℕ

pub record Device : Type 0 where
  pub name : Bytes
  pub public_key : Bytes
  pub private_key : Bytes
  pub listen_port : ℕ
  pub firewall_mark : ℕ
  pub mtu : ℕ
  pub addresses : List Bytes
  pub peers : List LivePeer
  pub up : Bool
  pub backend : Bytes
  pub protocol : Bytes

pub record AmneziaParams : Type 0 where
  pub jc : ℕ
  pub jmin : ℕ
  pub jmax : ℕ
  pub s1 : ℕ
  pub s2 : ℕ
  pub s3 : ℕ
  pub s4 : ℕ
  pub h1 : Bytes
  pub h2 : Bytes
  pub h3 : Bytes
  pub h4 : Bytes
  pub i1 : Bytes
  pub i2 : Bytes
  pub i3 : Bytes
  pub i4 : Bytes
  pub i5 : Bytes

abbrev pub no_params : AmneziaParams
no_params = record {
  jc = 0;
  jmin = 0;
  jmax = 0;
  s1 = 0;
  s2 = 0;
  s3 = 0;
  s4 = 0;
  h1 = [];
  h2 = [];
  h3 = [];
  h4 = [];
  i1 = [];
  i2 = [];
  i3 = [];
  i4 = [];
  i5 = [];
}

header_or : Bytes → Bytes → Bytes
header_or h default = if is_blank h then default else h

-- `IsNeutral`: the packet headers and paddings are those of stock WireGuard.
unfoldable pub is_neutral : AmneziaParams → Bool
unfolding header_or
is_neutral p =
    bytes_eq (header_or p.h1 (text "1")) (text "1")
    && bytes_eq (header_or p.h2 (text "2")) (text "2")
    && bytes_eq (header_or p.h3 (text "3")) (text "3")
    && bytes_eq (header_or p.h4 (text "4")) (text "4")
    && (p.s1 == 0)
    && (p.s2 == 0)
    && (p.s3 == 0)
    && (p.s4 == 0)

-- `IsZero`
unfoldable pub is_zero_params : AmneziaParams → Bool
is_zero_params p =
    (p.jc == 0)
    && (p.jmin == 0)
    && (p.jmax == 0)
    && (p.s1 == 0)
    && (p.s2 == 0)
    && (p.s3 == 0)
    && (p.s4 == 0)
    && is_blank p.h1
    && is_blank p.h2
    && is_blank p.h3
    && is_blank p.h4
    && is_blank p.i1
    && is_blank p.i2
    && is_blank p.i3
    && is_blank p.i4
    && is_blank p.i5

pub record DesiredPeer : Type 0 where
  pub public_key : Bytes
  pub preshared_key : Bytes
  pub endpoint : Bytes
  pub allowed_ips : List Bytes
  pub assigned_ips : List Bytes
  pub persistent_keepalive : ℕ
  pub suspended : Bool
  pub bandwidth_rx_bps : ℕ
  pub bandwidth_tx_bps : ℕ

pub record DesiredInterface : Type 0 where
  pub name : Bytes
  pub private_key : Bytes
  pub listen_port : ℕ
  pub fw_mark : ℕ
  pub mtu : ℕ
  pub addresses : List Bytes
  pub table_mode : Bytes
  pub table_id : Option ℕ
  pub dns : List Bytes
  pub pre_up : Bytes
  pub post_up : Bytes
  pub pre_down : Bytes
  pub post_down : Bytes
  pub enabled : Bool
  pub peers : List DesiredPeer
  pub backend : Bytes
  pub protocol : Bytes
  pub amnezia : AmneziaParams

pub record MuxMap : Type 0 where
  pub public_port : ℕ
  pub awg_port : ℕ
  pub iface : Bytes
  pub alias : Bool

-- The methods of `Backend` that change the host, with `SyncMux`.
pub data Call : Type 0 where
  run_hook : Bytes → Call
  ensure_interface : DesiredInterface → Call
  apply_peers : Bytes → List DesiredPeer → Call
  apply_suspend_routes : Bytes → DesiredPeer → Bool → Call
  sync_bandwidth : Bytes → List DesiredPeer → Call
  set_up : Bytes → Bool → Call
  sync_routes : DesiredInterface → Call
  sync_dns : DesiredInterface → Call
  export_conf : Bytes → Bytes → Call
  sync_mux : List MuxMap → Call
  remove_interface : Bytes → Call

-- `Backend` over a state of the host: a call may fail, and what it does is the host's. `drives_mux`
-- says that it is a `muxSyncer` too.
pub record Backend (S : Type 0) : Type 0 where
  pub perform : Call → S → Bool × S
  pub devices : S → List Device
  pub device : S → Bytes → Option Device
  pub drives_mux : Bool

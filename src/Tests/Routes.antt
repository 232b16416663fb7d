-- ===== src/Tests/Routes.antt =====
-- An office of two peers, one suspended and one that carries everything; and the choice of a backend.
use wireguardd.Base.{
  ends_with, if◌then◌else◌, All, text, has_byte, Bytes, ◌≡◌, refl, Bool, true, false, ◌&&◌, none,
  some, List, [], ◌∷◌,
}
use wireguardd.Host.{AmneziaParams, DesiredPeer, DesiredInterface}
use wireguardd.Host.Names.{normalize_backend, normalize_protocol}
use wireguardd.Host.Net.{Ip, Cidr, Net, Runner}
use wireguardd.Host.Routes.{RouteKey, normalize_table_mode, route_eq, has_key, classify_cidr}
use wireguardd.Host.Routes.Sync.{get_routes, wanted, sync}
use wireguardd.Host.Routes.Owned.{Owns, sync-Owns}
use wireguardd.Host.Routes.Again.{sync-sync}
use wireguardd.Host.Routes.Exact.{is_on, fits_prefix, wanted-routes}
use wireguardd.Host.Routes.Peers.{is_reached}
use wireguardd.Host.Blackholes.{Listing, apply_suspend_routes}
use wireguardd.Host.Blackholes.Safe.{NeedsSlash, IsHarmless, apply_suspend_routes-kept}
use wireguardd.Host.Resolve.{BackendCaps, resolve_backend}
use wireguardd.Host.Resolve.Choice.{IsChosen, resolve_backend-IsChosen}
use mathlib.Core.Option.{none-ne-some}

-- IPv4 only; a prefix of no length ends in /0.
abbrev v4 : Bytes → Ip
v4 a = record { is_v4 = true; string = a }

abbrev simple_net : Net
unfolding ends_with has_byte
simple_net = record {
  parse_ip = λ a. some (v4 a);
  parse_cidr = λ a.
      if has_byte b'/' a
      then some (record {
        ip = v4 a;
        net_is_v4 = true;
        ones = if ends_with a (text "/0") then 0 else 32;
        bits = 32;
        network = 10 ∷ 0 ∷ 0 ∷ 0 ∷ [];
        mask = 255 ∷ 255 ∷ 255 ∷ 252 ∷ [];
      })
      else none;
  string_of = λ ip. ip;
  in_net = λ c ip. true;
}

abbrev simple_needs_slash :
    (b : Bool) (x y : Cidr) → (if b then some x else none) ≡ some y → b ≡ true
simple_needs_slash true x y e = refl
simple_needs_slash false x y e = absurd (none-ne-some y e)

simple_net-NeedsSlash : NeedsSlash simple_net
unfolding simple_net
simple_net-NeedsSlash a c e = simple_needs_slash (has_byte b'/' a) _ c e

-- A host that only remembers its commands, and on which every command works.
abbrev Log : Type 0
Log = List (Bytes × List Bytes)

abbrev logged : Runner Log
logged name args h = (record { output = []; error = none }, (name, args) ∷ h)

abbrev a_peer : Bytes → List Bytes → Bool → DesiredPeer
a_peer key allowed suspended = record {
  public_key = key;
  preshared_key = [];
  endpoint = [];
  allowed_ips = allowed;
  assigned_ips = [];
  persistent_keepalive = 0;
  suspended = suspended;
  bandwidth_rx_bps = 0;
  bandwidth_tx_bps = 0;
}

abbrev no_params : AmneziaParams
no_params = record {
  jc = 0;
  jmin = 0;
  jmax = 0;
  s1 = 0;
  s2 = 0;
  s3 = 0;
  s4 = 0;
  h1 = [];
  h2 = [];
  h3 = [];
  h4 = [];
  i1 = [];
  i2 = [];
  i3 = [];
  i4 = [];
  i5 = [];
}

abbrev office : DesiredInterface
office = record {
  name = text "wg0";
  private_key = [];
  listen_port = 51820;
  fw_mark = 0;
  mtu = 1420;
  addresses = text "10.0.0.1/24" ∷ [];
  table_mode = [];
  table_id = none;
  dns = [];
  pre_up = [];
  post_up = [];
  pre_down = [];
  post_down = [];
  enabled = true;
  peers =
      a_peer (text "a") (text "10.0.0.2" ∷ text "0.0.0.0/0" ∷ []) false
      ∷ a_peer (text "b") (text "10.0.0.3/32" ∷ []) true
      ∷ [];
  backend = text "kernel";
  protocol = text "wg";
  amnezia = no_params;
}

sync-Owns_example :
    Owns
      (wanted simple_net office)
      (sync logged simple_net office [] []).error
      (get_routes (text "wg0") (sync logged simple_net office [] []).state)
sync-Owns_example = sync-Owns logged simple_net office [] []

sync-sync_example :
    sync logged simple_net office
      (sync logged simple_net office [] []).state
      (sync logged simple_net office [] []).host
    ≡ sync logged simple_net office [] []
sync-sync_example = sync-sync logged simple_net office [] [] (unfold sync simple_net in refl)

abbrev main_route : RouteKey
main_route = record { dst = text "10.0.0.2/32"; table = text "main"; proto = text "4" }

wanted-routes_example : has_key route_eq main_route (wanted simple_net office).routes ≡ (
    is_on (normalize_table_mode office.table_mode) office
    && (is_reached simple_net main_route.dst office.peers
        && fits_prefix
            (normalize_table_mode office.table_mode)
            office
            main_route
            (classify_cidr simple_net main_route.dst)))
wanted-routes_example = wanted-routes simple_net office main_route

-- The route is there.
main_route-wanted : has_key route_eq main_route (wanted simple_net office).routes ≡ true
unfolding wanted simple_net
main_route-wanted = refl

abbrev unlisted : Listing
unlisted = record { blackholes = none; blackholes_at = 0 }

apply_suspend_routes-kept_example :
    All
      (λ c. IsHarmless true c.0 c.1)
      (apply_suspend_routes logged 10 simple_net
        (a_peer (text "b") (text "10.0.0.3/32" ∷ text "0.0.0.0/0" ∷ []) true)
        true
        unlisted
        []).host
apply_suspend_routes-kept_example =
    apply_suspend_routes-kept logged 10 (λ h. All (λ c. IsHarmless true c.0 c.1) h) simple_net
      simple_net-NeedsSlash (a_peer (text "b") (text "10.0.0.3/32" ∷ text "0.0.0.0/0" ∷ []) true)
      true unlisted [] (λ name args h k p. (k, p)) tt

abbrev user_space : BackendCaps
user_space = record {
  kernel_wg = false;
  userspace_wg = true;
  kernel_amnezia = false;
  userspace_amnezia = true;
  swift = false;
  awg_tool = true;
}

resolve_backend-IsChosen_example :
    IsChosen (normalize_protocol (text "amnezia")) (normalize_backend []) (text "amnezia_go")
resolve_backend-IsChosen_example =
    resolve_backend-IsChosen (text "amnezia") [] user_space (text "amnezia_go")
      (unfold resolve_backend in refl)

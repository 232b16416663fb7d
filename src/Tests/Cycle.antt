-- ===== src/Tests/Cycle.antt =====
-- A cycle over the backend in memory: a stale row of the mesh, an interface to bring up, and one that
-- has lost its row.
use wireguardd.Base.{
  Bool, All, text, starts_with, insert, contains, Bytes, ◌≡◌, refl, ◌⊎◌, true, false, Option, none,
  some, List, [], ◌∷◌, ◌++◌,
}
use wireguardd.Db.{Interface}
use wireguardd.Db.Tables.{Faults, list_interfaces}
use wireguardd.Host.{AmneziaParams, Backend, ensure_interface}
use wireguardd.Host.Mock.{Mock, new_mock, mock_backend}
use wireguardd.Stats.{new_cache}
use wireguardd.Reconcile.{attempt, Config, Env, World}
use wireguardd.Reconcile.Twins.{wg_ports, mux_maps}
use wireguardd.Reconcile.Desired.{enforce_peers, desired_interface}
use wireguardd.Reconcile.Enforced.{enforced, enforce_peers-enforced}
use wireguardd.Reconcile.Shared.{TakesPort, mux_maps-TakesPort}
use wireguardd.Reconcile.Apply.{bring_up}
use wireguardd.Reconcile.Apply.Calls.{
  before_device, Made, opening_calls, closing_calls, bring_up-calls,
}
use wireguardd.Reconcile.Apply.Reached.{Reached, mock, bring_up-Reached}
use wireguardd.Reconcile.Cycle.{desired_names, run}
use wireguardd.Reconcile.Cycle.Permitted.{AllPermitted}
use wireguardd.Reconcile.Cycle.Safety.{run-AllPermitted}
use wireguardd.Reconcile.Cycle.Settled.{AllKeys, run-desired}
use wireguardd.Tests.Policy.{quota_peer, no_time}

abbrev no_host : Bytes → Option Bytes
no_host s = none

abbrev is_ten : Bytes → Bool
unfolding starts_with
is_ten s = starts_with s (text "10.")

abbrev writes_files : Bytes → Bool
writes_files path = true

abbrev in_memory : Backend Mock
unfolding mock_backend
in_memory = mock_backend no_host is_ten writes_files

abbrev hybrid : Config
hybrid = record {
  persistence = text "hybrid";
  conf_dir = text "/etc/wireguard";
  handshake_connected_sec = 180;
  sample_retention = 604800000000000;
  allow_hooks = true;
}

abbrev no_faults : Faults
no_faults = record {
  listing_interfaces = false;
  listing_peers = λ n. false;
  listing_all_peers = false;
  suspending = λ n. false;
  updating_stats = λ n. false;
  inserting_event = λ e. false;
  inserting_samples = λ ss. false;
  purging = false;
}

abbrev no_json : Bytes → Option AmneziaParams
no_json s = none

abbrev noon : Env
noon = record {
  now = λ m. 1000000000000;
  faults = no_faults;
  parse_nano = no_time;
  parse_seconds = no_time;
  format_time = λ t. text "noon";
  unmarshal = no_json;
  quote = λ s. s;
  join_path = λ d f. d ++ b'/' ∷ f;
}

abbrev wg0 : Interface
wg0 = record {
  id = 1;
  name = text "wg0";
  private_key = text "key";
  public_key = text "pub";
  listen_port = 51820;
  fw_mark = 0;
  mtu = 1420;
  table_mode = [];
  table_id = none;
  dns = [];
  addresses = text "10.0.0.1/24" ∷ [];
  pre_up = [];
  post_up = text "up";
  pre_down = [];
  post_down = [];
  default_keepalive = 0;
  public_endpoint = [];
  enabled = true;
  backend = [];
  protocol = text "wg";
  amnezia_json = [];
  pair_name = [];
  mux_port = 0;
}

abbrev mesh0 : Interface
mesh0 = record wg0 { name = text "mesh0"; listen_port = 51900 }

abbrev awg0 : Interface
awg0 = record wg0 {
  name = text "awg0";
  listen_port = 51830;
  protocol = text "awg";
  mux_port = 443;
  backend = text "swift";
}

abbrev rows : List Interface
rows = mesh0 ∷ wg0 ∷ []

abbrev before : World Mock
unfolding new_mock new_cache
before = record {
  tables = record { interfaces = rows; peers = quota_peer ∷ []; events = []; samples = [] };
  host = new_mock;
  calls = [];
  hook_state = (text "old0", true) ∷ [];
  prev_sample = [];
  prev_peer_conn = [];
  cache = new_cache;
}

abbrev after : World Mock
unfolding run
after = let (_, w) = run in_memory hybrid noon before in w

listed : list_interfaces no_faults before.tables ≡ some rows
unfolding list_interfaces before
listed = refl

run-AllPermitted_example :
    let (_, w') = run in_memory hybrid noon before in AllPermitted hybrid noon rows w'.calls
run-AllPermitted_example =
    run-AllPermitted in_memory hybrid noon rows before listed (unfold before in tt)

run-desired_example : AllKeys (λ k. contains k (desired_names rows) ≡ true) after.hook_state
run-desired_example =
    run-desired in_memory hybrid noon rows before after listed (unfold run after before in refl)

bring_up-calls_example :
    let w' = bring_up in_memory hybrid noon wg0 (quota_peer ∷ []) before in
    let c = ensure_interface (desired_interface noon wg0 (quota_peer ∷ [])) in
    let (ensured, _) = attempt in_memory c (before_device in_memory hybrid noon wg0 before) in
    ((ensured ≡ false)
      × Made in_memory hybrid noon (opening_calls hybrid noon wg0 (quota_peer ∷ []) none) before w')
    ⊎ ((ensured ≡ true)
        × ((w'.calls
              ≡ opening_calls hybrid noon wg0 (quota_peer ∷ []) none
                ++ closing_calls hybrid noon wg0 (quota_peer ∷ []) none)
            × (w'.hook_state ≡ insert (text "wg0") true before.hook_state)))
unfolding before
bring_up-calls_example = bring_up-calls in_memory hybrid noon wg0 (quota_peer ∷ []) before

enforce_peers-enforced_example :
    let (ps, _) = enforce_peers noon (text "wg0") 7 (quota_peer ∷ []) before in
    ps ≡ enforced noon 7 quota_peer ∷ []
enforce_peers-enforced_example = enforce_peers-enforced noon (text "wg0") 7 (quota_peer ∷ []) before

mux_maps-TakesPort_example :
    All (TakesPort (wg_ports (wg0 ∷ awg0 ∷ []))) (mux_maps no_json (wg0 ∷ awg0 ∷ []))
mux_maps-TakesPort_example = mux_maps-TakesPort no_json (wg0 ∷ awg0 ∷ [])

bring_up-Reached_example :
    Reached wg0
      (quota_peer ∷ [])
      (bring_up
        (mock no_host is_ten writes_files hybrid noon)
        hybrid
        noon
        wg0
        (quota_peer ∷ [])
        before).host
bring_up-Reached_example =
    bring_up-Reached no_host is_ten writes_files hybrid noon wg0 (quota_peer ∷ []) before
      (unfold before in refl)

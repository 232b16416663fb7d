-- ===== src/Reconcile/Apply/InMemory.antt =====
-- On the backend in memory, an interface that is brought up is as its row and its peers ask.
use wireguardd.Base.{
  ◌==◌, if◌then◌else◌, if-cases, length, is_blank, lookup, insert, remove, lookup-insert, Bytes,
  ◌≡◌, refl, sym, Bool, true, false, not, ◌&&◌, ◌||◌, false≢true, Option, none, some, List, [], ◌∷◌,
}
use mathlib.Core.Path.{subst}
use wireguardd.Db.{Interface, Peer}
use wireguardd.Host.{
  DesiredPeer, DesiredInterface, Device, Backend, run_hook, apply_peers, apply_suspend_routes,
  sync_bandwidth, set_up, sync_routes, sync_dns,
}
use wireguardd.Host.Mock.{
  Mock, mock_backend, mock_perform, mock_apply_peers, mock_set_up, mock_sync_bandwidth,
  mock_sync_routes, mock_sync_dns, mock_export_conf, unless_failing, applied_peers,
}
use wireguardd.Host.Dns.{parse_dns_list}
use wireguardd.Reconcile.{Config, Env, World, attempt, call}
use wireguardd.Reconcile.Desired.{desired_interface}
use wireguardd.Reconcile.Export.{export_call, exports}
use wireguardd.Reconcile.Quiet.{sample_interface-Keeps}
use wireguardd.Reconcile.Apply.{
  going_up, going_down, hook, suspend_routes, apply_device, export_interface, apply_interface,
}

-- A device stands under a name, and no failure is due.
abbrev pub Holds : Bytes → Device → Mock → Type 0
Holds name d m = (lookup name m.devices ≡ some d) × (m.failing ≡ false)

pub if-false : {A : Type 0} (b : Bool) (x y : A) → b ≡ false → (if b then x else y) ≡ y
if-false false x y h = refl
if-false true x y h = absurd (false≢true (sym h))

pub unless_failing-false :
    (f : Mock → Bool × Mock) (m : Mock) → m.failing ≡ false → unless_failing f m ≡ f m
unfolding unless_failing
unless_failing-false f m h = if-false m.failing (false, record m { failing = false }) (f m) h

mock_apply_peers-Holds :
    (name : Bytes) (ps : List DesiredPeer) (d : Device) (m : Mock)
    → Holds name d m
    → let (_, m') = mock_apply_peers name ps m in
      Holds name (record d { peers = applied_peers d.peers ps }) m'
unfolding mock_apply_peers
mock_apply_peers-Holds name ps d m (e, h) =
    subst
      (λ r.
        let (_, m') = elim r as (λ _. Bool × Mock) [
          | none ↦ (false, m)
          | some d ↦ (
            true,
            record m {
              devices = insert name (record d { peers = applied_peers d.peers ps }) m.devices;
            },
          )
        ] in
        Holds name (record d { peers = applied_peers d.peers ps }) m')
      (sym e) (lookup-insert name (record d { peers = applied_peers d.peers ps }) m.devices, h)

mock_set_up-Holds :
    (name : Bytes) (up : Bool) (d : Device) (m : Mock)
    → Holds name d m
    → let (_, m') = mock_set_up name up m in Holds name (record d { up = up }) m'
unfolding mock_set_up
mock_set_up-Holds name up d m (e, h) =
    subst
      (λ r.
        let (_, m') = elim r as (λ _. Bool × Mock) [
          | none ↦ (false, m)
          | some d ↦ (true, record m { devices = insert name (record d { up = up }) m.devices })
        ] in
        Holds name (record d { up = up }) m')
      (sym e) (lookup-insert name (record d { up = up }) m.devices, h)

module _ (split_host_port : Bytes → Option Bytes) (is_ip writes : Bytes → Bool) (cfg : Config)
    (env : Env) where
  unfoldable pub memory : Backend Mock
  unfolding mock_backend
  memory = mock_backend split_host_port is_ip writes

  module _ (name : Bytes) (d : Device) where
    pub hook-Holds :
        (edge : Bool) (cmd : Bytes) (w : World Mock)
        → Holds name d w.host
        → Holds name d (hook memory cfg env edge cmd w).host
    unfolding hook call attempt memory mock_backend mock_perform
    hook-Holds edge cmd w h =
        if-cases (λ u. Holds name d u.host) (cfg.allow_hooks && edge && not (is_blank cmd))
          (call memory (run_hook cmd) w) w (λ _. h) (λ _. h)

    suspend_routes-Holds :
        (ps : List DesiredPeer) (w : World Mock)
        → Holds name d w.host
        → Holds name d (suspend_routes memory cfg env name ps w).host
    unfolding suspend_routes call attempt memory mock_backend mock_perform
    suspend_routes-Holds [] w h = h
    suspend_routes-Holds (p ∷ ps) w h =
        suspend_routes-Holds ps (call memory (apply_suspend_routes name p p.suspended) w) h

    export_interface-Holds :
        (i : Interface) (peers : List Peer) (w : World Mock)
        → Holds name d w.host
        → Holds name d (export_interface memory cfg env i peers w).host
    unfolding export_interface export_call call attempt memory mock_backend mock_perform
        mock_export_conf
    export_interface-Holds i peers w h =
        if-cases (λ u. Holds name d u.host) (exports cfg i)
          (call memory (export_call cfg env i peers) w) w (λ _. h) (λ _. h)

  -- A device after `ApplyPeers` and `SetUp`.
  abbrev pub applied : DesiredInterface → Device → Device
  applied di d = record d { peers = applied_peers d.peers di.peers; up = di.enabled }

  apply_peers-Holds :
      (name : Bytes) (ps : List DesiredPeer) (d : Device) (w : World Mock)
      → Holds name d w.host
      → Holds name
          (record d { peers = applied_peers d.peers ps })
          (call memory (apply_peers name ps) w).host
  unfolding call attempt memory mock_backend mock_perform
  apply_peers-Holds name ps d w (e, h) =
      subst (λ r. let (_, m) = r in Holds name (record d { peers = applied_peers d.peers ps }) m)
        (sym (unless_failing-false (mock_apply_peers name ps) w.host h))
        (mock_apply_peers-Holds name ps d w.host (e, h))

  set_up-Holds :
      (name : Bytes) (up : Bool) (d : Device) (w : World Mock)
      → Holds name d w.host
      → Holds name (record d { up = up }) (call memory (set_up name up) w).host
  unfolding call attempt memory mock_backend mock_perform
  set_up-Holds name up d w (e, h) =
      subst (λ r. let (_, m) = r in Holds name (record d { up = up }) m)
        (sym (unless_failing-false (mock_set_up name up) w.host h))
        (mock_set_up-Holds name up d w.host (e, h))

  limits-Holds :
      (name : Bytes) (ps : List DesiredPeer) (d : Device) (w : World Mock)
      → Holds name d w.host
      → Holds name d (call memory (sync_bandwidth name ps) w).host
  unfolding call attempt memory mock_backend mock_perform mock_sync_bandwidth
  limits-Holds name ps d w h = h

  routes-Holds :
      (di : DesiredInterface) (d : Device) (w : World Mock)
      → Holds di.name d w.host
      → Holds di.name d (call memory (sync_routes di) w).host
  unfolding call attempt memory mock_backend mock_perform mock_sync_routes
  routes-Holds di d w h = h

  mock_sync_dns-Holds :
      (name : Bytes) (di : DesiredInterface) (d : Device) (m : Mock)
      → Holds name d m
      → let (_, m') = mock_sync_dns split_host_port is_ip writes di m in Holds name d m'
  unfolding mock_sync_dns
  mock_sync_dns-Holds name di d m h =
      let Q : Bool × Mock → Type 0 = λ r. let (_, m') = r in Holds name d m' in
      if-cases Q (not di.enabled || (length di.dns == 0))
        (true, record m { dns_applied = remove di.name m.dns_applied })
        (
          true,
          record m {
            dns_applied =
                insert di.name (parse_dns_list split_host_port is_ip di.dns) m.dns_applied;
          },
        )
        (λ _. h) (λ _. h)

  names-Holds :
      (di : DesiredInterface) (d : Device) (w : World Mock)
      → Holds di.name d w.host
      → Holds di.name d (call memory (sync_dns di) w).host
  unfolding call attempt memory mock_backend mock_perform
  names-Holds di d w h = mock_sync_dns-Holds di.name di d w.host h

  apply_device-Holds :
      (di : DesiredInterface) (d : Device) (w : World Mock)
      → Holds di.name d w.host
      → Holds di.name (applied di d) (apply_device memory cfg env di w).host
  unfolding apply_device
  apply_device-Holds di d w h =
      let d1 = record d { peers = applied_peers d.peers di.peers } in
      let w1 = call memory (apply_peers di.name di.peers) w in
      let w2 = suspend_routes memory cfg env di.name di.peers w1 in
      let w3 = call memory (sync_bandwidth di.name di.peers) w2 in
      let w4 = call memory (set_up di.name di.enabled) w3 in
      let w5 = call memory (sync_routes di) w4 in
      let h1 = apply_peers-Holds di.name di.peers d w h in
      let h2 = suspend_routes-Holds di.name d1 di.peers w1 h1 in
      let h4 = set_up-Holds di.name di.enabled d1 w3 (limits-Holds di.name di.peers d1 w2 h2) in
      names-Holds di (applied di d) w5 (routes-Holds di (applied di d) w4 h4)

  pub apply_interface-Holds :
      (i : Interface) (peers : List Peer) (was : Option Bool) (d : Device) (w : World Mock)
      → Holds i.name d w.host
      → Holds i.name
          (applied (desired_interface env i peers) d)
          (apply_interface memory cfg env i peers was w).host
  unfolding apply_interface
  apply_interface-Holds i peers was d w h =
      let di = desired_interface env i peers in
      let d' = applied di d in
      let w1 = apply_device memory cfg env di w in
      let u = hook memory cfg env (going_up i was) i.post_up w1 in
      let w2 = hook memory cfg env (going_down i was) i.post_down u in
      let w3 = record w2 { hook_state = insert i.name i.enabled w2.hook_state } in
      let w4 = export_interface memory cfg env i peers w3 in
      let h1 = apply_device-Holds di d w (unfold desired_interface in h) in
      let h2 =
        hook-Holds i.name d' (going_down i was) i.post_down u
          (hook-Holds i.name d' (going_up i was) i.post_up w1 h1) in
      let h4 = export_interface-Holds i.name d' i peers w3 h2 in
      let (_, e) = sample_interface-Keeps cfg env memory i peers w4 in
      subst (λ m. Holds i.name d' m) (sym e) h4

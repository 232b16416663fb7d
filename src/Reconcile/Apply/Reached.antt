-- ===== src/Reconcile/Apply/Reached.antt =====
-- On the backend in memory, an interface that is brought up is as its row and its peers ask.
use wireguardd.Base.{
  if◌then◌else◌, if-cases, is_blank, lookup, lookup-insert, Bytes, ◌≡◌, refl, sym, ap, ◌∙◌, Bool,
  true, false, not, ◌&&◌, false≢true, Option, none, some, List, [], ◌∷◌, map, arith,
}
use mathlib.Core.Path.{subst}
use wireguardd.Db.{Interface, Peer}
use wireguardd.Host.{DesiredInterface, LivePeer, Device, Backend, run_hook, ensure_interface}
use wireguardd.Host.Mock.{
  Mock, mock_backend, mock_perform, mock_ensure_interface, configured, device_or_new, applied_peers,
}
use wireguardd.Reconcile.{Config, Env, World, attempt, call}
use wireguardd.Reconcile.Desired.{desired_interface}
use wireguardd.Reconcile.Apply.{going_up, going_down, edge_events, hook, apply_interface, bring_up}
use wireguardd.Reconcile.Apply.Calls.{edge_events-Keeps}
use wireguardd.Host.{is_zero_key}
use wireguardd.Host.Mock.{old_peer, applied_peer}
use wireguardd.Reconcile.Desired.{desired_peer}
use wireguardd.Reconcile.Apply.InMemory.{
  Holds, memory, if-false, unless_failing-false, applied, apply_interface-Holds,
}

-- The device that stands under the name of an interface: it is up exactly if the interface is enabled,
-- it has a known private key of the row, and its peers are those of the list, with their allowed
-- addresses unless they are suspended.
pub record Reached (i : Interface) (peers : List Peer) (m : Mock) : Type 0 where
  pub device : Device
  pub stands : lookup i.name m.devices ≡ some device
  pub link : device.up ≡ i.enabled
  pub key : is_zero_key i.private_key ≡ false → device.private_key ≡ i.private_key
  pub keys : map (λ l. l.public_key) device.peers ≡ map (λ p. p.public_key) peers
  pub routes :
      map (λ l. l.allowed_ips) device.peers
      ≡ map (λ p. if p.suspended then [] else p.allowed_ips) peers

applied_peer-parts :
    (p : Peer) (old : Option LivePeer)
    → let l = applied_peer (desired_peer p) old in
      (l.public_key ≡ p.public_key) × (l.allowed_ips ≡ (if p.suspended then [] else p.allowed_ips))
unfolding applied_peer desired_peer
applied_peer-parts p none = (refl, refl)
applied_peer-parts p (some l) = (refl, refl)

applied_peers-keys :
    (prev : List LivePeer) (ps : List Peer)
    → map (λ l. l.public_key) (applied_peers prev (map desired_peer ps))
      ≡ map (λ p. p.public_key) ps
unfolding applied_peers
applied_peers-keys prev [] = refl
applied_peers-keys prev (p ∷ ps) =
    let (e, _) = applied_peer-parts p (old_peer (desired_peer p).public_key prev) in
    ground (arith, e, applied_peers-keys prev ps)

applied_peers-routes :
    (prev : List LivePeer) (ps : List Peer)
    → map (λ l. l.allowed_ips) (applied_peers prev (map desired_peer ps))
      ≡ map (λ p. if p.suspended then [] else p.allowed_ips) ps
unfolding applied_peers
applied_peers-routes prev [] = refl
applied_peers-routes prev (p ∷ ps) =
    let (_, e) = applied_peer-parts p (old_peer (desired_peer p).public_key prev) in
    ap (λ x. x ∷ map (λ l. l.allowed_ips) (applied_peers prev (map desired_peer ps))) e
    ∙ ap (λ xs. (if p.suspended then [] else p.allowed_ips) ∷ xs) (applied_peers-routes prev ps)

configured-key :
    (di : DesiredInterface) (d : Device)
    → is_zero_key di.private_key ≡ false
    → (configured di d).private_key ≡ di.private_key
unfolding configured
configured-key di d h = if-false (is_zero_key di.private_key) d.private_key di.private_key h

module _ (split_host_port : Bytes → Option Bytes) (is_ip writes : Bytes → Bool) (cfg : Config)
    (env : Env) where
  abbrev pub mock : Backend Mock
  mock = memory split_host_port is_ip writes cfg env

  -- What a device comes to when it is configured and applied.
  Holds→Reached :
      (i : Interface) (peers : List Peer) (d : Device) (m : Mock)
      → let di = desired_interface env i peers in
        Holds i.name (applied split_host_port is_ip writes cfg env di (configured di d)) m
        → Reached i peers m
  unfolding desired_interface configured
  Holds→Reached i peers d m (e, _) =
      let di = desired_interface env i peers in
      record {
        device = applied split_host_port is_ip writes cfg env di (configured di d);
        stands = e;
        link = refl;
        key = λ h. configured-key di d h;
        keys = applied_peers-keys d.peers peers;
        routes = applied_peers-routes d.peers peers;
      }

  hook-ready :
      (edge : Bool) (cmd : Bytes) (w : World Mock)
      → w.host.failing ≡ false
      → (hook mock cfg env edge cmd w).host.failing ≡ false
  unfolding hook call attempt memory mock_backend mock_perform
  hook-ready edge cmd w h =
      if-cases (λ u. u.host.failing ≡ false) (cfg.allow_hooks && edge && not (is_blank cmd))
        (call mock (run_hook cmd) w) w (λ _. h) (λ _. h)

  -- `EnsureInterface` succeeds, and leaves the device configured.
  ensured :
      (di : DesiredInterface) (w : World Mock)
      → w.host.failing ≡ false
      → let (ok, w') = attempt mock (ensure_interface di) w in
        (ok ≡ true)
        × Holds di.name
            (configured di (device_or_new di.name (lookup di.name w.host.devices)))
            w'.host
  unfolding attempt memory mock_backend mock_perform mock_ensure_interface
  ensured di w h =
      let d = configured di (device_or_new di.name (lookup di.name w.host.devices)) in
      subst (λ r. let (ok, m) = r in (ok ≡ true) × Holds di.name d m)
        (sym (unless_failing-false (mock_ensure_interface di) w.host h))
        (refl, (lookup-insert di.name d w.host.devices, h))

  -- On the backend in memory, without a failure due, an interface that is brought up reaches the state
  -- that its row and its peers ask for: its device is up exactly if it is enabled, has its private key
  -- if that is known, and exactly its peers, of which the suspended ones have no addresses.
  pub bring_up-Reached :
      (i : Interface) (peers : List Peer) (w : World Mock)
      → w.host.failing ≡ false
      → Reached i peers (bring_up mock cfg env i peers w).host
  unfolding bring_up
  bring_up-Reached i peers w h =
      let was = lookup i.name w.hook_state in
      let di = desired_interface env i peers in
      let v = edge_events mock cfg env i was w in
      let (_, e) = edge_events-Keeps mock cfg env i was w in
      let w1 = hook mock cfg env (going_up i was) i.pre_up v in
      let w2 = hook mock cfg env (going_down i was) i.pre_down w1 in
      let r = hook-ready (going_up i was) i.pre_up v (ap (λ m. m.failing) e ∙ h) in
      let (ok, w3) = attempt mock (ensure_interface di) w2 in
      let (k, d) = ensured di w2 (hook-ready (going_down i was) i.pre_down w1 r) in
      if-cases (λ u. Reached i peers u.host) ok (apply_interface mock cfg env i peers was w3) w3
        (λ _. Holds→Reached i peers (device_or_new di.name (lookup di.name w2.host.devices)) _ (
          apply_interface-Holds split_host_port is_ip writes cfg env i peers was _ w3
            (unfold desired_interface in d)))
        (λ q. absurd (false≢true (sym q ∙ k)))

-- ===== src/Reconcile/Apply.antt =====
-- internal/reconcile/reconciler.go: what `run` does for one interface, in its order.
pub mod Calls
pub mod InMemory
pub mod Reached
use wireguardd.Base.{
  if◌then◌else◌, text, is_blank, lookup, insert, Bytes, Bool, true, false, not, ◌&&◌, ◌||◌, Option,
  none, some, List, [], ◌∷◌,
}
use wireguardd.Db.{Interface, Peer, Event}
use wireguardd.Db.Tables.{list_peers_by_interface}
use wireguardd.Host.{
  DesiredPeer, DesiredInterface, Backend, Call, run_hook, ensure_interface, apply_peers,
  apply_suspend_routes, sync_bandwidth, set_up, sync_routes, sync_dns, export_conf, sync_mux,
  remove_interface,
}
use wireguardd.Reconcile.{Config, Env, World, attempt, call, Moment, enforcing}
use wireguardd.Reconcile.Desired.{record_event, event, enforce_peers, desired_interface}
use wireguardd.Reconcile.Export.{export_call, exports}
use wireguardd.Reconcile.Sampling.{sample_interface}

-- `r.hookState[name]`, as `wasEnabled` and as `seen`
abbrev pub was_enabled : Option Bool → Bool
was_enabled none = false
was_enabled (some b) = b

abbrev pub seen : Option Bool → Bool
seen none = false
seen (some b) = true

abbrev pub going_up : Interface → Option Bool → Bool
going_up i was = i.enabled && (not (seen was) || not (was_enabled was))

abbrev pub going_down : Interface → Option Bool → Bool
going_down i was = not i.enabled && seen was && was_enabled was

unfoldable pub up_event : Env → Interface → Event
unfolding event
up_event env i =
    event env (text "info") (text "interface.up") i.name [] (text "interface enabled") (text "{}")

unfoldable pub down_event : Env → Interface → Event
unfolding event
down_event env i =
    event env (text "warn") (text "interface.down") i.name [] (text "interface disabled")
      (text "{}")

module _ {S : Type 0} (B : Backend S) (cfg : Config) (env : Env) where
  unfoldable pub edge_events : Interface → Option Bool → World S → World S
  unfolding record_event up_event down_event
  edge_events i was w =
      if seen was && going_up i was
      then record_event env (up_event env i) w
      else if seen was && going_down i was
      then record_event env (down_event env i) w
      else w

  -- The hook of an edge, if hooks are allowed and there is one.
  unfoldable pub hook : Bool → Bytes → World S → World S
  unfolding call
  hook edge cmd w =
      if cfg.allow_hooks && edge && not (is_blank cmd) then call B (run_hook cmd) w else w

  unfoldable pub suspend_routes : Bytes → List DesiredPeer → World S → World S
  unfolding call
  suspend_routes name [] w = w
  suspend_routes name (p ∷ ps) w =
      suspend_routes name ps (call B (apply_suspend_routes name p p.suspended) w)

  -- Peers, routes, bandwidth, link state, routing table and DNS.
  unfoldable pub apply_device : DesiredInterface → World S → World S
  unfolding call suspend_routes
  apply_device di w =
      let w1 = suspend_routes di.name di.peers (call B (apply_peers di.name di.peers) w) in
      let w2 = call B (set_up di.name di.enabled) (call B (sync_bandwidth di.name di.peers) w1) in
      call B (sync_dns di) (call B (sync_routes di) w2)

  unfoldable pub export_interface : Interface → List Peer → World S → World S
  unfolding call exports export_call
  export_interface i peers w = if exports cfg i then call B (export_call cfg env i peers) w else w

  -- What follows a device that is ensured.
  unfoldable pub apply_interface : Interface → List Peer → Option Bool → World S → World S
  unfolding desired_interface apply_device hook export_interface sample_interface
  apply_interface i peers was w =
      let w1 = apply_device (desired_interface env i peers) w in
      let w2 = hook (going_down i was) i.post_down (hook (going_up i was) i.post_up w1) in
      let w3 = record w2 { hook_state = insert i.name i.enabled w2.hook_state } in
      sample_interface B cfg env i peers (export_interface i peers w3)

  -- From the edges on: if the device cannot be ensured, the interface is left for the next cycle.
  unfoldable pub bring_up : Interface → List Peer → World S → World S
  unfolding edge_events hook attempt desired_interface apply_interface
  bring_up i peers w =
      let was = lookup i.name w.hook_state in
      let w1 = hook (going_up i was) i.pre_up (edge_events i was w) in
      let w2 = hook (going_down i was) i.pre_down w1 in
      let (ok, w3) = attempt B (ensure_interface (desired_interface env i peers)) w2 in
      if ok then apply_interface i peers was w3 else w3

  -- What follows the listing of the peers; `none` is its error.
  unfoldable pub brought_up : Interface → World S → Option (List Peer) → Bool × World S
  unfolding enforce_peers bring_up
  brought_up i w none = (false, w)
  brought_up i w (some peers) =
      let (peers', w') = enforce_peers env i.name (env.now (enforcing i.name)) peers w in
      (true, bring_up i peers' w')

  -- One turn of the loop over the interfaces, past the reserved ones; `false` ends the cycle.
  unfoldable pub reconcile_interface : Interface → World S → Bool × World S
  unfolding list_peers_by_interface brought_up
  reconcile_interface i w = brought_up i w (list_peers_by_interface env.faults i.name w.tables)

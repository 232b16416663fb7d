-- ===== src/Reconcile/Apply/Calls.antt =====
-- The calls that one interface costs, in order.
use wireguardd.Base.{
  false, true, if◌then◌else◌, Bool-cases, is_blank, lookup, insert, Bytes, ◌≡◌, refl, sym, ap, ◌∙◌,
  ◌⊎◌, inl, inr, Bool, not, ◌&&◌, Option, List, [], ◌∷◌, ◌++◌, map, append_assoc, append-nil,
}
use wireguardd.Db.{Interface, Peer}
use wireguardd.Host.{
  DesiredPeer, DesiredInterface, Backend, Call, run_hook, ensure_interface, apply_peers,
  apply_suspend_routes, sync_bandwidth, set_up, sync_routes, sync_dns,
}
use wireguardd.Reconcile.{Config, Env, World, attempt, call}
use wireguardd.Reconcile.Desired.{record_event, desired_interface}
use wireguardd.Reconcile.Export.{export_call, exports}
use wireguardd.Reconcile.Sampling.{sample_interface}
use wireguardd.Reconcile.Quiet.{Keeps, if-Keeps, sample_interface-Keeps}
use wireguardd.Reconcile.Apply.{
  up_event, down_event, seen, going_up, going_down, edge_events, hook, suspend_routes, apply_device,
  export_interface, apply_interface, bring_up,
}

-- The hook of an edge: only if hooks are allowed and it is set.
abbrev pub hook_calls : Config → Bool → Bytes → List Call
hook_calls cfg edge cmd =
    if cfg.allow_hooks && edge && not (is_blank cmd) then run_hook cmd ∷ [] else []

abbrev pub route_calls : Bytes → List DesiredPeer → List Call
route_calls name ps = map (λ p. apply_suspend_routes name p p.suspended) ps

abbrev pub device_calls : DesiredInterface → List Call
device_calls di =
    apply_peers di.name di.peers ∷ route_calls di.name di.peers
    ++ sync_bandwidth di.name di.peers
      ∷ set_up di.name di.enabled
      ∷ sync_routes di
      ∷ sync_dns di
      ∷ []

abbrev pub export_calls : Config → Env → Interface → List Peer → List Call
export_calls cfg env i peers = if exports cfg i then export_call cfg env i peers ∷ [] else []

-- Up to the device.
abbrev pub opening_calls : Config → Env → Interface → List Peer → Option Bool → List Call
opening_calls cfg env i peers was =
    hook_calls cfg (going_up i was) i.pre_up
    ++ (hook_calls cfg (going_down i was) i.pre_down
        ++ ensure_interface (desired_interface env i peers) ∷ [])

-- What follows if the device could be ensured.
abbrev pub closing_calls : Config → Env → Interface → List Peer → Option Bool → List Call
closing_calls cfg env i peers was =
    device_calls (desired_interface env i peers)
    ++ (hook_calls cfg (going_up i was) i.post_up
        ++ (hook_calls cfg (going_down i was) i.post_down ++ export_calls cfg env i peers))

module _ {S : Type 0} (B : Backend S) (cfg : Config) (env : Env) where
  -- From one world to the other these calls were made, and no more, and the interfaces that count as
  -- managed are the same.
  abbrev pub Made : List Call → World S → World S → Type 0
  Made cs w w' = (w'.calls ≡ w.calls ++ cs) × (w'.hook_state ≡ w.hook_state)

  Made-trans :
      (cs ds : List Call) (u v w : World S) → Made cs u v → Made ds v w → Made (cs ++ ds) u w
  Made-trans cs ds u v w (h, a) (k, b) =
      (k ∙ ap (λ z. z ++ ds) h ∙ append_assoc u.calls cs ds, b ∙ a)

  Made-none : (w : World S) → Made [] w w
  Made-none w = (sym (append-nil w.calls), refl)

  Keeps→Made : (u v : World S) → Keeps u v → Made [] u v
  Keeps→Made u v ((a, b), _) = (a ∙ sym (append-nil u.calls), b)

  call-Made : (c : Call) (w : World S) → Made (c ∷ []) w (call B c w)
  unfolding call attempt
  call-Made c w = (refl, refl)

  hook-Made :
      (edge : Bool) (cmd : Bytes) (w : World S)
      → Made (hook_calls cfg edge cmd) w (hook B cfg env edge cmd w)
  unfolding hook
  hook-Made edge cmd w = elim (Bool-cases (cfg.allow_hooks && edge && not (is_blank cmd))) [
    | inl e ↦ rw e (call-Made (run_hook cmd) w)
    | inr e ↦ rw e (Made-none w)
  ]

  suspend_routes-Made :
      (name : Bytes) (ps : List DesiredPeer) (w : World S)
      → Made (route_calls name ps) w (suspend_routes B cfg env name ps w)
  unfolding suspend_routes
  suspend_routes-Made name [] w = Made-none w
  suspend_routes-Made name (p ∷ ps) w =
      let c = apply_suspend_routes name p p.suspended in
      Made-trans (c ∷ []) (route_calls name ps) w (call B c w)
        (suspend_routes B cfg env name ps (call B c w)) (call-Made c w)
        (suspend_routes-Made name ps (call B c w))

  apply_device-Made :
      (di : DesiredInterface) (w : World S) → Made (device_calls di) w (apply_device B cfg env di w)
  unfolding apply_device
  apply_device-Made di w =
      let a = apply_peers di.name di.peers in
      let b = sync_bandwidth di.name di.peers in
      let c = set_up di.name di.enabled in
      let w1 = call B a w in
      let w2 = suspend_routes B cfg env di.name di.peers w1 in
      let w3 = call B b w2 in
      let w4 = call B c w3 in
      let w5 = call B (sync_routes di) w4 in
      let w6 = call B (sync_dns di) w5 in
      Made-trans (a ∷ []) _ w w1 w6 (call-Made a w) (
        Made-trans (route_calls di.name di.peers) _ w1 w2 w6
          (suspend_routes-Made di.name di.peers w1)
          (Made-trans (b ∷ []) _ w2 w3 w6 (call-Made b w2) (
            Made-trans (c ∷ []) _ w3 w4 w6 (call-Made c w3) (
              Made-trans (sync_routes di ∷ []) (sync_dns di ∷ []) w4 w5 w6
                (call-Made (sync_routes di) w4) (call-Made (sync_dns di) w5)))))

  export_interface-Made :
      (i : Interface) (peers : List Peer) (w : World S)
      → Made (export_calls cfg env i peers) w (export_interface B cfg env i peers w)
  unfolding export_interface
  export_interface-Made i peers w = elim (Bool-cases (exports cfg i)) [
    | inl e ↦ rw e (call-Made (export_call cfg env i peers) w)
    | inr e ↦ rw e (Made-none w)
  ]

  pub edge_events-Keeps :
      (i : Interface) (was : Option Bool) (w : World S) → Keeps w (edge_events B cfg env i was w)
  unfolding edge_events record_event
  edge_events-Keeps i was w =
      let u = record_event env (up_event env i) w in
      let d = record_event env (down_event env i) w in
      let v = if seen was && going_down i was then d else w in
      if-Keeps (seen was && going_up i was) w u v ((refl, refl), refl)
        (if-Keeps (seen was && going_down i was) w d w ((refl, refl), refl) ((refl, refl), refl))

  regroup :
      (ws ds us os es : List Call)
      → (ws ++ (ds ++ (us ++ os))) ++ es ≡ ws ++ (ds ++ (us ++ (os ++ es)))
  regroup ws ds us os es =
      append_assoc ws (ds ++ (us ++ os)) es
      ∙ ap (λ z. ws ++ z)
          (append_assoc ds (us ++ os) es ∙ ap (λ z. ds ++ z) (append_assoc us os es))

  attempt-Made : (c : Call) (w : World S) → let (_, w') = attempt B c w in Made (c ∷ []) w w'
  unfolding attempt
  attempt-Made c w = (refl, refl)

  apply_interface-calls :
      (i : Interface) (peers : List Peer) (was : Option Bool) (w : World S)
      → let w' = apply_interface B cfg env i peers was w in
        (w'.calls ≡ w.calls ++ closing_calls cfg env i peers was)
        × (w'.hook_state ≡ insert i.name i.enabled w.hook_state)
  unfolding apply_interface
  apply_interface-calls i peers was w =
      let di = desired_interface env i peers in
      let w1 = apply_device B cfg env di w in
      let u = hook B cfg env (going_up i was) i.post_up w1 in
      let w2 = hook B cfg env (going_down i was) i.post_down u in
      let w3 = record w2 { hook_state = insert i.name i.enabled w2.hook_state } in
      let w4 = export_interface B cfg env i peers w3 in
      let w5 = sample_interface B cfg env i peers w4 in
      let ups = hook_calls cfg (going_up i was) i.post_up in
      let downs = hook_calls cfg (going_down i was) i.post_down in
      let exps = export_calls cfg env i peers in
      let (a, b) = Made-trans (device_calls di) (ups ++ downs) w w1 w2 (apply_device-Made di w) (
        Made-trans ups downs w1 u w2 (hook-Made (going_up i was) i.post_up w1)
          (hook-Made (going_down i was) i.post_down u)) in
      let (c, d) = export_interface-Made i peers w3 in
      let (same, _) = sample_interface-Keeps cfg env B i peers w4 in
      let (e, f) = same in
      (
        e ∙ c ∙ ap (λ z. z ++ exps) a ∙ regroup w.calls (device_calls di) ups downs exps,
        f ∙ d ∙ ap (insert i.name i.enabled) b,
      )

  both :
      (i : Interface) (peers : List Peer) (was : Option Bool) (w w3 : World S)
      → Made (opening_calls cfg env i peers was) w w3
      → let w' = apply_interface B cfg env i peers was w3 in
        (w'.calls
          ≡ w.calls ++ (opening_calls cfg env i peers was ++ closing_calls cfg env i peers was))
        × (w'.hook_state ≡ insert i.name i.enabled w.hook_state)
  both i peers was w w3 (a, b) =
      let (c, d) = apply_interface-calls i peers was w3 in
      (
        c
            ∙ ap (λ z. z ++ closing_calls cfg env i peers was) a
            ∙ append_assoc w.calls (opening_calls cfg env i peers was)
                (closing_calls cfg env i peers was),
        d ∙ ap (insert i.name i.enabled) b,
      )

  -- The world in which the device is to be ensured.
  abbrev pub before_device : Interface → World S → World S
  before_device i w =
      let was = lookup i.name w.hook_state in
      hook B cfg env (going_down i was) i.pre_down
        (hook B cfg env (going_up i was) i.pre_up (edge_events B cfg env i was w))

  -- An interface costs the opening calls (hooks of its edge, then the device), and exactly if its
  -- device could be ensured the closing ones follow in order and it counts as managed, in its present
  -- state; else what counts as managed stays.
  pub bring_up-calls :
      (i : Interface) (peers : List Peer) (w : World S)
      → let was = lookup i.name w.hook_state in
        let w' = bring_up B cfg env i peers w in
        let c = ensure_interface (desired_interface env i peers) in
        let (ensured, _) = attempt B c (before_device i w) in
        ((ensured ≡ false) × Made (opening_calls cfg env i peers was) w w')
        ⊎ ((ensured ≡ true)
            × ((w'.calls
                  ≡ w.calls
                    ++ (opening_calls cfg env i peers was ++ closing_calls cfg env i peers was))
                × (w'.hook_state ≡ insert i.name i.enabled w.hook_state)))
  unfolding bring_up
  bring_up-calls i peers w =
      let was = lookup i.name w.hook_state in
      let c = ensure_interface (desired_interface env i peers) in
      let ups = hook_calls cfg (going_up i was) i.pre_up in
      let downs = hook_calls cfg (going_down i was) i.pre_down in
      let v = edge_events B cfg env i was w in
      let w1 = hook B cfg env (going_up i was) i.pre_up v in
      let w2 = hook B cfg env (going_down i was) i.pre_down w1 in
      let (ok, w3) = attempt B c w2 in
      let opened =
        Made-trans [] (ups ++ (downs ++ c ∷ [])) w v w3 (Keeps→Made w v (edge_events-Keeps i was w))
          (Made-trans ups (downs ++ c ∷ []) v w1 w3 (hook-Made (going_up i was) i.pre_up v) (
            Made-trans downs (c ∷ []) w1 w2 w3 (hook-Made (going_down i was) i.pre_down w1)
              (attempt-Made c w2))) in
      elim (Bool-cases ok) [
        | inl e ↦ inr (e, rw e (both i peers was w w3 opened))
        | inr e ↦ inl (e, rw e opened)
      ]

-- ===== src/Reconcile/Cycle/Permitted.antt =====
-- Which calls a cycle may make of the host.
use wireguardd.Base.{
  get_elem?, some, ℕ, Bool-cases, All, text, is_blank, contains, All-append, Bytes, bytes_eq,
  bytes_eq→eq, ◌≡◌, refl, ◌⊎◌, inl, inr, Bool, true, false, not, ◌&&◌, Option, List, [], ◌∷◌, ◌++◌,
  arith,
}
use wireguardd.Db.{Interface, Peer}
use wireguardd.Host.{
  is_zero_key, DesiredPeer, DesiredInterface, Call, run_hook, ensure_interface, apply_peers,
  apply_suspend_routes, sync_bandwidth, set_up, sync_routes, sync_dns, export_conf, sync_mux,
  remove_interface,
}
use wireguardd.Reconcile.{Config, Env}
use wireguardd.Reconcile.Reserved.{reserved_host_interface}
use wireguardd.Reconcile.Twins.{mux_maps}
use wireguardd.Reconcile.Desired.{desired_interface}
use wireguardd.Reconcile.Export.{export_call, exports}
use wireguardd.Reconcile.Apply.{going_up, going_down}
use wireguardd.Reconcile.Apply.Calls.{
  hook_calls, route_calls, device_calls, export_calls, opening_calls, closing_calls,
}
use wireguardd.Reconcile.Cycle.{desired_names}

-- A row of the cycle, of an interface that is not the host's own.
pub record IsRow (is : List Interface) (i : Interface) : Type 0 where
  pub index : ℕ
  pub listed : get_elem? is index ≡ some i
  pub owned : reserved_host_interface i.name ≡ false

-- One of the hooks of a row.
pub data IsHookOf (i : Interface) : Bytes → Type 0 where
  pre_up : IsHookOf i i.pre_up
  post_up : IsHookOf i i.post_up
  pre_down : IsHookOf i i.pre_down
  post_down : IsHookOf i i.post_down

-- The name of a row.
abbrev pub Managed : List Interface → Bytes → Type 0
Managed is name = (i : Interface) × IsRow is i × (i.name ≡ name)

-- What a row asks for, with some peers.
abbrev pub Described : Env → List Interface → DesiredInterface → Type 0
Described env is di =
    (i : Interface) × IsRow is i × (peers : List Peer) × (di ≡ desired_interface env i peers)

-- A file that is written is the configuration of a row whose private key is known, and
-- configurations are to be kept in files.
pub record Exported (cfg : Config) (env : Env) (is : List Interface) (c : Call) : Type 0 where
  pub interface : Interface
  pub row : IsRow is interface
  pub peers : List Peer
  pub written : c ≡ export_call cfg env interface peers
  pub keyed : is_zero_key interface.private_key ≡ false
  pub stored : (cfg.persistence ≡ text "hybrid") ⊎ (cfg.persistence ≡ text "wg-quick")

-- A device is touched only for a row of an interface that is not the host's own, as the row describes
-- it; a hook is one of such a row; only an interface without a row is removed. The port maps are those
-- of all rows.
abbrev pub Permitted : Config → Env → List Interface → Call → Type 0
Permitted cfg env is (run_hook cmd) =
    (cfg.allow_hooks ≡ true) × ((i : Interface) × IsRow is i × IsHookOf i cmd)
Permitted cfg env is (ensure_interface di) = Described env is di
Permitted cfg env is (apply_peers name ps) = Managed is name
Permitted cfg env is (apply_suspend_routes name p suspend) = Managed is name
Permitted cfg env is (sync_bandwidth name ps) = Managed is name
Permitted cfg env is (set_up name up) =
    (i : Interface) × IsRow is i × (i.name ≡ name) × (i.enabled ≡ up)
Permitted cfg env is (sync_routes di) = Described env is di
Permitted cfg env is (sync_dns di) = Described env is di
Permitted cfg env is (export_conf path content) = Exported cfg env is (export_conf path content)
Permitted cfg env is (sync_mux ms) = ms ≡ mux_maps env.unmarshal is
Permitted cfg env is (remove_interface name) =
    (reserved_host_interface name ≡ false) × (contains name (desired_names is) ≡ false)

exports-parts :
    (cfg : Config) (i : Interface)
    → exports cfg i ≡ true
    → ((cfg.persistence ≡ text "hybrid") ⊎ (cfg.persistence ≡ text "wg-quick"))
      × (is_zero_key i.private_key ≡ false)
unfolding exports
exports-parts cfg i h = (
  elim (Bool-cases (bytes_eq cfg.persistence (text "hybrid"))) [
    | inl e ↦ inl (bytes_eq→eq cfg.persistence (text "hybrid") e)
    | inr e ↦ inr (bytes_eq→eq cfg.persistence (text "wg-quick") (ground arith))
  ],
  ground arith,
)

module _ (cfg : Config) (env : Env) (is : List Interface) where
  abbrev pub AllPermitted : List Call → Type 0
  AllPermitted cs = All (Permitted cfg env is) cs

  hook_calls-Permitted :
      (i : Interface) (edge : Bool) (cmd : Bytes)
      → IsRow is i
      → IsHookOf i cmd
      → AllPermitted (hook_calls cfg edge cmd)
  hook_calls-Permitted i edge cmd r k =
      elim (Bool-cases (cfg.allow_hooks && edge && not (is_blank cmd))) [
        | inl e ↦ rw e ((ground arith, (i, r, k)), tt)
        | inr e ↦ rw e tt
      ]

  route_calls-Permitted :
      (name : Bytes) (ps : List DesiredPeer) → Managed is name → AllPermitted (route_calls name ps)
  route_calls-Permitted name [] h = tt
  route_calls-Permitted name (p ∷ ps) h = (h, route_calls-Permitted name ps h)

  device_calls-Permitted :
      (i : Interface) (peers : List Peer)
      → IsRow is i
      → AllPermitted (device_calls (desired_interface env i peers))
  unfolding desired_interface
  device_calls-Permitted i peers r =
      let di = desired_interface env i peers in
      let named : Managed is i.name = (i, r, refl) in
      let described : Described env is di = (i, r, peers, refl) in
      (
        named,
        All-append (Permitted cfg env is) (route_calls di.name di.peers) _
            (route_calls-Permitted di.name di.peers named)
            (named, ((i, r, refl, refl), (described, (described, tt)))),
      )

  exported_call :
      (i : Interface) (peers : List Peer)
      → IsRow is i
      → exports cfg i ≡ true
      → Permitted cfg env is (export_call cfg env i peers)
  unfolding export_call
  exported_call i peers r e =
      let (s, k) = exports-parts cfg i e in
      record { interface = i; row = r; peers = peers; written = refl; keyed = k; stored = s }

  export_calls-Permitted :
      (i : Interface) (peers : List Peer) → IsRow is i → AllPermitted (export_calls cfg env i peers)
  export_calls-Permitted i peers r = elim (Bool-cases (exports cfg i)) [
    | inl e ↦ rw e (exported_call i peers r e, tt)
    | inr e ↦ rw e tt
  ]

  pub opening_calls-Permitted :
      (i : Interface) (peers : List Peer) (was : Option Bool)
      → IsRow is i
      → AllPermitted (opening_calls cfg env i peers was)
  opening_calls-Permitted i peers was r =
      All-append (Permitted cfg env is) (hook_calls cfg (going_up i was) i.pre_up) _
        (hook_calls-Permitted i (going_up i was) i.pre_up r pre_up)
        (All-append (Permitted cfg env is) (hook_calls cfg (going_down i was) i.pre_down) _
          (hook_calls-Permitted i (going_down i was) i.pre_down r pre_down)
          ((i, r, peers, refl), tt))

  pub closing_calls-Permitted :
      (i : Interface) (peers : List Peer) (was : Option Bool)
      → IsRow is i
      → AllPermitted (closing_calls cfg env i peers was)
  closing_calls-Permitted i peers was r =
      let P = Permitted cfg env is in
      let ups = hook_calls cfg (going_up i was) i.post_up in
      let downs = hook_calls cfg (going_down i was) i.post_down in
      let exps = export_calls cfg env i peers in
      All-append P (device_calls (desired_interface env i peers)) (ups ++ (downs ++ exps))
        (device_calls-Permitted i peers r)
        (All-append P ups (downs ++ exps)
          (hook_calls-Permitted i (going_up i was) i.post_up r post_up)
          (All-append P downs exps
            (hook_calls-Permitted i (going_down i was) i.post_down r post_down)
            (export_calls-Permitted i peers r)))

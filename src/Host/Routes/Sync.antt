-- ===== src/Host/Routes/Sync.antt =====
-- internal/wgbackend/table_routes.go: SyncRoutes and clearInterfaceRoutes over a Runner.
use wireguardd.Base.{
  includes, fields, if◌then◌else◌, text, format_int, join, is_blank, Map, lookup, insert, remove,
  Bytes, bytes_eq, ℕ, ◌+◌, Bool, false, not, ◌&&◌, ◌||◌, Option, none, some, List, [], ◌∷◌, ◌++◌,
}
use wireguardd.Host.{DesiredPeer, DesiredInterface}
use wireguardd.Host.Net.{Net, Runner}
use wireguardd.Host.Routes.{
  TableMode, RouteKey, RuleKey, normalize_table_mode, route_eq, rule_eq, has_key, normalize_cidr,
  classify_cidr, mark_of, Wanted, nothing_wanted, wanted_in,
}

-- `ifaceRouteState`
pub record IfaceRoutes : Type 0 where
  pub routes : List RouteKey
  pub rules : List RuleKey
  pub fwmark : ℕ

-- `routeState`, by the name of the interface
abbrev pub RouteState : Type 0
RouteState = Map IfaceRoutes

abbrev pub no_routes : IfaceRoutes
no_routes = record { routes = []; rules = []; fwmark = 0 }

-- `get`
abbrev pub get_routes : Bytes → RouteState → IfaceRoutes
get_routes name s = elim (lookup name s) [ none ↦ no_routes | some st ↦ st ]

-- `args` of a route and of a rule
abbrev route_args : Bytes → Bytes → RouteKey → List Bytes
route_args verb iface k =
    (b'-' ∷ k.proto)
    ∷ text "route"
    ∷ verb
    ∷ k.dst
    ∷ text "dev"
    ∷ iface
    ∷ (if is_blank k.table || bytes_eq k.table (text "main")
        then []
        else text "table" ∷ k.table ∷ [])

abbrev rule_args : Bytes → RuleKey → List Bytes
unfolding fields
rule_args verb k = (b'-' ∷ k.family) ∷ text "rule" ∷ verb ∷ fields k.spec

-- What is wanted: nothing while the interface is off.
unfoldable pub wanted_for : Net → TableMode → DesiredInterface → Wanted
unfolding wanted_in
wanted_for net TableMode.off d = nothing_wanted
wanted_for net mode d = if d.enabled then wanted_in net mode d else nothing_wanted

unfoldable pub wanted : Net → DesiredInterface → Wanted
unfolding normalize_table_mode wanted_for
wanted net d = wanted_for net (normalize_table_mode d.table_mode) d

-- The keys that are wanted, and those that are wanted no more.
module _ {K : Type 0} (eq : K → K → Bool) (want : List K) where
  abbrev pub kept_keys : List K → List K
  kept_keys [] = []
  kept_keys (k ∷ ks) = let rest = kept_keys ks in if has_key eq k want then k ∷ rest else rest

  abbrev pub stale_keys : List K → List K
  stale_keys [] = []
  stale_keys (k ∷ ks) = let rest = stale_keys ks in if has_key eq k want then rest else k ∷ rest

-- Whether an error of an addition only says that the key is there.
unfoldable pub route_exists : Bytes → Bool
unfolding includes
route_exists e = includes e (text "File exists") || includes e (text "exists")

unfoldable pub rule_exists : Bytes → Bool
unfolding includes
rule_exists e = includes e (text "File exists")

-- Where the loop over the missing keys stands: `prio` counts the rules that were added.
pub record Adding (K H : Type 0) : Type 0 where
  pub owned : List K
  pub prio : ℕ
  pub errors : List Bytes
  pub host : H

module _ {K H : Type 0} (eq : K → K → Bool) (add : K → ℕ → H → Option Bytes × H)
    (exists : Bytes → Bool) (label : K → Bytes) where
  abbrev own : K → H → Adding K H → Adding K H
  own k h a = record a { owned = k ∷ a.owned; prio = a.prio + 1; host = h }

  abbrev pub note_added : K → Option Bytes × H → Adding K H → Adding K H
  note_added k (none, h) a = own k h a
  note_added k (some e, h) a =
      if exists e
      then own k h a
      else record a { errors = a.errors ++ (label k ++ text ": " ++ e) ∷ []; host = h }

  abbrev pub add_one : K → Adding K H → Adding K H
  add_one k a = if has_key eq k a.owned then a else note_added k (add k a.prio a.host) a

  abbrev pub add_missing : List K → Adding K H → Adding K H
  add_missing [] a = a
  add_missing (k ∷ ks) a = add_missing ks (add_one k a)

unfoldable pub route_label : RouteKey → Bytes
route_label k = text "route " ++ k.dst

unfoldable pub rule_label : RuleKey → Bytes
rule_label k = text "rule " ++ k.spec

-- `fmt.Errorf("sync routes: %s", strings.Join(errs, "; "))`
unfoldable pub sync_error : List Bytes → Option Bytes
unfolding join
sync_error [] = none
sync_error (e ∷ es) = some (text "sync routes: " ++ join (text "; ") (e ∷ es))

pub record Synced (H : Type 0) : Type 0 where
  pub error : Option Bytes
  pub state : RouteState
  pub host : H

module _ {H : Type 0} (run : Runner H) where
  -- `addRoute`, `addRule`: the text of the error
  unfoldable pub add_route : Bytes → RouteKey → H → Option Bytes × H
  add_route iface k h =
      let (o, h') = run (text "ip") (route_args (text "replace") iface k) h in (o.error, h')

  unfoldable pub add_rule : RuleKey → ℕ → H → Option Bytes × H
  unfolding rule_args format_int
  add_rule k prio h =
      let (o, h') =
        run (text "ip") (rule_args (text "add") k ++ text "priority" ∷ format_int prio ∷ []) h in
      (o.error, h')

  -- `delRoute`, `delRule`: their errors are not looked at.
  unfoldable pub del_route : Bytes → RouteKey → H → H
  del_route iface k h = let (o, h') = run (text "ip") (route_args (text "del") iface k) h in h'

  unfoldable pub del_rule : RuleKey → H → H
  unfolding rule_args
  del_rule k h = let (o, h') = run (text "ip") (rule_args (text "del") k) h in h'

  unfoldable pub run_del : {K : Type 0} → (K → H → H) → List K → H → H
  run_del del [] h = h
  run_del del (k ∷ ks) h = run_del del ks (del k h)

  -- Everything that is owned is deleted.
  unfoldable pub tear_down : Bytes → IfaceRoutes → H → H
  unfolding del_route del_rule
  tear_down name st h = run_del del_rule st.rules (run_del (del_route name) st.routes h)

  unfoldable pub add_routes : Bytes → List RouteKey → List RouteKey → H → Adding RouteKey H
  unfolding add_route route_exists
  add_routes name owned want h =
      add_missing route_eq (λ k n h. add_route name k h) route_exists route_label want
        (record { owned = owned; prio = 0; errors = []; host = h })

  unfoldable pub add_rules : List RuleKey → List RuleKey → H → Adding RuleKey H
  unfolding add_rule rule_exists
  add_rules owned want h =
      add_missing rule_eq add_rule rule_exists rule_label want
        (record { owned = owned; prio = 32764; errors = []; host = h })

  -- The host without the stale routes and rules.
  unfoldable pub without_stale : Bytes → Wanted → IfaceRoutes → H → H
  unfolding run_del del_route del_rule
  without_stale name w st h =
      run_del del_rule (stale_keys rule_eq w.rules st.rules)
        (run_del (del_route name) (stale_keys route_eq w.routes st.routes) h)

  -- What the two loops over the missing keys leave.
  unfoldable pub both_added :
      Bytes → ℕ → Adding RouteKey H → Adding RuleKey H → RouteState → Synced H
  unfolding sync_error
  both_added name mark a b s = record {
    error = sync_error (a.errors ++ b.errors);
    state = insert name (record { routes = a.owned; rules = b.owned; fwmark = mark }) s;
    host = b.host;
  }

  -- `sync` of an interface that is on, from what it owns.
  unfoldable pub sync_from : Bytes → ℕ → Wanted → IfaceRoutes → RouteState → H → Synced H
  unfolding without_stale add_routes add_rules both_added
  sync_from name mark w st s h =
      let a =
        add_routes name (kept_keys route_eq w.routes st.routes) w.routes
          (without_stale name w st h) in
      both_added name mark a (add_rules (kept_keys rule_eq w.rules st.rules) w.rules a.host) s

  unfoldable pub sync_wanted : Bytes → ℕ → Wanted → RouteState → H → Synced H
  unfolding sync_from
  sync_wanted name mark w s h = sync_from name mark w (get_routes name s) s h

  -- `sync` of an interface that is off.
  unfoldable pub sync_off : Bytes → RouteState → H → Synced H
  unfolding tear_down
  sync_off name s h =
      let st = get_routes name s in
      record {
        error = none;
        state = insert name (record st { routes = []; rules = [] }) s;
        host = tear_down name st h;
      }

  module _ (net : Net) where
    unfoldable pub sync_mode : TableMode → DesiredInterface → RouteState → H → Synced H
    unfolding sync_wanted sync_off wanted_in mark_of
    sync_mode TableMode.off d s h = sync_off d.name s h
    sync_mode mode d s h =
        if d.enabled
        then sync_wanted d.name (mark_of d) (wanted_in net mode d) s h
        else sync_off d.name s h

    -- `routeState.sync`
    unfoldable pub sync : DesiredInterface → RouteState → H → Synced H
    unfolding sync_mode normalize_table_mode
    sync d s h = sync_mode (normalize_table_mode d.table_mode) d s h

    abbrev is_default : Option (Bytes × Bool) → Bool
    is_default none = false
    is_default (some (proto, b)) = b

    abbrev any_default : List Bytes → Bool
    unfolding classify_cidr normalize_cidr
    any_default [] = false
    any_default (a ∷ as') = is_default (classify_cidr net (normalize_cidr net a)) || any_default as'

    -- Whether a peer that is not suspended is to carry everything.
    unfoldable pub has_default : List DesiredPeer → Bool
    unfolding any_default
    has_default [] = false
    has_default (p ∷ ps) = (not p.suspended && any_default p.allowed_ips) || has_default ps

    -- `ensureDefaultRouteFwMark`: `configure` is the device's mark through the client, if there is
    -- one; errors are not looked at.
    unfoldable pub ensure_default_route_fw_mark :
        Option (Bytes → ℕ → H → H) → DesiredInterface → H → H
    unfolding normalize_table_mode has_default mark_of format_int
    ensure_default_route_fw_mark client d h = elim (normalize_table_mode d.table_mode) [
      | TableMode.auto ↦
          if d.enabled && has_default d.peers
          then elim client [
            | some configure ↦ configure d.name (mark_of d) h
            | none ↦
                let (o, h') =
                  run (text "wg")
                    (text "set" ∷ d.name ∷ text "fwmark" ∷ format_int (mark_of d) ∷ []) h in
                h'
          ]
          else h
      | mode ↦ h
    ]

    -- `SyncRoutes`
    unfoldable pub sync_routes :
        Option (Bytes → ℕ → H → H) → DesiredInterface → RouteState → H → Synced H
    unfolding sync ensure_default_route_fw_mark
    sync_routes client d s h = sync d s (ensure_default_route_fw_mark client d h)

  -- `clearInterfaceRoutes`
  unfoldable pub clear_interface_routes : Bytes → RouteState → H → RouteState × H
  unfolding tear_down
  clear_interface_routes name s h = elim (lookup name s) [
    | none ↦ (s, h)
    | some st ↦ (remove name s, tear_down name st h)
  ]

-- ===== src/Reconcile/Cycle/Safety.antt =====
-- A cycle makes no call that is not permitted.
use wireguardd.Base.{
  get_elem?, ℕ, suc, if◌then◌else◌, if-cases, Map, lookup, remove, contains, All-append, Bytes, ◌≡◌,
  refl, sym, inl, inr, Bool, true, false, Option, none, some, List, [], ◌∷◌, ◌++◌, map,
}
use mathlib.Core.Path.{subst}
use wireguardd.Db.{Interface, Peer}
use wireguardd.Db.Tables.{list_interfaces, list_peers_by_interface}
use wireguardd.Host.{Backend, Call, sync_mux, remove_interface}
use wireguardd.Reconcile.{Config, Env, World, enforcing, attempt, call}
use wireguardd.Reconcile.Reserved.{reserved_host_interface}
use wireguardd.Reconcile.Twins.{mux_maps}
use wireguardd.Reconcile.Desired.{enforce_peers}
use wireguardd.Reconcile.Quiet.{enforce_peers-Keeps}
use wireguardd.Reconcile.Apply.{bring_up, brought_up, reconcile_interface}
use wireguardd.Reconcile.Apply.Calls.{opening_calls, closing_calls, bring_up-calls}
use wireguardd.Reconcile.Cycle.{
  desired_names, reconcile_interfaces, sync_twins, remove_stale, drop_old, finish, run_rows, run,
}
use wireguardd.Reconcile.Cycle.Permitted.{
  IsRow, Permitted, AllPermitted, opening_calls-Permitted, closing_calls-Permitted,
}

module _ {S : Type 0} (B : Backend S) (cfg : Config) (env : Env) (rows : List Interface) where
  abbrev pub Safe : World S → Type 0
  Safe w = AllPermitted cfg env rows w.calls

  abbrev pub SafeResult : Bool × World S → Type 0
  SafeResult (ok, w) = Safe w

  call-Safe : (c : Call) (w : World S) → Permitted cfg env rows c → Safe w → Safe (call B c w)
  unfolding call attempt
  call-Safe c w p h = All-append (Permitted cfg env rows) w.calls (c ∷ []) h (p, tt)

  Safe-append :
      (w w' : World S) (cs : List Call)
      → w'.calls ≡ w.calls ++ cs
      → AllPermitted cfg env rows cs
      → Safe w
      → Safe w'
  Safe-append w w' cs e p h = rw e (All-append (Permitted cfg env rows) w.calls cs h p)

  bring_up-Safe :
      (i : Interface) (peers : List Peer) (w : World S)
      → IsRow rows i
      → Safe w
      → Safe (bring_up B cfg env i peers w)
  bring_up-Safe i peers w r h =
      let was = lookup i.name w.hook_state in
      let o = opening_calls cfg env i peers was in
      let c = closing_calls cfg env i peers was in
      let po = opening_calls-Permitted cfg env rows i peers was r in
      let pc = closing_calls-Permitted cfg env rows i peers was r in
      elim (bring_up-calls B cfg env i peers w) [
        | inl (_, (e, _)) ↦ Safe-append w (bring_up B cfg env i peers w) o e po h
        | inr (_, (e, _)) ↦
            Safe-append w (bring_up B cfg env i peers w) (o ++ c) e
              (All-append (Permitted cfg env rows) o c po pc) h
      ]

  listed-Safe :
      (i : Interface) (w : World S)
      → IsRow rows i
      → Safe w
      → (r : Option (List Peer)) → let (_, w') = (brought_up B cfg env i w r) in Safe w'
  unfolding brought_up
  listed-Safe i w r h none = h
  listed-Safe i w r h (some peers) =
      let now = env.now (enforcing i.name) in
      let (peers', w') = enforce_peers env i.name now peers w in
      let (same, _) = enforce_peers-Keeps env i.name now peers w in
      let (e, _) = same in bring_up-Safe i peers' w' r (rw e h)

  reconcile_interface-Safe :
      (i : Interface) (w : World S)
      → IsRow rows i
      → Safe w
      → let (_, w') = reconcile_interface B cfg env i w in Safe w'
  unfolding reconcile_interface
  reconcile_interface-Safe i w r h =
      listed-Safe i w r h (list_peers_by_interface env.faults i.name w.tables)

  -- Every one of some interfaces is among the rows.
  abbrev pub Within : List Interface → Type 0
  Within is =
      (k : ℕ) (i : Interface) → get_elem? is k ≡ some i → (n : ℕ) × (get_elem? rows n ≡ some i)

  reconcile_interfaces-Safe :
      (is : List Interface) (w : World S)
      → Within is
      → Safe w
      → let (_, w') = reconcile_interfaces B cfg env is w in Safe w'
  unfolding reconcile_interfaces
  reconcile_interfaces-Safe [] w among h = h
  reconcile_interfaces-Safe (i ∷ is) w among h =
      let (ok, w') = reconcile_interface B cfg env i w in
      let rest = reconcile_interfaces B cfg env is w' in
      let skipped = reconcile_interfaces B cfg env is w in
      let among' : Within is = λ k j e. among (suc k) j e in
      let (n, listed) = among 0 i refl in
      if-cases SafeResult (reserved_host_interface i.name) skipped
        (if ok then rest else (false, w')) (λ _. reconcile_interfaces-Safe is w among' h)
        (λ r.
          let h' =
            reconcile_interface-Safe i w (record { index = n; listed = listed; owned = r }) h in
          if-cases SafeResult ok rest (false, w') (λ _. reconcile_interfaces-Safe is w' among' h')
            (λ _. h'))

  sync_twins-Safe : (w : World S) → Safe w → Safe (sync_twins B cfg env rows w)
  unfolding sync_twins
  sync_twins-Safe w h =
      if-cases Safe B.drives_mux (call B (sync_mux (mux_maps env.unmarshal rows)) w) w
        (λ _. call-Safe (sync_mux (mux_maps env.unmarshal rows)) w refl h) (λ _. h)

  remove_stale-Safe :
      (live : List Bytes) (m : Map Bool) (w : World S)
      → Safe w
      → Safe (remove_stale B cfg env (desired_names rows) live m w)
  unfolding remove_stale
  remove_stale-Safe live [] w h = h
  remove_stale-Safe live ((name, on) ∷ m) w h =
      let desired = desired_names rows in
      let w' = record w { hook_state = remove name w.hook_state } in
      let kept = remove_stale B cfg env desired live m w in
      let forgotten = remove_stale B cfg env desired live m w' in
      let removed = remove_stale B cfg env desired live m (call B (remove_interface name) w') in
      if-cases Safe (contains name desired) kept _ (λ _. remove_stale-Safe live m w h)
        (λ d.
          if-cases Safe (reserved_host_interface name) forgotten
            (if contains name live then removed else forgotten) (λ _. remove_stale-Safe live m w' h)
            (λ r.
              if-cases Safe (contains name live) removed forgotten
                (λ _. remove_stale-Safe live m _ (call-Safe (remove_interface name) w' (r, d) h))
                (λ _. remove_stale-Safe live m w' h)))

  finish-Safe : (live : List Bytes) (w : World S) → Safe w → Safe (finish B cfg env rows live w)
  unfolding finish drop_old
  finish-Safe live w h =
      let w1 = sync_twins B cfg env rows w in
      remove_stale-Safe live w1.hook_state w1 (sync_twins-Safe w h)

  run_rows-Safe :
      (live : List Bytes) (w : World S)
      → Safe w
      → SafeResult (run_rows B cfg env (some rows) live w)
  unfolding run_rows
  run_rows-Safe live w h =
      let (ok, w') = reconcile_interfaces B cfg env rows w in
      let h' = reconcile_interfaces-Safe rows w (λ k i e. (k, e)) h in
      if-cases SafeResult ok (true, finish B cfg env rows live w') (false, w')
        (λ _. finish-Safe live w' h') (λ _. h')

-- Every call of a cycle is permitted, on every backend and whatever the database refuses: a device is
-- ensured, and its routes and names are set, only as a row describes it, with some peers, it is put up
-- or down as its row says, and its peers, blocked routes and limits are set only under the name of a
-- row, the rows of interfaces that the host keeps for itself left out; a hook runs only if hooks are
-- allowed and is one of such a row; a file is the configuration of such a row with a known private
-- key, and written only if files are kept; the port maps are those of all rows, the host's own
-- interfaces included; and only an interface without a row, not the host's own, is removed. The rows
-- are those that the cycle lists, and the calls so far must be permitted.
pub run-AllPermitted :
    {S : Type 0} (B : Backend S) (cfg : Config) (env : Env) (rows : List Interface) (w : World S)
    → list_interfaces env.faults w.tables ≡ some rows
    → AllPermitted cfg env rows w.calls
    → let (_, w') = run B cfg env w in AllPermitted cfg env rows w'.calls
unfolding run
run-AllPermitted B cfg env rows w e h =
    let live = map (λ d. d.name) (B.devices w.host) in
    subst (λ r. SafeResult B cfg env rows (run_rows B cfg env r live w)) (sym e)
      (run_rows-Safe B cfg env rows live w h)

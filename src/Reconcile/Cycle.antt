-- ===== src/Reconcile/Cycle.antt =====
-- internal/reconcile/reconciler.go: `run`, from the rows to the last cleanup.
pub mod Permitted
pub mod Safety
pub mod Settled
use wireguardd.Base.{
  if◌then◌else◌, Map, remove, retain, contains, Bytes, ℕ, ◌-◌, ◌*◌, Bool, true, false, Option, none,
  some, List, [], ◌∷◌, map,
}
use wireguardd.Db.{Interface, Peer}
use wireguardd.Db.Tables.{list_interfaces, list_all_peers, purge_samples, purge_events}
use wireguardd.Host.{Device, Backend, sync_mux, remove_interface}
use wireguardd.Stats.{retain_keys, peer_key}
use wireguardd.Reconcile.{Config, Env, World, call, Moment, purging}
use wireguardd.Reconcile.Reserved.{reserved_host_interface}
use wireguardd.Reconcile.Twins.{mux_maps}
use wireguardd.Reconcile.Apply.{reconcile_interface}

-- `desiredNames`
unfoldable pub desired_names : List Interface → List Bytes
unfolding reserved_host_interface
desired_names [] = []
desired_names (i ∷ is) =
    let rest = desired_names is in if reserved_host_interface i.name then rest else i.name ∷ rest

abbrev peer_keys : Option (List Peer) → List Bytes
unfolding peer_key
peer_keys none = []
peer_keys (some []) = []
peer_keys (some (p ∷ ps)) = peer_key p.interface_name p.public_key ∷ peer_keys (some ps)

module _ {S : Type 0} (B : Backend S) (cfg : Config) (env : Env) where
  -- The loop over the rows; `false` if a listing of peers fails, which ends the cycle.
  unfoldable pub reconcile_interfaces : List Interface → World S → Bool × World S
  unfolding reserved_host_interface reconcile_interface
  reconcile_interfaces [] w = (true, w)
  reconcile_interfaces (i ∷ is) w =
      let (ok, w') = reconcile_interface B cfg env i w in
      let rest = reconcile_interfaces is w' in
      let skipped = reconcile_interfaces is w in
      if reserved_host_interface i.name then skipped else if ok then rest else (false, w')

  unfoldable pub sync_twins : List Interface → World S → World S
  unfolding call mux_maps
  sync_twins is w = if B.drives_mux then call B (sync_mux (mux_maps env.unmarshal is)) w else w

  -- Interfaces that a cycle managed before and that have no row now. A name is forgotten in any case.
  unfoldable pub remove_stale : List Bytes → List Bytes → Map Bool → World S → World S
  unfolding call reserved_host_interface
  remove_stale desired live [] w = w
  remove_stale desired live ((name, on) ∷ rest) w =
      let w' = record w { hook_state = remove name w.hook_state } in
      let kept = remove_stale desired live rest w in
      let forgotten = remove_stale desired live rest w' in
      let removed = remove_stale desired live rest (call B (remove_interface name) w') in
      if contains name desired
      then kept
      else if reserved_host_interface name
      then forgotten
      else if contains name live
      then removed
      else forgotten

  event_retention : ℕ
  event_retention = 30 * 24 * 3600 * 1000000000

  -- What was seen of peers and interfaces without a row is dropped, and so are old samples and events.
  unfoldable pub drop_old : List Bytes → World S → World S
  unfolding peer_keys list_all_peers retain_keys purge_samples purge_events event_retention
  drop_old desired w =
      let keep = peer_keys (list_all_peers env.faults w.tables) in
      let t =
        purge_samples env.faults (env.format_time (env.now purging - cfg.sample_retention))
          w.tables in
      record w {
        prev_sample = retain (λ k. contains k keep) w.prev_sample;
        cache = retain_keys desired keep w.cache;
        tables = purge_events env.faults (env.format_time (env.now purging - event_retention)) t;
      }

  -- After the loop.
  unfoldable pub finish : List Interface → List Bytes → World S → World S
  unfolding sync_twins remove_stale drop_old desired_names
  finish is live w =
      let w1 = sync_twins is w in
      drop_old (desired_names is) (remove_stale (desired_names is) live w1.hook_state w1)

  run_rows : Option (List Interface) → List Bytes → World S → Bool × World S
  unfolding reconcile_interfaces finish
  run_rows none live w = (false, w)
  run_rows (some is) live w =
      let (ok, w') = reconcile_interfaces is w in
      if ok then (true, finish is live w') else (false, w')

  -- `run`: `false` is an error.
  unfoldable pub run : World S → Bool × World S
  unfolding list_interfaces run_rows
  run w = run_rows (list_interfaces env.faults w.tables) (map (λ d. d.name) (B.devices w.host)) w

-- ===== src/Reconcile/Cycle/Settled.antt =====
-- After a cycle, what counts as managed has a row.
use wireguardd.Base.{
  if◌then◌else◌, Bool-cases, if-cases, if-cases, All, Map, remove, contains, All-imp, Bytes,
  bytes_eq, bytes_eq→eq, bytes_eq_refl, ◌≡◌, refl, sym, ◌⊎◌, inl, inr, Bool, true, false,
  false≢true, some, List, [], ◌∷◌, map, arith,
}
use mathlib.Core.Path.{subst}
use wireguardd.Db.{Interface}
use wireguardd.Db.Tables.{list_interfaces}
use wireguardd.Host.{Backend, remove_interface}
use wireguardd.Reconcile.{Config, Env, World, attempt, call}
use wireguardd.Reconcile.Reserved.{reserved_host_interface}
use wireguardd.Reconcile.Cycle.{
  desired_names, reconcile_interfaces, sync_twins, remove_stale, drop_old, finish, run_rows, run,
}

-- Every key of a map.
abbrev pub AllKeys : (Bytes → Type 0) → Map Bool → Type 0
AllKeys P m = All (λ e. let (k, v) = e in P k) m

abbrev keys : Map Bool → List Bytes
keys [] = []
keys ((k, v) ∷ m) = k ∷ keys m

keys-AllKeys : (m : Map Bool) → AllKeys (λ k. contains k (keys m) ≡ true) m
keys-AllKeys [] = tt
keys-AllKeys ((k, v) ∷ m) =
    (ground (arith, bytes_eq_refl k), All-imp (λ e h. ground arith) m (keys-AllKeys m))

-- A key is desired, or one of those still to be looked at.
abbrev Pending : List Bytes → List Bytes → Bytes → Type 0
Pending desired todo k = (contains k desired ≡ true) ⊎ (contains k todo ≡ true)

-- A name that is looked at leaves no pending key if it is desired, or if it is forgotten.
later :
    (desired todo : List Bytes) (name k : Bytes)
    → (bytes_eq name k ≡ true → contains k desired ≡ true)
    → Pending desired (name ∷ todo) k
    → Pending desired todo k
later desired todo name k f (inl d) = inl d
later desired todo name k f (inr t) = elim (Bool-cases (bytes_eq name k)) [
  | inl e ↦ inl (f e)
  | inr e ↦ inr (ground arith)
]

kept-Pending :
    (desired todo : List Bytes) (name : Bytes) (m : Map Bool)
    → contains name desired ≡ true
    → AllKeys (Pending desired (name ∷ todo)) m
    → AllKeys (Pending desired todo) m
kept-Pending desired todo name m d h =
    All-imp
      (λ e p.
        let (k, v) = e in later desired todo name k (λ q. rw (sym (bytes_eq→eq name k q)) d) p)
      m h

removed-Pending :
    (desired todo : List Bytes) (name : Bytes) (m : Map Bool)
    → AllKeys (Pending desired (name ∷ todo)) m
    → AllKeys (Pending desired todo) (remove name m)
removed-Pending desired todo name [] h = tt
removed-Pending desired todo name ((k, v) ∷ m) (p, h) =
    let rest = removed-Pending desired todo name m h in
    if-cases (AllKeys (Pending desired todo)) (bytes_eq k name) (remove name m)
      ((k, v) ∷ remove name m) (λ _. rest)
      (λ e. (
        later desired todo name k
            (λ q. absurd (ground (arith, bytes_eq→eq name k q, bytes_eq_refl k))) p,
        rest,
      ))

-- If the cycle ends without an error, every key is desired.
abbrev Outcome : {S : Type 0} → List Interface → Bool × World S → Type 0
Outcome rows (ok, w) =
    ok ≡ true → AllKeys (λ k. contains k (desired_names rows) ≡ true) w.hook_state

module _ {S : Type 0} (B : Backend S) (cfg : Config) (env : Env) where
  remove_stale-desired :
      (desired live : List Bytes) (m : Map Bool) (w : World S)
      → AllKeys (Pending desired (keys m)) w.hook_state
      → let w' = remove_stale B cfg env desired live m w in
        AllKeys (λ k. contains k desired ≡ true) w'.hook_state
  unfolding remove_stale
  remove_stale-desired desired live [] w h =
      All-imp (λ e p. elim p [ inl d ↦ d | inr t ↦ absurd (false≢true t) ]) w.hook_state h
  remove_stale-desired desired live ((name, on) ∷ m) w h =
      let w' = record w { hook_state = remove name w.hook_state } in
      let kept = remove_stale B cfg env desired live m w in
      let forgotten = remove_stale B cfg env desired live m w' in
      let w'' = call B (remove_interface name) w' in
      let removed = remove_stale B cfg env desired live m w'' in
      let h' = removed-Pending desired (keys m) name w.hook_state h in
      let f = remove_stale-desired desired live m w' h' in
      let P : World S → Type 0 = λ u. AllKeys (λ k. contains k desired ≡ true) u.hook_state in
      if-cases P (contains name desired) kept _
        (λ d.
          remove_stale-desired desired live m w
            (kept-Pending desired (keys m) name w.hook_state d h))
        (λ _.
          if-cases P (reserved_host_interface name) forgotten
            (if contains name live then removed else forgotten) (λ _. f)
            (λ _.
              if-cases P (contains name live) removed forgotten
                (λ _. remove_stale-desired desired live m w'' (unfold call attempt in h'))
                (λ _. f)))

  finish-desired :
      (rows : List Interface) (live : List Bytes) (w : World S)
      → let w' = finish B cfg env rows live w in
        AllKeys (λ k. contains k (desired_names rows) ≡ true) w'.hook_state
  unfolding finish drop_old
  finish-desired rows live w =
      let w1 = sync_twins B cfg env rows w in
      let desired = desired_names rows in
      remove_stale-desired desired live w1.hook_state w1
        (All-imp (λ e t. inr t) w1.hook_state (keys-AllKeys w1.hook_state))

  run_rows-desired :
      (rows : List Interface) (live : List Bytes) (w : World S)
      → Outcome rows (run_rows B cfg env (some rows) live w)
  unfolding run_rows
  run_rows-desired rows live w =
      let (ok, w') = reconcile_interfaces B cfg env rows w in
      if-cases (Outcome rows) ok (true, finish B cfg env rows live w') (false, w')
        (λ _ _. finish-desired rows live w') (λ _ e. absurd (false≢true e))

run-Outcome :
    {S : Type 0} (B : Backend S) (cfg : Config) (env : Env) (rows : List Interface) (w : World S)
    → list_interfaces env.faults w.tables ≡ some rows
    → Outcome rows (run B cfg env w)
unfolding run
run-Outcome B cfg env rows w e =
    let live = map (λ d. d.name) (B.devices w.host) in
    subst (λ r. Outcome rows (run_rows B cfg env r live w)) (sym e)
      (run_rows-desired B cfg env rows live w)

-- After a cycle that ends without an error, every interface that counts as managed has a row and is
-- none that the host keeps for itself; the rows are those that the cycle lists.
pub run-desired :
    {S : Type 0} (B : Backend S) (cfg : Config) (env : Env) (rows : List Interface) (w w' : World S)
    → list_interfaces env.faults w.tables ≡ some rows
    → run B cfg env w ≡ (true, w')
    → AllKeys (λ k. contains k (desired_names rows) ≡ true) w'.hook_state
run-desired B cfg env rows w w' e h = subst (Outcome rows) h (run-Outcome B cfg env rows w e) refl

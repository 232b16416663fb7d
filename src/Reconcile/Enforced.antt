-- ===== src/Reconcile/Enforced.antt =====
-- What enforcement makes of the peers.
use wireguardd.Base.{Bytes, ℕ, ◌≡◌, refl, ◌||◌, List, [], ◌∷◌, map, arith}
use wireguardd.Db.{Peer}
use wireguardd.Policy.{should_auto_suspend_at, auto_suspend_reason}
use wireguardd.Reconcile.{Env, World}
use wireguardd.Reconcile.Desired.{enforce_peer, enforce_peers}

-- The peer with what policy says of it.
abbrev pub enforced : Env → ℕ → Peer → Peer
enforced env now p = record p {
  suspended = p.suspended || should_auto_suspend_at env.parse_nano env.parse_seconds p now;
}

module _ {S : Type 0} (env : Env) (iface : Bytes) (now : ℕ) where
  enforce_peer-enforced :
      (p : Peer) (w : World S)
      → let (p', _) = enforce_peer env iface now p w in p' ≡ enforced env now p
  unfolding enforce_peer should_auto_suspend_at auto_suspend_reason
  enforce_peer-enforced p w = ground arith

  -- The peers that are applied are those of the listing, in order, each suspended exactly if it was
  -- or if its traffic or its time is used up.
  pub enforce_peers-enforced :
      (ps : List Peer) (w : World S)
      → let (ps', _) = enforce_peers env iface now ps w in ps' ≡ map (enforced env now) ps
  unfolding enforce_peers
  enforce_peers-enforced [] w = refl
  enforce_peers-enforced (p ∷ ps) w =
      let (_, w') = enforce_peer env iface now p w in
      ground (arith, enforce_peer-enforced p w, enforce_peers-enforced ps w')

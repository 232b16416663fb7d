-- ===== src/Reconcile/Blocking.antt =====
-- internal/reconcile/reconciler.go: whose traffic a turn of the loop blocks.
use wireguardd.Base.{ℕ, Bytes, ◌≡◌, Bool, ◌||◌, List, [], ◌∷◌, ◌++◌}
use wireguardd.Db.{Interface, Peer}
use wireguardd.Host.{Backend, Call, apply_suspend_routes, ensure_interface}
use wireguardd.Policy.{should_auto_suspend_at}
use wireguardd.Reconcile.{Config, Env, World, attempt}
use wireguardd.Reconcile.Desired.{desired_interface}
use wireguardd.Reconcile.Apply.Calls.{before_device}

-- A peer whose traffic is to be blocked, or not.
pub record Block : Type 0 where
  pub interface : Bytes
  pub public_key : Bytes
  pub assigned_ips : List Bytes
  pub allowed_ips : List Bytes
  pub suspend : Bool

abbrev block_of : Call → List Block
block_of (apply_suspend_routes name p suspend) =
    record {
      interface = name;
      public_key = p.public_key;
      assigned_ips = p.assigned_ips;
      allowed_ips = p.allowed_ips;
      suspend = suspend;
    }
    ∷ []
block_of _ = []

-- The blocks among some calls, in order.
unfoldable pub blocks : List Call → List Block
blocks [] = []
blocks (c ∷ cs) = block_of c ++ blocks cs

abbrev pub owed_as : Bytes → Bool → Peer → Block
owed_as name suspend q = record {
  interface = name;
  public_key = q.public_key;
  assigned_ips = q.assigned_ips;
  allowed_ips = q.allowed_ips;
  suspend = suspend;
}

-- What is owed for a row: it is blocked exactly if it was suspended, or is to be.
abbrev pub owed : Env → Bytes → ℕ → Peer → Block
owed env name now q =
    owed_as name (q.suspended || should_auto_suspend_at env.parse_nano env.parse_seconds q now) q

module _ {S : Type 0} (B : Backend S) (cfg : Config) (env : Env) (i : Interface) where
  -- Whether the device of an interface can be ensured, for the peers that apply.
  unfoldable pub is_ensured : List Peer → World S → Bool
  is_ensured peers w =
      let (ensured, _) =
        attempt B (ensure_interface (desired_interface env i peers))
          (before_device B cfg env i w) in
      ensured

  -- From one world to the other, these blocks were made or lifted.
  abbrev pub Blocked : List Block → World S → World S → Type 0
  Blocked bs w w' = (new : List Call) × (w'.calls ≡ w.calls ++ new) × (blocks new ≡ bs)

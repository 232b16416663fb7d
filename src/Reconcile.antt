-- ===== src/Reconcile.antt =====
-- internal/reconcile/reconciler.go: the state of the reconciler and of the world that a cycle acts on.
pub mod Reserved
pub mod Twins
pub mod Desired
pub mod Export
pub mod Sampling
pub mod Enforced
pub mod Blocking
pub mod Shared
pub mod Quiet
pub mod Apply
pub mod Cycle
use wireguardd.Base.{
  if◌then◌else◌, Map, is_positive, Bytes, ℕ, ◌*◌, Bool, Option, List, [], ◌∷◌, ◌++◌,
}
use wireguardd.Db.Tables.{Tables, Faults}
use wireguardd.Host.{AmneziaParams, Call, Backend}
use wireguardd.Stats.{Seen}

-- What the cycle reads of `Config`; the two durations are nanoseconds.
pub record Config : Type 0 where
  pub persistence : Bytes
  pub conf_dir : Bytes
  pub handshake_connected_sec : ℕ
  pub sample_retention : ℕ
  pub allow_hooks : Bool

-- The defaults of `New`
unfoldable pub with_defaults : Config → Config
with_defaults c = record c {
  handshake_connected_sec =
      if is_positive c.handshake_connected_sec then c.handshake_connected_sec else 180;
  sample_retention =
      if is_positive c.sample_retention then c.sample_retention else 7 * 24 * 3600 * 1000000000;
}

-- The places of a cycle that read the clock.
pub data Moment : Type 0 where
  enforcing : Bytes → Moment
  sampling : Bytes → Moment
  recording : Bytes → Bytes → Moment
  purging : Moment

-- The clock, what the database refuses, and what the cycle uses of package time, encoding/json,
-- strconv and path/filepath.
pub record Env : Type 0 where
  pub now : Moment → ℕ
  pub faults : Faults
  pub parse_nano : Bytes → Option ℕ
  pub parse_seconds : Bytes → Option ℕ
  pub format_time : ℕ → Bytes
  pub unmarshal : Bytes → Option AmneziaParams
  pub quote : Bytes → Bytes
  pub join_path : Bytes → Bytes → Bytes

-- What was seen of a peer's counters: `stats.Sample` without its time, which only the rates use.
pub record Sample : Type 0 where
  pub rx : ℕ
  pub tx : ℕ

-- The reconciler's own state, the tables, the host, and the calls made to it so far, first to last.
pub record World (S : Type 0) : Type 0 where
  pub tables : Tables
  pub host : S
  pub calls : List Call
  pub hook_state : Map Bool
  pub prev_sample : Map Sample
  pub prev_peer_conn : Map Bool
  pub cache : Seen

-- A call of the backend, with whether it returned no error.
unfoldable pub attempt : {S : Type 0} → Backend S → Call → World S → Bool × World S
attempt B c w =
    let (ok, s) = B.perform c w.host in (ok, record w { host = s; calls = w.calls ++ c ∷ [] })

-- A call whose error is only logged.
unfoldable pub call : {S : Type 0} → Backend S → Call → World S → World S
unfolding attempt
call B c w = let (_, w') = attempt B c w in w'

-- ===== src/Stats/Lifetime.antt =====
-- Lifetime totals survive the resets of the counters that they are made from.
use wireguardd.Base.{IsCount, ℕ, ◌+◌, ◌≤◌, ◌<◌, ◌≡◌, ◌∙◌, Bool, true, false, List, [], ◌∷◌, arith}
use wireguardd.Stats.{accumulate_lifetime}

-- What happens to a counter between two observations: it goes on, or it starts again from 0.
pub data Tick : Type 0 where
  continued : ℕ → Tick
  restarted : ℕ → Tick

-- The counter that is seen after a tick.
abbrev pub counter : ℕ → Tick → ℕ
counter prev (continued n) = prev + n
counter prev (restarted n) = n

abbrev moved : Tick → ℕ
moved (continued n) = n
moved (restarted n) = n

-- The bytes that passed.
abbrev pub traffic : List Tick → ℕ
traffic [] = 0
traffic (t ∷ ts) = moved t + traffic ts

-- The total after observing every tick.
abbrev pub lifetime_after : ℕ → ℕ → List Tick → ℕ
lifetime_after lifetime prev [] = lifetime
lifetime_after lifetime prev (t ∷ ts) =
    lifetime_after (accumulate_lifetime lifetime (counter prev t) prev true) (counter prev t) ts

-- A restart shows: fewer bytes passed since than the counter had before.
abbrev pub Shows : ℕ → List Tick → Type 0
Shows prev [] = Unit
Shows prev (continued n ∷ ts) = Shows (prev + n) ts
Shows prev (restarted n ∷ ts) = (n < prev) × Shows n ts

tick-accumulate :
    (lifetime prev n : ℕ)
    → IsCount (lifetime + n)
    → IsCount (prev + n)
    → (accumulate_lifetime lifetime (prev + n) prev true ≡ lifetime + n)
      × (n < prev → accumulate_lifetime lifetime n prev true ≡ lifetime + n)
unfolding accumulate_lifetime
tick-accumulate lifetime prev n a b = (ground arith, λ h. ground arith)

-- Observed after each tick, the total grows by exactly the bytes that passed, resets included; every
-- reset must show, and the sums fit an int64.
pub lifetime_after-traffic :
    (lifetime prev : ℕ) (ts : List Tick)
    → Shows prev ts
    → IsCount (lifetime + traffic ts)
    → IsCount (prev + traffic ts)
    → lifetime_after lifetime prev ts ≡ lifetime + traffic ts
lifetime_after-traffic lifetime prev [] s a b = omega arith
lifetime_after-traffic lifetime prev (continued n ∷ ts) s a b =
    let (e, _) = tick-accumulate lifetime prev n (omega arith) (omega arith) in
    rw e (
      lifetime_after-traffic (lifetime + n) (prev + n) ts s (omega arith) (omega arith)
      ∙ omega arith)
lifetime_after-traffic lifetime prev (restarted n ∷ ts) (d, s) a b =
    let (_, e) = tick-accumulate lifetime prev n (omega arith) (omega arith) in
    rw (e d)
      (lifetime_after-traffic (lifetime + n) n ts s (omega arith) (omega arith) ∙ omega arith)

-- Whatever is observed, a total never drops, and grows by no more than the counter; for counts whose
-- sum fits an int64.
pub accumulate_lifetime-bounds :
    (lifetime raw prev : ℕ) (has_prev : Bool)
    → IsCount (lifetime + raw)
    → IsCount prev
    → (lifetime ≤ accumulate_lifetime lifetime raw prev has_prev)
      × (accumulate_lifetime lifetime raw prev has_prev ≤ lifetime + raw)
unfolding accumulate_lifetime
accumulate_lifetime-bounds lifetime raw prev true a b = (ground arith, ground arith)
accumulate_lifetime-bounds lifetime raw prev false a b = (ground arith, ground arith)

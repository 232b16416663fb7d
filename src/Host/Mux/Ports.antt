-- ===== src/Host/Mux/Ports.antt =====
-- What it means that maps are valid, and what the tests of their ports decide.
use wireguardd.Base.{
  Bool-cases, All, ℕ, ◌^◌, ◌≤◌, ◌<◌, ◌≡◌, refl, sym, ◌≢◌, inl, inr, false, List, [], ◌∷◌, map,
  arith,
}
use wireguardd.Host.{MuxMap}
use wireguardd.Host.Mux.{has_port, bad_port, shares_port}

abbrev pub IsPort : ℕ → Type 0
IsPort p = (1 ≤ p) × (p ≤ 65535)

abbrev pub NotIn : ℕ → List ℕ → Type 0
NotIn p qs = All (λ q. q ≢ p) qs

abbrev pub Distinct : List ℕ → Type 0
Distinct [] = Unit
Distinct (p ∷ ps) = NotIn p ps × Distinct ps

abbrev pub public_ports : List MuxMap → List ℕ
public_ports ms = map (λ m. m.public_port) ms

abbrev pub awg_ports : List MuxMap → List ℕ
awg_ports ms = map (λ m. m.awg_port) ms

-- The ports of the maps are `int`s.
abbrev pub IsInts : List MuxMap → Type 0
IsInts ms = All (λ m. (m.public_port < 2 ^ 64) × (m.awg_port < 2 ^ 64)) ms

-- What the comment of `ValidateMuxMaps` asks for.
pub record IsValid (ms : List MuxMap) : Type 0 where
  pub public_in_range : All IsPort (public_ports ms)
  pub awg_in_range : All IsPort (awg_ports ms)
  pub public_distinct : Distinct (public_ports ms)
  pub apart : All (λ p. NotIn p (awg_ports ms)) (public_ports ms)

pub bad_port→IsPort : (p : ℕ) → p < 2 ^ 64 → bad_port p ≡ false → IsPort p
unfolding bad_port
bad_port→IsPort p a h = ground arith

pub IsPort→bad_port : (p : ℕ) → IsPort p → bad_port p ≡ false
unfolding bad_port
IsPort→bad_port p h = ground arith

pub has_port→NotIn : (p : ℕ) (qs : List ℕ) → has_port p qs ≡ false → NotIn p qs
unfolding has_port
has_port→NotIn p [] h = tt
has_port→NotIn p (q ∷ qs) h = ground (arith, has_port→NotIn p qs)

pub NotIn→has_port : (p : ℕ) (qs : List ℕ) → NotIn p qs → has_port p qs ≡ false
unfolding has_port
NotIn→has_port p [] h = refl
NotIn→has_port p (q ∷ qs) (a, h) = let e = NotIn→has_port p qs h in ground arith

pub shares_port→apart : (ps bs : List ℕ) → shares_port ps bs ≡ false → All (λ p. NotIn p bs) ps
unfolding shares_port
shares_port→apart [] bs h = tt
shares_port→apart (p ∷ ps) bs h = elim (Bool-cases (has_port p bs)) [
  | inl e ↦ absurd (ground arith)
  | inr e ↦ (has_port→NotIn p bs e, shares_port→apart ps bs (ground arith))
]

pub apart→shares_port : (ps bs : List ℕ) → All (λ p. NotIn p bs) ps → shares_port ps bs ≡ false
unfolding shares_port
apart→shares_port [] bs h = refl
apart→shares_port (p ∷ ps) bs (a, h) =
    let e = NotIn→has_port p bs a in let k = apart→shares_port ps bs h in ground arith

-- The ports passed, last first, on those from before.
abbrev pub onto : List ℕ → List ℕ → List ℕ
onto [] ys = ys
onto (x ∷ xs) ys = onto xs (x ∷ ys)

pub onto-All : (P : ℕ → Type 0) (xs ys : List ℕ) → All P xs → All P ys → All P (onto xs ys)
onto-All P [] ys h k = k
onto-All P (x ∷ xs) ys (a, h) k = onto-All P xs (x ∷ ys) h (a, k)

pub All-onto : (P : ℕ → Type 0) (xs ys : List ℕ) → All P (onto xs ys) → All P xs × All P ys
All-onto P [] ys h = (tt, h)
All-onto P (x ∷ xs) ys h = let (a, (b, c)) = All-onto P xs (x ∷ ys) h in ((b, a), c)

-- Each port is none of those before it and none of `ps`.
abbrev pub Fresh : List ℕ → List ℕ → Type 0
Fresh [] ps = Unit
Fresh (q ∷ qs) ps = NotIn q ps × Fresh qs (q ∷ ps)

NotIn-first :
    (q : ℕ) (ps rs : List ℕ)
    → All (λ r. NotIn r (q ∷ ps)) rs
    → NotIn q rs × All (λ r. NotIn r ps) rs
NotIn-first q ps [] h = (tt, tt)
NotIn-first q ps (r ∷ rs) ((a, b), h) =
    let (c, d) = NotIn-first q ps rs h in ((λ e. a (sym e), c), (b, d))

first-NotIn :
    (q : ℕ) (ps rs : List ℕ)
    → NotIn q rs
    → All (λ r. NotIn r ps) rs
    → All (λ r. NotIn r (q ∷ ps)) rs
first-NotIn q ps [] h k = tt
first-NotIn q ps (r ∷ rs) (a, h) (b, k) = ((λ e. a (sym e), b), first-NotIn q ps rs h k)

pub Fresh→Distinct : (qs ps : List ℕ) → Fresh qs ps → Distinct qs × All (λ q. NotIn q ps) qs
Fresh→Distinct [] ps h = (tt, tt)
Fresh→Distinct (q ∷ qs) ps (a, h) =
    let (d, n) = Fresh→Distinct qs (q ∷ ps) h in
    let (b, c) = NotIn-first q ps qs n in ((b, d), (a, c))

pub Distinct→Fresh : (qs ps : List ℕ) → Distinct qs → All (λ q. NotIn q ps) qs → Fresh qs ps
Distinct→Fresh [] ps d n = tt
Distinct→Fresh (q ∷ qs) ps (b, d) (a, n) =
    (a, Distinct→Fresh qs (q ∷ ps) d (first-NotIn q ps qs b n))

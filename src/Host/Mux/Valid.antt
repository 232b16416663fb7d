-- ===== src/Host/Mux/Valid.antt =====
-- `ValidateMuxMaps` decides what its comment asks for.
use wireguardd.Base.{
  ◌==◌, All, All-imp, ℕ, ◌≡◌, refl, sym, ap, ◌∙◌, ◌≢◌, ◌↔◌, Bool, true, false, not, false≢true,
  Option, none, some, List, [], ◌∷◌, arith,
}
use wireguardd.Host.{MuxMap}
use wireguardd.Host.Mux.{has_port, bad_port, scan_maps, shares_port, verdict, validate_mux_maps}
use wireguardd.Host.Mux.Ports.{
  IsPort, NotIn, public_ports, awg_ports, IsInts, IsValid, Fresh, onto, bad_port→IsPort,
  IsPort→bad_port, has_port→NotIn, NotIn→has_port, shares_port→apart, apart→shares_port, onto-All,
  All-onto, Fresh→Distinct, Distinct→Fresh,
}

-- What the loop has seen when it ends without an error.
record Scanned (ms : List MuxMap) (ps bs us vs : List ℕ) : Type 0 where
  public_in_range : All IsPort (public_ports ms)
  awg_in_range : All IsPort (awg_ports ms)
  fresh : Fresh (public_ports ms) ps
  publics : us ≡ onto (public_ports ms) ps
  awgs : vs ≡ onto (awg_ports ms) bs

-- The tests of one turn that did not fail.
record Passed (m : MuxMap) (ps : List ℕ) : Type 0 where
  public_ok : bad_port m.public_port ≡ false
  awg_ok : bad_port m.awg_port ≡ false
  other : (m.public_port == m.awg_port) ≡ false
  unused : has_port m.public_port ps ≡ false

scan_maps-Passed :
    (m : MuxMap) (ms : List MuxMap) (ps bs : List ℕ) (r : List ℕ × List ℕ)
    → scan_maps (m ∷ ms) ps bs ≡ some r
    → Passed m ps × (scan_maps ms (m.public_port ∷ ps) (m.awg_port ∷ bs) ≡ some r)
unfolding scan_maps
scan_maps-Passed m ms ps bs r h = ground arith

scan_maps_step :
    (m : MuxMap) (ms : List MuxMap) (ps bs : List ℕ)
    → Passed m ps
    → scan_maps (m ∷ ms) ps bs ≡ scan_maps ms (m.public_port ∷ ps) (m.awg_port ∷ bs)
unfolding scan_maps
scan_maps_step m ms ps bs k = rw (k.public_ok, k.awg_ok, k.other, k.unused)

scan_maps-Scanned :
    (ms : List MuxMap) (ps bs us vs : List ℕ)
    → IsInts ms
    → scan_maps ms ps bs ≡ some (us, vs)
    → Scanned ms ps bs us vs
unfolding scan_maps
scan_maps-Scanned [] ps bs us vs i h = record {
  public_in_range = tt;
  awg_in_range = tt;
  fresh = tt;
  publics = ground arith;
  awgs = ground arith;
}
scan_maps-Scanned (m ∷ ms) ps bs us vs ((i, j), k) h =
    let (a, b) = scan_maps-Passed m ms ps bs (us, vs) h in
    let s = scan_maps-Scanned ms (m.public_port ∷ ps) (m.awg_port ∷ bs) us vs k b in
    record {
      public_in_range = (bad_port→IsPort m.public_port i a.public_ok, s.public_in_range);
      awg_in_range = (bad_port→IsPort m.awg_port j a.awg_ok, s.awg_in_range);
      fresh = (has_port→NotIn m.public_port ps a.unused, s.fresh);
      publics = s.publics;
      awgs = s.awgs;
    }

All-true : (ps : List ℕ) → All (λ p. NotIn p []) ps
All-true [] = tt
All-true (p ∷ ps) = (tt, All-true ps)

apart-tail : (q : ℕ) (qs ps : List ℕ) → All (λ p. NotIn p (q ∷ qs)) ps → All (λ p. NotIn p qs) ps
apart-tail q qs [] h = tt
apart-tail q qs (p ∷ ps) ((a, b), h) = (b, apart-tail q qs ps h)

scan_maps-some :
    (ms : List MuxMap) (ps bs : List ℕ)
    → All IsPort (public_ports ms)
    → All IsPort (awg_ports ms)
    → Fresh (public_ports ms) ps
    → All (λ p. NotIn p (awg_ports ms)) (public_ports ms)
    → scan_maps ms ps bs ≡ some (onto (public_ports ms) ps, onto (awg_ports ms) bs)
scan_maps-some [] ps bs a b f h = unfold scan_maps in refl
scan_maps-some (m ∷ ms) ps bs (a, a') (b, b') (f, f') ((h, hh), hs) =
    scan_maps_step m ms ps bs (record {
      public_ok = IsPort→bad_port m.public_port a;
      awg_ok = IsPort→bad_port m.awg_port b;
      other = ground arith;
      unused = NotIn→has_port m.public_port ps f;
    })
    ∙ scan_maps-some ms (m.public_port ∷ ps) (m.awg_port ∷ bs) a' b' f'
        (apart-tail m.awg_port (awg_ports ms) (public_ports ms) hs)

IsValid-validate_mux_maps : (ms : List MuxMap) → IsValid ms → validate_mux_maps ms ≡ true
unfolding validate_mux_maps verdict
IsValid-validate_mux_maps ms v =
    let e =
      scan_maps-some ms [] [] v.public_in_range v.awg_in_range
        (Distinct→Fresh (public_ports ms) [] v.public_distinct (All-true (public_ports ms)))
        v.apart in
    let k = apart→shares_port (onto (public_ports ms) []) (onto (awg_ports ms) []) (
      onto-All (λ p. NotIn p (onto (awg_ports ms) [])) (public_ports ms) []
        (All-imp (λ p h. onto-All (λ q. q ≢ p) (awg_ports ms) [] h tt) (public_ports ms) v.apart)
        tt) in
    ap verdict e ∙ ap not k

not-true : (b : Bool) → not b ≡ true → b ≡ false
not-true false h = refl
not-true true h = sym h

seen-IsValid :
    (ms : List MuxMap) (us vs : List ℕ)
    → Scanned ms [] [] us vs
    → shares_port us vs ≡ false
    → IsValid ms
seen-IsValid ms us vs s h = record {
  public_in_range = s.public_in_range;
  awg_in_range = s.awg_in_range;
  public_distinct = let (d, _) = Fresh→Distinct (public_ports ms) [] s.fresh in d;
  apart =
      let (a, _) =
        All-onto (λ p. NotIn p (onto (awg_ports ms) [])) (public_ports ms) []
          (rw (sym s.publics, sym s.awgs) (shares_port→apart us vs h)) in
      All-imp (λ p k. let (b, _) = All-onto (λ q. q ≢ p) (awg_ports ms) [] k in b) (public_ports ms)
        a;
}

accepted :
    (ms : List MuxMap)
    → IsInts ms
    → (r : Option (List ℕ × List ℕ)) → scan_maps ms [] [] ≡ r
    → verdict r ≡ true
    → IsValid ms
unfolding verdict
accepted ms i none e h = absurd (false≢true h)
accepted ms i (some (us, vs)) e h =
    seen-IsValid ms us vs (scan_maps-Scanned ms [] [] us vs i e) (not-true (shares_port us vs) h)

validate_mux_maps-IsValid :
    (ms : List MuxMap) → IsInts ms → validate_mux_maps ms ≡ true → IsValid ms
unfolding validate_mux_maps
validate_mux_maps-IsValid ms i h = accepted ms i (scan_maps ms [] []) refl h

-- `ValidateMuxMaps` accepts maps exactly if all their ports are in range, their public ports are
-- distinct, and no public port is an awg port of these maps; the ports must be ints.
pub validate_mux_maps_iff :
    (ms : List MuxMap) → IsInts ms → (validate_mux_maps ms ≡ true) ↔ IsValid ms
validate_mux_maps_iff ms i = (validate_mux_maps-IsValid ms i, IsValid-validate_mux_maps ms)

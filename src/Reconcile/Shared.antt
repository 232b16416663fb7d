-- ===== src/Reconcile/Shared.antt =====
-- Which ports the maps take.
use wireguardd.Base.{
  if◌then◌else◌, if-cases, All, text, is_positive, Bytes, bytes_eq, ℕ, ◌≡◌, refl, sym, ap, Bool,
  true, false, not, ◌||◌, false≢true, Option, none, some, List, [], ◌∷◌,
}
use wireguardd.Db.{Interface}
use wireguardd.Host.{AmneziaParams, is_neutral, MuxMap}
use wireguardd.Host.Names.{is_swift_backend}
use wireguardd.Host.Mux.{has_port}
use wireguardd.Reconcile.Twins.{decode_amnezia_json, wg_ports, mux_map_of, map_maybe, mux_maps}

-- A map takes the whole of a port that no plain interface listens on, or shares one that does; both
-- its ports are above 0.
abbrev pub TakesPort : List ℕ → MuxMap → Type 0
TakesPort ports m =
    ((m.alias ≡ not (has_port m.public_port ports)) × (is_positive m.public_port ≡ true))
    × (is_positive m.awg_port ≡ true)

-- What is said of the map, if there is one.
abbrev Says : (MuxMap → Type 0) → Option MuxMap → Type 0
Says P none = Unit
Says P (some m) = P m

eligible : (a b c : Bool) → (not a || not b || not c) ≡ false → (a ≡ true) × (c ≡ true)
eligible true true true h = (refl, refl)
eligible true true false h = absurd (false≢true (sym h))
eligible true false c h = absurd (false≢true (sym h))
eligible false b c h = absurd (false≢true (sym h))

mux_map_of-Says :
    (unmarshal : Bytes → Option AmneziaParams) (ports : List ℕ) (i : Interface)
    → Says (TakesPort ports) (mux_map_of unmarshal ports i)
unfolding mux_map_of
mux_map_of-Says unmarshal ports i =
    let P = Says (TakesPort ports) in
    let m : MuxMap = record {
      public_port = i.mux_port;
      awg_port = i.listen_port;
      iface = i.name;
      alias = false;
    } in
    let taken = has_port i.mux_port ports in
    if-cases P (not (is_positive i.mux_port) || not i.enabled || not (is_positive i.listen_port))
      none _ (λ _. tt)
      (λ u.
        let a = eligible (is_positive i.mux_port) i.enabled (is_positive i.listen_port) u in
        let (b, c) = a in
        if-cases P (not (bytes_eq i.protocol (text "awg"))) none _ (λ _. tt)
          (λ _.
            if-cases P (is_swift_backend i.backend)
              (if taken then none else some (record m { alias = true })) _
              (λ _.
                if-cases P taken none (some (record m { alias = true })) (λ _. tt)
                  (λ e. ((ap not (sym e), b), c)))
              (λ _.
                if-cases P (is_neutral (decode_amnezia_json unmarshal i.amnezia_json)) none
                  (if taken then some m else none) (λ _. tt)
                  (λ _. if-cases P taken (some m) none (λ e. ((ap not (sym e), b), c)) (λ _. tt)))))

kept_one :
    (P : MuxMap → Type 0) (r : Option MuxMap) (ms : List MuxMap)
    → Says P r
    → All P ms
    → All P (elim r [ none ↦ ms | some m ↦ m ∷ ms ])
kept_one P none ms h k = k
kept_one P (some m) ms h k = (h, k)

map_maybe-All :
    (P : MuxMap → Type 0) (f : Interface → Option MuxMap)
    → ((i : Interface) → Says P (f i))
    → (is : List Interface) → All P (map_maybe f is)
unfolding map_maybe
map_maybe-All P f h [] = tt
map_maybe-All P f h (i ∷ is) = kept_one P (f i) (map_maybe f is) (h i) (map_maybe-All P f h is)

-- A map that redirects a port as a whole never takes one of a plain interface that is enabled, a map
-- that classifies always shares one, and both ports of a map are above 0.
pub mux_maps-TakesPort :
    (unmarshal : Bytes → Option AmneziaParams) (is : List Interface)
    → All (TakesPort (wg_ports is)) (mux_maps unmarshal is)
unfolding mux_maps
mux_maps-TakesPort unmarshal is =
    map_maybe-All (TakesPort (wg_ports is)) (mux_map_of unmarshal (wg_ports is))
      (mux_map_of-Says unmarshal (wg_ports is)) is

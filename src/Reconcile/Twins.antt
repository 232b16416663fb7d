-- ===== src/Reconcile/Twins.antt =====
-- internal/reconcile/reconciler.go, amnezia_decode.go: which AWG interfaces share a port with a plain one.
use wireguardd.Base.{
  if◌then◌else◌, text, trim_space, is_blank, is_positive, Bytes, bytes_eq, ℕ, true, false, not,
  ◌&&◌, ◌||◌, Option, none, some, List, [], ◌∷◌,
}
use wireguardd.Db.{Interface}
use wireguardd.Host.{AmneziaParams, no_params, is_neutral, MuxMap}
use wireguardd.Host.Names.{is_swift_backend}
use wireguardd.Host.Mux.{has_port}

-- `decodeAmneziaJSON`
unfoldable pub decode_amnezia_json : (Bytes → Option AmneziaParams) → Bytes → AmneziaParams
unfolding trim_space
decode_amnezia_json unmarshal s =
    let s' = trim_space s in
    if is_blank s' || bytes_eq s' (text "{}") || bytes_eq s' (text "null")
    then no_params
    else elim (unmarshal s') [ none ↦ no_params | some p ↦ p ]

-- The ports of the enabled interfaces that are not AWG.
unfoldable pub wg_ports : List Interface → List ℕ
wg_ports [] = []
wg_ports (i ∷ is) =
    let rest = wg_ports is in
    if i.enabled && not (bytes_eq i.protocol (text "awg")) && is_positive i.listen_port
    then i.listen_port ∷ rest
    else rest

-- What the loop does with an interface; the reasons of skipping are only logged.
unfoldable pub mux_map_of : (Bytes → Option AmneziaParams) → List ℕ → Interface → Option MuxMap
unfolding has_port is_swift_backend decode_amnezia_json is_neutral
mux_map_of unmarshal ports i =
    let m : MuxMap = record {
      public_port = i.mux_port;
      awg_port = i.listen_port;
      iface = i.name;
      alias = false;
    } in
    if not (is_positive i.mux_port) || not i.enabled || not (is_positive i.listen_port)
    then none
    else if not (bytes_eq i.protocol (text "awg"))
    then none
    else if is_swift_backend i.backend
    then (if has_port i.mux_port ports then none else some (record m { alias = true }))
    else if is_neutral (decode_amnezia_json unmarshal i.amnezia_json)
    then none
    else if has_port i.mux_port ports
    then some m
    else none

unfoldable pub map_maybe : (Interface → Option MuxMap) → List Interface → List MuxMap
map_maybe f [] = []
map_maybe f (i ∷ is) = let rest = map_maybe f is in elim (f i) [ none ↦ rest | some m ↦ m ∷ rest ]

-- `muxMaps`
unfoldable pub mux_maps : (Bytes → Option AmneziaParams) → List Interface → List MuxMap
unfolding wg_ports mux_map_of map_maybe
mux_maps unmarshal is = map_maybe (mux_map_of unmarshal (wg_ports is)) is

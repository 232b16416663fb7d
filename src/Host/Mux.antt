-- ===== src/Host/Mux.antt =====
-- internal/wgbackend/mux.go: which maps a ruleset is made for. Ruleset has its text and its
-- installation.
pub mod Ports
pub mod Valid
pub mod Ruleset
use wireguardd.Base.{
  ◌==◌, if◌then◌else◌, less64, ℕ, Bool, false, not, ◌||◌, Option, none, some, List, [], ◌∷◌,
}
use wireguardd.Host.{MuxMap}

unfoldable pub has_port : ℕ → List ℕ → Bool
has_port p [] = false
has_port p (q ∷ qs) = (q == p) || has_port p qs

-- `p < 1 || p > 65535`
unfoldable pub bad_port : ℕ → Bool
bad_port p = less64 p 1 || less64 65535 p

-- The loop over the maps, with the ports of the maps that it has passed; `none` is an error.
unfoldable pub scan_maps : List MuxMap → List ℕ → List ℕ → Option (List ℕ × List ℕ)
unfolding bad_port has_port
scan_maps [] public backend = some (public, backend)
scan_maps (m ∷ ms) public backend =
    let rest = scan_maps ms (m.public_port ∷ public) (m.awg_port ∷ backend) in
    if bad_port m.public_port || bad_port m.awg_port
    then none
    else if m.public_port == m.awg_port
    then none
    else if has_port m.public_port public
    then none
    else rest

unfoldable pub shares_port : List ℕ → List ℕ → Bool
unfolding has_port
shares_port [] backend = false
shares_port (p ∷ ps) backend = has_port p backend || shares_port ps backend

-- The last loop, over the public ports.
unfoldable pub verdict : Option (List ℕ × List ℕ) → Bool
unfolding shares_port
verdict none = false
verdict (some (public, backend)) = not (shares_port public backend)

-- `ValidateMuxMaps` returns no error.
unfoldable pub validate_mux_maps : List MuxMap → Bool
unfolding scan_maps verdict
validate_mux_maps maps = verdict (scan_maps maps [] [])

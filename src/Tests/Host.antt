-- ===== src/Tests/Host.antt =====
-- Names of backends, and the maps of the tests of internal/wgbackend.
use wireguardd.Base.{
  text, trim_space, to_lower, ◌≡◌, refl, ◌↔◌, true, false, some, List, [], ◌∷◌, arith,
}
use wireguardd.Host.{MuxMap}
use wireguardd.Host.Names.{normalize_backend, normalize_backend-normal}
use wireguardd.Host.Mux.{validate_mux_maps}
use wireguardd.Host.Mux.Ports.{IsValid}
use wireguardd.Host.Mux.Valid.{validate_mux_maps_iff}

normalize_backend-normal_example : normalize_backend (text "kernel") ≡ some (text "kernel")
normalize_backend-normal_example =
    normalize_backend-normal (text " WireGuard ") (text "kernel")
      (unfold normalize_backend trim_space to_lower in refl)

abbrev two_maps : List MuxMap
two_maps =
    record { public_port = 51820; awg_port = 51830; iface = text "awg0"; alias = false }
    ∷ record { public_port = 443; awg_port = 51831; iface = text "awg1"; alias = true }
    ∷ []

validate_mux_maps_iff_example : (validate_mux_maps two_maps ≡ true) ↔ IsValid two_maps
validate_mux_maps_iff_example =
    validate_mux_maps_iff two_maps ((omega arith, omega arith), ((omega arith, omega arith), tt))

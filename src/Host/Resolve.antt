-- ===== src/Host/Resolve.antt =====
-- internal/wgbackend/resolve.go: what the host can run, and which backend an interface gets.
pub mod Choice
use wireguardd.Base.{
  includes, starts_with, ◌==◌, if◌then◌else◌, text, starts_with, is_blank, Bytes, bytes_eq, ℕ, Bool,
  true, false, not, ◌&&◌, Option, none, some, [], ◌∷◌, ◌++◌,
}
use wireguardd.Host.Names.{normalize_backend, normalize_protocol, is_amnezia_backend, canonical}
use wireguardd.Host.Net.{Output, Runner}

-- `BackendCaps`
pub record BackendCaps : Type 0 where
  pub kernel_wg : Bool
  pub userspace_wg : Bool
  pub kernel_amnezia : Bool
  pub userspace_amnezia : Bool
  pub swift : Bool
  pub awg_tool : Bool

-- `CapabilityProbe`: `caps` is what is cached.
pub record CapabilityProbe : Type 0 where
  pub caps : Option BackendCaps
  pub wg_go : Bytes
  pub awg_go : Bytes
  pub swift_wg : Bytes
  pub awg_tool : Bytes
  pub wg_tool : Bytes

abbrev default_to : Bytes → Bytes → Bytes
default_to d s = if is_blank s then d else s

-- `NewCapabilityProbe`
unfoldable pub new_capability_probe : Bytes → Bytes → Bytes → CapabilityProbe
new_capability_probe wg_go awg_go awg_tool = record {
  caps = none;
  wg_go = default_to (text "wireguard-go") wg_go;
  awg_go = default_to (text "amneziawg-go") awg_go;
  swift_wg = [];
  awg_tool = default_to (text "awg") awg_tool;
  wg_tool = text "wg";
}

-- `swiftBin`
abbrev swift_bin : CapabilityProbe → Bytes
swift_bin p = default_to (text "swiftwg") p.swift_wg

-- `Invalidate`
unfoldable pub invalidate : CapabilityProbe → CapabilityProbe
invalidate p = record p { caps = none }

abbrev escape_quote : ℕ → Bytes
escape_quote c = if c == 39 then 39 ∷ 34 ∷ 39 ∷ 34 ∷ 39 ∷ [] else c ∷ []

abbrev escape_quotes : Bytes → Bytes
escape_quotes [] = []
escape_quotes (c ∷ cs) = escape_quote c ++ escape_quotes cs

-- `shellQuote`: 39 is the single quote and 34 the double one.
unfoldable pub shell_quote : Bytes → Bytes
shell_quote s = 39 ∷ (escape_quotes s ++ 39 ∷ [])

abbrev worked : Output → Bool
worked o = elim o.error [ none ↦ true | some e ↦ false ]

abbrev all_output : Output → Bytes
all_output o = elim o.error [ none ↦ o.output | some e ↦ e ++ b'\n' ∷ o.output ]

-- `filepath.IsAbs` on Linux
abbrev is_abs : Bytes → Bool
unfolding starts_with
is_abs name = starts_with name (text "/")

-- `os.Stat` is a parameter: whether a path is a file, and whether a kernel module's directory is
-- there.
module _ {H : Type 0} (run : Runner H) (is_file : H → Bytes → Bool)
    (module_loaded : H → Bytes → Bool) where
  -- `binaryExists`
  unfoldable pub binary_exists : Bytes → H → Bool × H
  unfolding is_abs shell_quote
  binary_exists name h =
      let (o, h') = run (text "sh") (text "-c" ∷ (text "command -v " ++ shell_quote name) ∷ []) h in
      if is_blank name
      then (false, h)
      else if is_abs name
      then (is_file h name, h)
      else (worked o, h')

  -- `canIPLinkType`
  unfoldable pub can_ip_link_type : Bytes → H → Bool × H
  unfolding includes
  can_ip_link_type kind h =
      let (o, h') = run (text "ip") (text "link" ∷ text "help" ∷ []) h in
      (includes (all_output o) kind, h')

  -- A module that is loaded is not looked for any further.
  abbrev can_kernel : Bytes → H → Bool × H
  unfolding can_ip_link_type
  can_kernel kind h = if module_loaded h kind then (true, h) else can_ip_link_type kind h

  abbrev probed : CapabilityProbe → H → BackendCaps × H
  unfolding binary_exists can_kernel
  probed p h =
      let (kernel, h1) = can_kernel (text "wireguard") h in
      let (userspace, h2) = binary_exists p.wg_go h1 in
      let (kernel_a, h3) = can_kernel (text "amneziawg") h2 in
      let (userspace_a, h4) = binary_exists p.awg_go h3 in
      let (swift, h5) = binary_exists (swift_bin p) h4 in
      let (tool, h6) = binary_exists p.awg_tool h5 in
      (
        record {
          kernel_wg = kernel;
          userspace_wg = userspace;
          kernel_amnezia = kernel_a;
          userspace_amnezia = userspace_a;
          swift = swift;
          awg_tool = tool;
        },
        h6,
      )

  -- `Caps`
  unfoldable pub get_caps : CapabilityProbe → H → BackendCaps × CapabilityProbe × H
  unfolding probed
  get_caps p h = elim p.caps [
    | some c ↦ (c, p, h)
    | none ↦ let (c, h') = probed p h in (c, record p { caps = some c }, h')
  ]

-- An explicit choice that the protocol allows.
abbrev pub if_present : Bool → Bytes → Option Bytes
if_present present req = if present then some req else none

abbrev pub checked : Bytes → BackendCaps → Option Bytes
checked req caps =
    if bytes_eq req (text "userspace")
    then if_present caps.userspace_wg req
    else if bytes_eq req (text "amnezia_go")
    then if_present caps.userspace_amnezia req
    else if bytes_eq req (text "swift")
    then if_present caps.swift req
    else some req

unfoldable pub explicit : Bytes → Bytes → BackendCaps → Option Bytes
unfolding is_amnezia_backend
explicit proto req caps =
    if bytes_eq proto (text "awg") && not (is_amnezia_backend req)
    then none
    else if bytes_eq proto (text "wg") && is_amnezia_backend req
    then some req
    else checked req caps

abbrev pub automatic : Bytes → BackendCaps → Bytes
automatic proto caps =
    if bytes_eq proto (text "awg")
    then if caps.kernel_amnezia
      then text "amnezia_kernel"
      else if caps.userspace_amnezia
      then text "amnezia_go"
      else text "amnezia_kernel"
    else if caps.kernel_wg
    then text "kernel"
    else if caps.userspace_wg
    then text "userspace"
    else text "kernel"

unfoldable pub chosen_backend : Option Bytes → Option Bytes → BackendCaps → Option Bytes
unfolding explicit
chosen_backend none req caps = none
chosen_backend (some proto) none caps = none
chosen_backend (some proto) (some req) caps =
    if bytes_eq req (text "auto") then some (automatic proto caps) else explicit proto req caps

-- `ResolveBackend` once the capabilities are known: `none` is an error.
unfoldable pub resolve_backend : Bytes → Bytes → BackendCaps → Option Bytes
unfolding normalize_backend normalize_protocol chosen_backend
resolve_backend protocol requested caps =
    chosen_backend (normalize_protocol protocol) (normalize_backend requested) caps

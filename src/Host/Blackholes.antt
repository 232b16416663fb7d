-- ===== src/Host/Blackholes.antt =====
-- internal/wgbackend/routes.go: the blackhole routes of suspended peers.
use mathlib.Core.Path.{subst}
pub mod Safe
use wireguardd.Base.{
  ends_with, fields, leb, if◌then◌else◌, length, take, text, trim_space, split_at, has_byte,
  is_blank, contains, Bytes, bytes_eq, ℕ, ◌+◌, ◌-◌, Bool, true, false, not, ◌||◌, Option, none,
  some, List, [], ◌∷◌, ◌++◌,
}
use wireguardd.Host.{DesiredPeer}
use wireguardd.Host.Net.{Ip, Net, Output, Runner}

-- The listing that `blackholeRouteMissing` keeps, and when it was made.
pub record Listing : Type 0 where
  pub blackholes : Option (List Bytes)
  pub blackholes_at : ℕ

-- `strings.TrimSuffix`
abbrev trim_suffix : Bytes → Bytes → Bytes
unfolding ends_with
trim_suffix s suffix = if ends_with s suffix then take (length s - length suffix) s else s

-- `hostRouteKey`
unfoldable pub host_route_key : Bytes → Bytes
unfolding trim_suffix
host_route_key cidr = trim_suffix (trim_suffix cidr (text "/32")) (text "/128")

-- The keys of the lines that list a blackhole route.
abbrev key_of_fields : List Bytes → Option Bytes
unfolding host_route_key
key_of_fields (kind ∷ dst ∷ rest) =
    if bytes_eq kind (text "blackhole") then some (host_route_key dst) else none
key_of_fields _ = none

abbrev cons_key : Option Bytes → List Bytes → List Bytes
cons_key none ks = ks
cons_key (some k) ks = k ∷ ks

unfoldable pub listed_keys : List Bytes → List Bytes
unfolding fields key_of_fields
listed_keys [] = []
listed_keys (l ∷ ls) = cons_key (key_of_fields (fields l)) (listed_keys ls)

-- `delete(set, k)`
abbrev delete_key : Bytes → List Bytes → List Bytes
delete_key k [] = []
delete_key k (j ∷ js) = let rest = delete_key k js in if bytes_eq j k then rest else j ∷ rest

-- `blackholeListTTL`
abbrev blackhole_list_ttl : ℕ
blackhole_list_ttl = 5000000000

-- `hostSizedIPs`
unfoldable pub is_host_sized : Bytes → Bool
unfolding ends_with
is_host_sized a = ends_with a (text "/32") || ends_with a (text "/128")

unfoldable pub keep_host_sized : Bytes → List Bytes → List Bytes
unfolding has_byte is_host_sized
keep_host_sized a out =
    if is_blank a then out else if not (has_byte b'/' a) || is_host_sized a then a ∷ out else out

unfoldable pub host_sized_ips : List Bytes → List Bytes
unfolding trim_space keep_host_sized
host_sized_ips [] = []
host_sized_ips (a ∷ as') = keep_host_sized (trim_space a) (host_sized_ips as')

-- The addresses assigned, or if none is host-sized the allowed ones.
unfoldable pub suspended_ips : DesiredPeer → List Bytes
unfolding host_sized_ips
suspended_ips p = elim (host_sized_ips p.assigned_ips) [
  | [] ↦ host_sized_ips p.allowed_ips
  | ip ∷ ips ↦ ip ∷ ips
]

abbrev pub list4 : List Bytes
list4 = text "route" ∷ text "show" ∷ text "type" ∷ text "blackhole" ∷ []

abbrev pub list6 : List Bytes
list6 = text "-6" ∷ text "route" ∷ text "show" ∷ text "type" ∷ text "blackhole" ∷ []

abbrev pub blackhole_args : Bytes → Bytes → List Bytes
blackhole_args action cidr = text "route" ∷ action ∷ text "blackhole" ∷ cidr ∷ []

-- What an operation leaves: its error, the listing and the host.
pub record Blackholed (H : Type 0) : Type 0 where
  pub error : Option Bytes
  pub listing : Listing
  pub host : H

-- `ParseError` of `net.ParseCIDR`
abbrev pub parse_error : Bytes → Bytes
parse_error cidr = text "invalid CIDR address: " ++ cidr

abbrev pub stale : ℕ → Listing → Bool
stale now l = elim l.blackholes [
  | none ↦ true
  | some ks ↦ leb (l.blackholes_at + blackhole_list_ttl) now
]

abbrev has_blackhole : Bytes → Option (List Bytes) → Bool
unfolding host_route_key
has_blackhole cidr none = false
has_blackhole cidr (some ks) = contains (host_route_key cidr) ks

-- The listing after a command that worked.
abbrev noted : Bool → Bytes → Listing → Listing
unfolding host_route_key
noted add cidr l = elim l.blackholes [
  | none ↦ l
  | some ks ↦ record l {
    blackholes =
        some (if add then host_route_key cidr ∷ ks else delete_key (host_route_key cidr) ks);
  }
]

-- The two listings; an error of either answers that nothing is known to be missing.
abbrev relisted : ℕ → Bytes → Listing → Output → Output → Bool × Listing
unfolding split_at listed_keys has_blackhole
relisted now cidr l v4 v6 = elim v4.error [
  | some e ↦ (false, record l { blackholes = none })
  | none ↦ elim v6.error [
    | some e ↦ (false, record l { blackholes = none })
    | none ↦
        let ks = listed_keys (split_at b'\n' (v4.output ++ b'\n' ∷ v6.output)) in
        (not (has_blackhole cidr (some ks)), record { blackholes = some ks; blackholes_at = now })
  ]
]

-- The prefix of a bare address.
abbrev pub host_cidr_of : Ip → Bytes
host_cidr_of ip = ip.string ++ (if ip.is_v4 then text "/32" else text "/128")

module _ {H : Type 0} (run : Runner H) (now : ℕ) where
  -- `blackholeRouteMissing`
  unfoldable pub blackhole_route_missing : Bytes → Listing → H → Bool × Listing × H
  unfolding relisted has_blackhole
  blackhole_route_missing cidr l h =
      let (v4, h1) = run (text "ip") list4 h in
      let (v6, h2) = run (text "ip") list6 h1 in
      let (missing, l') = relisted now cidr l v4 v6 in
      if stale now l then (missing, l', h2) else (not (has_blackhole cidr l.blackholes), l, h)

  -- What is made of the result of the command: a failed deletion is none.
  unfoldable pub command_result : Bool → Bytes → Option Bytes → Listing → H → Blackholed H
  unfolding noted
  command_result add cidr none l h = record { error = none; listing = noted add cidr l; host = h }
  command_result add cidr (some e) l h = record {
    error = if add then some e else none;
    listing = l;
    host = h;
  }

  unfoldable pub run_blackhole : Bool → Bytes → Listing → H → Blackholed H
  unfolding command_result
  run_blackhole add cidr l h =
      let action = if add then text "replace" else text "del" in
      let (o, h') = run (text "ip") (blackhole_args action cidr) h in
      command_result add cidr o.error l h'

  unfoldable pub unless_missing : Bytes → Bool × Listing × H → Blackholed H
  unfolding run_blackhole
  unless_missing cidr (missing, l, h) =
      if missing
      then record { error = none; listing = l; host = h }
      else run_blackhole false cidr l h

  unfoldable pub change_blackhole : Bool → Bytes → Listing → H → Blackholed H
  unfolding run_blackhole unless_missing blackhole_route_missing
  change_blackhole true cidr l h = run_blackhole true cidr l h
  change_blackhole false cidr l h = unless_missing cidr (blackhole_route_missing cidr l h)

  abbrev pub unchanged : Option Bytes → Listing → H → Blackholed H
  unchanged e l h = record { error = e; listing = l; host = h }

  module _ (net : Net) where
    unfoldable pub change_bare : Bool → Option Ip → Listing → H → Blackholed H
    unfolding change_blackhole
    change_bare add none l h = unchanged none l h
    change_bare add (some ip) l h = elim (net.parse_cidr (host_cidr_of ip)) [
      | none ↦ unchanged (some (parse_error (host_cidr_of ip))) l h
      | some c ↦ change_blackhole add (host_cidr_of ip) l h
    ]

    -- `blackholeCIDR`
    unfoldable pub blackhole_cidr : Bytes → Bool → Listing → H → Blackholed H
    unfolding change_blackhole change_bare
    blackhole_cidr cidr add l h = elim (net.parse_cidr cidr) [
      | some c ↦ change_blackhole add cidr l h
      | none ↦ change_bare add (net.parse_ip cidr) l h
    ]

    -- The loop of `applySuspendRoutes`: it ends at the first error.
    unfoldable pub blackhole_all : List Bytes → Bool → Listing → H → Blackholed H
    unfolding blackhole_cidr
    blackhole_all [] add l h = unchanged none l h
    blackhole_all (ip ∷ ips) add l h =
        let r = blackhole_cidr ip add l h in
        elim r.error [ some e ↦ r | none ↦ blackhole_all ips add r.listing r.host ]

    -- `applySuspendRoutes`
    unfoldable pub apply_suspend_routes : DesiredPeer → Bool → Listing → H → Blackholed H
    unfolding blackhole_all suspended_ips
    apply_suspend_routes p suspend l h = blackhole_all (suspended_ips p) suspend l h

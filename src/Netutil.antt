-- ===== src/Netutil.antt =====
-- internal/netutil/ip.go: addresses, and the next free host of an interface's networks. Package net
-- is a parameter.
pub mod Values
pub mod Scans
pub mod Free
use wireguardd.Base.{
  ends_with, starts_with, ltb, ◌==◌, if◌then◌else◌, text, trim_space, split_at, has_byte,
  starts_with, to_lower, is_blank, contains, reverse, Bytes, bytes_eq, ℕ, zero, suc, ◌+◌, ◌-◌, ◌^◌,
  bit_or, Bool, true, false, not, ◌&&◌, ◌||◌, Option, none, some, List, [], ◌∷◌, ◌++◌,
}
use wireguardd.Host.Net.{Ip, Cidr, Net}

abbrev is_given : {A : Type 0} → Option A → Bool
is_given none = false
is_given (some x) = true

abbrev host_string : Option Ip → Option Bytes
host_string none = none
host_string (some ip) = some ip.string

abbrev cidr_ip : Option Cidr → Option Ip
cidr_ip none = none
cidr_ip (some c) = some c.ip

module _ (net : Net) where
  -- `ValidateCIDR`, `ValidateIP`, `ValidateIPOrCIDR`: whether there is no error
  unfoldable pub validate_cidr : Bytes → Bool
  unfolding trim_space
  validate_cidr s = not (is_blank (trim_space s)) && is_given (net.parse_cidr (trim_space s))

  unfoldable pub validate_ip : Bytes → Bool
  unfolding trim_space
  validate_ip s = not (is_blank (trim_space s)) && is_given (net.parse_ip (trim_space s))

  unfoldable pub validate_ip_or_cidr : Bytes → Bool
  unfolding trim_space has_byte validate_cidr validate_ip
  validate_ip_or_cidr s =
      let a = trim_space s in
      if is_blank a then false else if has_byte b'/' a then validate_cidr a else validate_ip a

  abbrev validate_all : (Bytes → Bool) → List Bytes → Bool
  unfolding trim_space
  validate_all valid [] = true
  validate_all valid (a ∷ as') =
      (is_blank (trim_space a) || valid (trim_space a)) && validate_all valid as'

  -- `ValidateCIDRList`, `ValidateIPOrCIDRList`
  unfoldable pub validate_cidr_list : List Bytes → Bool
  unfolding validate_all validate_cidr
  validate_cidr_list as' = validate_all validate_cidr as'

  unfoldable pub validate_ip_or_cidr_list : List Bytes → Bool
  unfolding validate_all validate_ip_or_cidr
  validate_ip_or_cidr_list as' = validate_all validate_ip_or_cidr as'

  -- `NormalizeHostIP`: `none` is an error.
  unfoldable pub normalize_host_ip : Bytes → Option Bytes
  unfolding trim_space has_byte
  normalize_host_ip s =
      let a = trim_space s in
      if is_blank a
      then none
      else if has_byte b'/' a
      then host_string (cidr_ip (net.parse_cidr a))
      else host_string (net.parse_ip a)

  abbrev with_prefix : Option Ip → Option Bytes
  with_prefix none = none
  with_prefix (some ip) = some (ip.string ++ (if ip.is_v4 then text "/32" else text "/128"))

  -- `HostCIDR`
  unfoldable pub host_cidr : Bytes → Option Bytes
  unfolding trim_space
  host_cidr s = with_prefix (net.parse_ip (trim_space s))

  abbrev add_host : Option Bytes → List Bytes → List Bytes
  add_host none used = used
  add_host (some h) used = h ∷ used

  abbrev add_hosts : List Bytes → List Bytes → List Bytes
  unfolding normalize_host_ip
  add_hosts [] used = used
  add_hosts (a ∷ as') used = add_hosts as' (add_host (normalize_host_ip a) used)

  -- An allowed address that counts as used.
  abbrev is_host_route : Bytes → Bool
  unfolding ends_with has_byte
  is_host_route a = ends_with a (text "/32") || ends_with a (text "/128") || not (has_byte b'/' a)

  abbrev add_host_routes : List Bytes → List Bytes → List Bytes
  unfolding normalize_host_ip is_host_route
  add_host_routes [] used = used
  add_host_routes (a ∷ as') used =
      add_host_routes as' (if is_host_route a then add_host (normalize_host_ip a) used else used)

  abbrev add_lists :
      (List Bytes → List Bytes → List Bytes) → List (List Bytes) → List Bytes → List Bytes
  add_lists add [] used = used
  add_lists add (as' ∷ rest) used = add_lists add rest (add as' used)

  -- `CollectUsedHosts`
  unfoldable pub collect_used_hosts :
      List Bytes → List (List Bytes) → List (List Bytes) → List Bytes
  unfolding add_hosts add_host_routes
  collect_used_hosts iface_addrs peer_assigned peer_allowed =
      add_lists add_host_routes peer_allowed
        (add_lists add_hosts peer_assigned (add_hosts iface_addrs []))

abbrev valid_host_port : (Bytes → Bool) → Option (Bytes × Bytes) → Bool
valid_host_port lookup_port none = false
valid_host_port lookup_port (some (host, port)) =
    not (is_blank host) && not (is_blank port) && lookup_port port

-- `ValidateEndpoint`: `net.SplitHostPort` and `net.LookupPort` of "udp" are parameters.
unfoldable pub validate_endpoint : (Bytes → Option (Bytes × Bytes)) → (Bytes → Bool) → Bytes → Bool
unfolding trim_space
validate_endpoint split_host_port lookup_port s =
    is_blank (trim_space s) || valid_host_port lookup_port (split_host_port (trim_space s))

-- `incIP` from the last byte on
abbrev pub inc_from_last : Bytes → Bytes
inc_from_last [] = []
inc_from_last (b ∷ bs) = let rest = inc_from_last bs in if b == 255 then 0 ∷ rest else (b + 1) ∷ bs

-- `incIP`
unfoldable pub inc_ip : Bytes → Bytes
inc_ip ip = reverse (inc_from_last (reverse ip))

-- `lastIPv4`
unfoldable pub last_ipv4 : Bytes → Bytes → Bytes
last_ipv4 [] mask = []
last_ipv4 (b ∷ bs) [] = b ∷ bs
last_ipv4 (b ∷ bs) (m ∷ ms) = bit_or b (255 - m) ∷ last_ipv4 bs ms

-- `IsAutoToken`
unfoldable pub is_auto_token : Bytes → Bool
unfolding trim_space to_lower
is_auto_token s =
    let t = to_lower (trim_space s) in
    is_blank t || bytes_eq t (text "auto") || bytes_eq t (text "next") || bytes_eq t (text "*")

abbrev keep_trimmed : List Bytes → List Bytes
unfolding trim_space
keep_trimmed [] = []
keep_trimmed (p ∷ ps) =
    let rest = keep_trimmed ps in if is_blank (trim_space p) then rest else trim_space p ∷ rest

-- `ParseCSVAddresses`
unfoldable pub parse_csv_addresses : Bytes → List Bytes
unfolding trim_space split_at keep_trimmed
parse_csv_addresses s = if is_blank (trim_space s) then [] else keep_trimmed (split_at b',' s)

-- What a scan of a network ends with.
pub data Scan : Type 0 where
  found : Bytes → Scan
  exhausted : Scan
  out_of_fuel : Scan

pub data Allocated : Type 0 where
  no_addresses : Allocated
  no_free_host : Allocated
  allocated : Bytes → Bytes → Allocated

module _ (net : Net) where
  -- The prefix that stands for a bare address.
  abbrev assumed : Bytes → Option Ip → Option Bytes
  assumed a none = none
  assumed a (some ip) = some (ip.string ++ (if ip.is_v4 then text "/24" else text "/64"))

  abbrev parse_some : Option Bytes → Option Cidr
  parse_some none = none
  parse_some (some a) = net.parse_cidr a

  -- The network of an interface's address: `none` is skipped.
  unfoldable pub subnet_of : Bytes → Option Cidr
  unfolding trim_space starts_with has_byte
  subnet_of s =
      let a = trim_space s in
      if is_blank a || starts_with a (text "fe80:")
      then none
      else if has_byte b'/' a
      then net.parse_cidr a
      else parse_some (assumed a (net.parse_ip a))

  abbrev cons_cidr : Option Cidr → List Cidr → List Cidr
  cons_cidr none cs = cs
  cons_cidr (some c) cs = c ∷ cs

  unfoldable pub subnets_of : List Bytes → List Cidr
  unfolding subnet_of
  subnets_of [] = []
  subnets_of (a ∷ as') = cons_cidr (subnet_of a) (subnets_of as')

  -- `used[ip.String()] = struct{}{}`
  abbrev pub mark_used : List Cidr → List Bytes → List Bytes
  mark_used [] used = used
  mark_used (c ∷ cs) used = mark_used cs (c.ip.string ∷ used)

  abbrev pub of_family : Bool → List Cidr → List Cidr
  of_family v4 [] = []
  of_family v4 (c ∷ cs) =
      let rest = of_family v4 cs in
      if (if v4 then c.ip.is_v4 else not c.ip.is_v4) then c ∷ rest else rest

  -- The stable sort that prefers IPv4.
  unfoldable pub v4_first : List Cidr → List Cidr
  v4_first cs = of_family true cs ++ of_family false cs

  module _ (used : List Bytes) where
    abbrev pub is_free : Cidr → Bytes → Bool
    is_free c ip = net.in_net c ip && not (contains (net.string_of ip) used)

    -- The loop over the hosts of an IPv4 network.
    unfoldable pub scan_v4 : ℕ → Cidr → Bytes → Bytes → Scan
    unfolding inc_ip
    scan_v4 zero c broadcast ip = Scan.out_of_fuel
    scan_v4 (suc fuel) c broadcast ip = elim (bytes_eq ip broadcast) [
      | true ↦ Scan.exhausted
      | false ↦ elim (is_free c ip) [
        | true ↦ Scan.found ip
        | false ↦ scan_v4 fuel c broadcast (inc_ip ip)
      ]
    ]

    -- The loop over the first hosts of an IPv6 network.
    unfoldable pub scan_v6 : ℕ → Cidr → Bytes → Scan
    unfolding inc_ip
    scan_v6 zero c ip = Scan.exhausted
    scan_v6 (suc n) c ip = elim (is_free c ip) [
      | true ↦ Scan.found ip
      | false ↦ scan_v6 n c (inc_ip ip)
    ]

    unfoldable pub scan_subnet : Cidr → Scan
    unfolding inc_ip last_ipv4 scan_v4 scan_v6
    scan_subnet c =
        if c.bits == 32
        then if ltb 30 c.ones
          then Scan.exhausted
          else scan_v4 (2 ^ 32) c (last_ipv4 c.network c.mask) (inc_ip c.network)
        else if c.bits == 128
        then if ltb 126 c.ones then Scan.exhausted else scan_v6 4096 c (inc_ip c.network)
        else Scan.exhausted

    abbrev pub allocate_result : Cidr → Scan → Allocated → Allocated
    allocate_result c (Scan.found ip) rest =
        Allocated.allocated (net.string_of ip)
          (net.string_of ip ++ (if c.bits == 32 then text "/32" else text "/128"))
    allocate_result c _ rest = rest

    unfoldable pub allocate_from : List Cidr → Allocated
    unfolding scan_subnet
    allocate_from [] = Allocated.no_free_host
    allocate_from (c ∷ cs) = allocate_result c (scan_subnet c) (allocate_from cs)

  abbrev pub unless_empty : List Cidr → Allocated → Allocated
  unless_empty [] r = Allocated.no_addresses
  unless_empty (c ∷ cs) r = r

  -- `AllocateNextHost`
  unfoldable pub allocate_next_host : List Bytes → List Bytes → Allocated
  unfolding subnets_of v4_first allocate_from
  allocate_next_host iface_addrs used =
      let cs = subnets_of iface_addrs in
      unless_empty cs (allocate_from (mark_used cs used) (v4_first cs))

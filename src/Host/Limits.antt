-- ===== src/Host/Limits.antt =====
-- internal/wgbackend/tc_limits.go: rates, matches, addresses and class numbers of bandwidth limits.
pub mod Commands
pub mod Tc
pub mod Sync
pub mod Nft
pub mod Table
pub mod Bandwidth
pub mod Minors
use Prim.Native.Nat.{bit_xor}
use wireguardd.Base.{
  ltb, leb, ◌==◌, if◌then◌else◌, length, take, text, trim_space, has_byte, is_blank, contains,
  is_positive, format_int, Bytes, bytes_eq, ℕ, zero, suc, ◌+◌, ◌*◌, ◌/◌, ◌%◌, ◌^◌, Bool, true,
  false, not, ◌&&◌, Option, none, some, List, [], ◌∷◌, ◌++◌,
}
use wireguardd.Db.Tables.{bytes_less, order_by}
use wireguardd.Host.{DesiredPeer}
use wireguardd.Host.Net.{Ip, Cidr, Net}

-- `peerTCState`
pub record PeerTc : Type 0 where
  pub minor : ℕ
  pub tx_bps : ℕ
  pub rx_bps : ℕ
  pub ips : List Bytes
  pub active : Bool

-- `formatTCRate`
unfoldable pub format_tc_rate : ℕ → Bytes
unfolding format_int
format_tc_rate rate =
    let bps = if is_positive rate then rate else 1 in
    if (bps % 1000000) == 0
    then format_int (bps / 1000000) ++ text "mbit"
    else if (bps % 1000) == 0
    then format_int (bps / 1000) ++ text "kbit"
    else format_int bps ++ text "bit"

-- Between 3200 bytes and 16 MiB.
abbrev pub clamp_burst : ℕ → ℕ
clamp_burst burst =
    let atleast = if ltb burst 3200 then 3200 else burst in
    if ltb (16 * 1024 * 1024) atleast then 16 * 1024 * 1024 else atleast

-- `formatTCBurst`; the quotient of a rate that is not positive is below 3200.
unfoldable pub format_tc_burst : ℕ → Bytes
unfolding format_int
format_tc_burst bps = format_int (clamp_burst (if is_positive bps then bps / 8 / 20 else 0))

-- `sameStrings`
abbrev pub same_strings : List Bytes → List Bytes → Bool
same_strings [] [] = true
same_strings [] (b ∷ bs) = false
same_strings (a ∷ as') [] = false
same_strings (a ∷ as') (b ∷ bs) = bytes_eq a b && same_strings as' bs

-- `shortKey`
unfoldable pub short_key : Bytes → Bytes
short_key key = if leb (length key) 12 then key else take 8 key ++ 0xe2 ∷ 0x80 ∷ 0xa6 ∷ []

abbrev match_args : Bytes → Option Ip → Option (Bytes × List Bytes)
match_args side none = none
match_args side (some ip) = some (
    if ip.is_v4
    then (text "ip", text "u32" ∷ text "match" ∷ text "ip" ∷ side ∷ (ip.string ++ text "/32") ∷ [])
    else (
      text "ipv6",
      text "u32" ∷ text "match" ∷ text "ip6" ∷ side ∷ (ip.string ++ text "/128") ∷ [],
    ))

abbrev host_of_cidr : Option Cidr → Option Bytes
host_of_cidr none = none
host_of_cidr (some c) = if c.ones == c.bits then some c.ip.string else none

abbrev host_if_ip : Bytes → Option Ip → Option Bytes
host_if_ip raw none = none
host_if_ip raw (some ip) = some raw

-- A host that was not seen before goes to the end.
abbrev pub add_new : Option Bytes → List Bytes → List Bytes
add_new none out = out
add_new (some host) out = if contains host out then out else out ++ host ∷ []

module _ (net : Net) where
  -- `matchDst`: `none` is an error.
  unfoldable pub match_dst : Bytes → Option (Bytes × List Bytes)
  match_dst ip = match_args (text "dst") (net.parse_ip ip)

  -- `matchSrc`
  unfoldable pub match_src : Bytes → Option (Bytes × List Bytes)
  match_src ip = match_args (text "src") (net.parse_ip ip)

  -- `add` of `peerHostIPs`: `none` is not added.
  unfoldable pub host_of : Bytes → Option Bytes
  unfolding trim_space has_byte
  host_of a =
      let raw = trim_space a in
      if is_blank raw
      then none
      else if has_byte b'/' raw
      then host_of_cidr (net.parse_cidr raw)
      else host_if_ip raw (net.parse_ip raw)

  unfoldable pub add_host_ips : List Bytes → List Bytes → List Bytes
  unfolding host_of
  add_host_ips [] out = out
  add_host_ips (a ∷ as') out = add_host_ips as' (add_new (host_of a) out)

  unfoldable pub unless_assigned : List Bytes → List Bytes → List Bytes
  unfolding add_host_ips
  unless_assigned allowed [] = add_host_ips allowed []
  unless_assigned allowed (ip ∷ ips) = ip ∷ ips

  -- `peerHostIPs`
  unfoldable pub peer_host_ips : DesiredPeer → List Bytes
  unfolding add_host_ips unless_assigned order_by bytes_less
  peer_host_ips p =
      order_by bytes_less (unless_assigned p.allowed_ips (add_host_ips p.assigned_ips []))

-- The `minors` of an interface: who owns a class number.
abbrev pub Minors : Type 0
Minors = List (ℕ × Bytes)

abbrev pub owner_of : ℕ → Minors → Option Bytes
owner_of m [] = none
owner_of m ((n, key) ∷ rest) = let found = owner_of m rest in if n == m then some key else found

abbrev pub set_owner : ℕ → Bytes → Minors → Minors
set_owner m key [] = (m, key) ∷ []
set_owner m key ((n, old) ∷ rest) =
    let others = set_owner m key rest in if n == m then (m, key) ∷ rest else (n, old) ∷ others

abbrev pub delete_minor : ℕ → Minors → Minors
delete_minor m [] = []
delete_minor m ((n, key) ∷ rest) =
    let others = delete_minor m rest in if n == m then others else (n, key) ∷ others

-- The 32-bit FNV-1a hash of the key's bytes.
unfoldable pub fnv32a : ℕ → Bytes → ℕ
fnv32a h [] = h
fnv32a h (b ∷ bs) = fnv32a (bit_xor h b * 16777619 % 2 ^ 32) bs

-- `peerMinorHint`
unfoldable pub peer_minor_hint : Bytes → ℕ
unfolding fnv32a
peer_minor_hint key = fnv32a 2166136261 key

-- `tcMinorMin` and how many numbers there are up to `tcMinorMax`
abbrev pub tc_minor_min : ℕ
tc_minor_min = 0x10

abbrev pub tc_minor_max : ℕ
tc_minor_max = 0xffe

abbrev pub minor_count : ℕ
minor_count = 4079

-- The number that the loop tries at `i`: `base+i` wraps as a uint32.
abbrev pub minor_at : ℕ → ℕ → ℕ
minor_at base i = tc_minor_min + (base + i) % 2 ^ 32 % minor_count

abbrev is_own : Bytes → Option Bytes → Bool
is_own key none = true
is_own key (some owner) = bytes_eq owner key

-- Not the default class, and not owned by another peer.
unfoldable pub is_usable : Minors → Bytes → ℕ → Bool
is_usable ms key m = not (m == 1) && is_own key (owner_of m ms)

-- The loop of `allocateMinor`, on what is left of its numbers.
unfoldable pub find_minor : ℕ → Minors → Bytes → ℕ → ℕ → ℕ
find_minor zero ms key base i = tc_minor_min + base % 100
find_minor (suc left) ms key base i = elim (is_usable ms key (minor_at base i)) [
  | true ↦ minor_at base i
  | false ↦ find_minor left ms key base (i + 1)
]

-- `allocateMinor`
unfoldable pub allocate_minor : Minors → Bytes → ℕ
unfolding find_minor is_usable peer_minor_hint
allocate_minor ms key = find_minor minor_count ms key (peer_minor_hint key) 0

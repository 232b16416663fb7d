-- ===== src/Host/Routes.antt =====
-- internal/wgbackend/table_routes.go: which routes and policy rules an interface wants.
pub mod Sync
pub mod Exact
pub mod Peers
pub mod Again
pub mod Owned
pub mod Keys
use wireguardd.Base.{
  format_hex, ◌==◌, if◌then◌else◌, text, trim_space, format_int, has_byte, to_lower, is_blank,
  lookup, contains, is_positive, Bytes, bytes_eq, ℕ, Bool, true, false, ◌&&◌, ◌||◌, Option, none,
  some, List, [], ◌∷◌, ◌++◌,
}
use wireguardd.Db.Tables.{bytes_less, order_by}
use wireguardd.Host.{DesiredPeer, DesiredInterface}
use wireguardd.Host.Net.{Ip, Cidr, Net}
use wireguardd.Conf.Parse.{atoi}

pub data TableMode : Type 0 where
  off : TableMode
  auto : TableMode
  number : TableMode

pub record RouteKey : Type 0 where
  pub dst : Bytes
  pub table : Bytes
  pub proto : Bytes

pub record RuleKey : Type 0 where
  pub family : Bytes
  pub spec : Bytes

abbrev is_some : Option ℕ → Bool
is_some none = false
is_some (some n) = true

abbrev mode_of : Bytes → TableMode
unfolding atoi
mode_of mode =
    if is_blank mode || bytes_eq mode (text "auto")
    then TableMode.auto
    else if bytes_eq mode (text "off")
    then TableMode.off
    else if bytes_eq mode (text "number") || bytes_eq mode (text "custom")
    then TableMode.number
    else if is_some (atoi mode)
    then TableMode.number
    else TableMode.off

-- `normalizeTableMode`
unfoldable pub normalize_table_mode : Bytes → TableMode
unfolding trim_space to_lower mode_of
normalize_table_mode mode = mode_of (to_lower (trim_space mode))

abbrev table_of : TableMode → Option ℕ → Bytes × ℕ
unfolding format_int
table_of TableMode.off id = (text "off", 0)
table_of TableMode.number (some id) = (format_int id, id)
table_of TableMode.number none = (text "auto", 0)
table_of TableMode.auto id = (text "auto", 0)

-- `ResolveTableID`
unfoldable pub resolve_table_id : Bytes → Option ℕ → Bytes × ℕ
unfolding normalize_table_mode table_of
resolve_table_id mode id = table_of (normalize_table_mode mode) id

-- `if _, ok := set[k]; ok`
abbrev pub route_eq : RouteKey → RouteKey → Bool
route_eq a b = bytes_eq a.dst b.dst && bytes_eq a.table b.table && bytes_eq a.proto b.proto

abbrev pub rule_eq : RuleKey → RuleKey → Bool
rule_eq a b = bytes_eq a.family b.family && bytes_eq a.spec b.spec

-- Sets of keys, as lists.
module _ {K : Type 0} (eq : K → K → Bool) where
  abbrev pub has_key : K → List K → Bool
  has_key k [] = false
  has_key k (j ∷ js) = eq j k || has_key k js

  -- `set[k] = struct{}{}`
  abbrev pub add_key : K → List K → List K
  add_key k ks = if has_key k ks then ks else k ∷ ks

abbrev pub insert_unique : List Bytes → List Bytes → List Bytes
insert_unique seen [] = []
insert_unique seen (s ∷ ss) =
    let kept = insert_unique (s ∷ seen) ss in
    let rest = insert_unique seen ss in if contains s seen then rest else s ∷ kept

-- `uniqueStrings`
unfoldable pub unique_strings : List Bytes → List Bytes
unique_strings ss = insert_unique [] ss

abbrev host_prefix : Bytes → Option Ip → Option Bytes
host_prefix a none = none
host_prefix a (some ip) = some (a ++ (if ip.is_v4 then text "/32" else text "/128"))

abbrev or_same : Bytes → Option Bytes → Bytes
or_same a none = a
or_same a (some b) = b

abbrev pub cons_some : Option Bytes → List Bytes → List Bytes
cons_some none out = out
cons_some (some a) out = a ∷ out

module _ (net : Net) where
  -- `normalizeCIDR`
  unfoldable pub normalize_cidr : Bytes → Bytes
  unfolding trim_space has_byte
  normalize_cidr s =
      let a = trim_space s in
      if is_blank a || has_byte b'/' a then a else or_same a (host_prefix a (net.parse_ip a))

  abbrev classified : Option Cidr → Option (Bytes × Bool)
  classified none = none
  classified (some c) = some (if c.net_is_v4 then text "4" else text "6", c.ones == 0)

  -- `classifyCIDR`: `none` is an error.
  unfoldable pub classify_cidr : Bytes → Option (Bytes × Bool)
  classify_cidr cidr = classified (net.parse_cidr cidr)

  abbrev family_of : Ip → Bytes × Bytes
  family_of ip = (ip.string, if ip.is_v4 then text "4" else text "6")

  -- `addrHostFamily`: `none` is an error.
  unfoldable pub addr_host_family : Bytes → Option (Bytes × Bytes)
  unfolding has_byte
  addr_host_family addr =
      if has_byte b'/' addr
      then elim (net.parse_cidr addr) [ none ↦ none | some c ↦ some (family_of c.ip) ]
      else elim (net.parse_ip addr) [ none ↦ none | some ip ↦ some (family_of ip) ]

  -- The prefix of an allowed address: `none` is skipped.
  unfoldable pub allowed_prefix : Bytes → Option Bytes
  unfolding trim_space has_byte
  allowed_prefix s =
      let a = trim_space s in
      if is_blank a
      then none
      else if has_byte b'/' a
      then some a
      else host_prefix a (net.parse_ip a)

  unfoldable pub allowed_prefixes : List Bytes → List Bytes
  unfolding allowed_prefix
  allowed_prefixes [] = []
  allowed_prefixes (a ∷ as') = cons_some (allowed_prefix a) (allowed_prefixes as')

  -- What the peers that are not suspended are reached by.
  unfoldable pub allowed_of : List DesiredPeer → List Bytes
  unfolding allowed_prefixes
  allowed_of [] = []
  allowed_of (p ∷ ps) =
      let rest = allowed_of ps in
      if p.suspended then rest else allowed_prefixes p.allowed_ips ++ rest

-- `fwmark`, or the listen port, or 51820.
unfoldable pub mark_of : DesiredInterface → ℕ
mark_of d =
    if is_positive d.fw_mark
    then d.fw_mark
    else if is_positive d.listen_port
    then d.listen_port
    else 51820

-- `tableNum`
abbrev pub table_num : DesiredInterface → ℕ
table_num d = elim d.table_id [ none ↦ 0 | some n ↦ n ]

abbrev mark_rule : Bytes → ℕ → RuleKey
unfolding format_hex format_int
mark_rule fam mark = record {
  family = fam;
  spec = text "not from all fwmark 0x" ++ format_hex mark ++ text " lookup " ++ format_int mark;
}

abbrev main_rule : Bytes → RuleKey
main_rule fam = record { family = fam; spec = text "from all lookup main suppress_prefixlength 0" }

abbrev from_rule : Bytes → Bytes → ℕ → RuleKey
unfolding format_int
from_rule fam host table = record {
  family = fam;
  spec = text "from " ++ host ++ text " lookup " ++ format_int table;
}

abbrev iif_rule : Bytes → Bytes → ℕ → RuleKey
unfolding format_int
iif_rule fam name table = record {
  family = fam;
  spec = text "from all iif " ++ name ++ text " lookup " ++ format_int table;
}

-- The routes and the rules that are wanted.
pub record Wanted : Type 0 where
  pub routes : List RouteKey
  pub rules : List RuleKey

abbrev pub nothing_wanted : Wanted
nothing_wanted = record { routes = []; rules = [] }

abbrev pub want_route : Bytes → Bytes → Bytes → Wanted → Wanted
want_route cidr table proto w = record w {
  routes = add_key route_eq (record { dst = cidr; table = table; proto = proto }) w.routes;
}

abbrev pub want_rule : RuleKey → Wanted → Wanted
want_rule k w = record w { rules = add_key rule_eq k w.rules }

-- One prefix of the loop.
unfoldable pub want_classified :
    TableMode → DesiredInterface → Bytes → Option (Bytes × Bool) → Wanted → Wanted
unfolding mark_of mark_rule format_int
want_classified mode d cidr none w = w
want_classified TableMode.auto d cidr (some (proto, is_default)) w =
    if is_default
    then want_rule (main_rule proto)
        (want_rule (mark_rule proto (mark_of d)) (want_route cidr (format_int (mark_of d)) proto w))
    else want_route cidr (text "main") proto w
want_classified TableMode.number d cidr (some (proto, is_default)) w =
    want_route cidr (format_int (table_num d)) proto w
want_classified TableMode.off d cidr (some (proto, is_default)) w = w

unfoldable pub want_from : ℕ → Option (Bytes × Bytes) → Wanted → Wanted
unfolding from_rule
want_from table none w = w
want_from table (some (host, fam)) w = want_rule (from_rule fam host table) w

module _ (net : Net) where
  unfoldable pub want_prefixes : TableMode → DesiredInterface → List Bytes → Wanted → Wanted
  unfolding classify_cidr want_classified
  want_prefixes mode d [] w = w
  want_prefixes mode d (cidr ∷ rest) w =
      want_prefixes mode d rest (want_classified mode d cidr (classify_cidr net cidr) w)

  unfoldable pub want_addresses : ℕ → List Bytes → Wanted → Wanted
  unfolding addr_host_family want_from
  want_addresses table [] w = w
  want_addresses table (a ∷ rest) w =
      want_addresses table rest (want_from table (addr_host_family net a) w)

  -- The policy rules of a table of one's own.
  unfoldable pub want_table_rules : TableMode → DesiredInterface → Wanted → Wanted
  unfolding want_addresses iif_rule
  want_table_rules TableMode.number d w =
      if is_positive (table_num d)
      then want_rule (iif_rule (text "6") d.name (table_num d)) (
          want_rule (iif_rule (text "4") d.name (table_num d))
            (want_addresses (table_num d) d.addresses w))
      else w
  want_table_rules mode d w = w

  -- The prefixes in order, once each.
  unfoldable pub sorted_prefixes : DesiredInterface → List Bytes
  unfolding allowed_of unique_strings order_by bytes_less
  sorted_prefixes d = unique_strings (order_by bytes_less (allowed_of net d.peers))

  unfoldable pub wanted_in : TableMode → DesiredInterface → Wanted
  unfolding want_prefixes want_table_rules sorted_prefixes
  wanted_in mode d =
      want_table_rules mode d (want_prefixes mode d (sorted_prefixes d) nothing_wanted)

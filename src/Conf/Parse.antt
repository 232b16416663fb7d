-- ===== src/Conf/Parse.antt =====
-- internal/confparse/parse.go: `Parse`, over the lines of a `bufio.Scanner`.
pub mod Loop
pub mod Errors
pub mod Items
pub mod Numbers
use wireguardd.Base.{
  not, ◌&&◌, ◌==◌, leb, if◌then◌else◌, text, trim_space, to_lower, split_at, is_blank, parse_digits,
  ltb, Map, lookup, bytes_eq, Bytes, ℕ, ◌-◌, ◌%◌, ◌^◌, Bool, true, false, Option, none, some, List,
  [], ◌∷◌, ◌++◌,
}
use wireguardd.Conf.{InterfaceSection, PeerSection, Conf}

-- The errors of `Parse`, with the number of the line.
pub data ParseError : Type 0 where
  expected_key_value : ℕ → ParseError
  peer_field_outside : ℕ → ParseError
  key_outside_section : ℕ → ParseError
  invalid_integer : ℕ → Bytes → ParseError
  token_too_long : ParseError

pub data Section : Type 0 where
  no_section : Section
  in_interface : Section
  in_peer : Section

-- The variables of the loop.
pub record Parser : Type 0 where
  pub interface : InterfaceSection
  pub peers : List PeerSection
  pub section : Section
  pub peer : Option PeerSection
  pub pending : Map Bytes

-- A magnitude within the range of an int64, with its sign.
abbrev signed : Bool → Option ℕ → Option ℕ
signed neg none = none
signed false (some n) = if ltb n (2 ^ 63) then some n else none
signed true (some n) = if leb n (2 ^ 63) then some ((2 ^ 64 - n) % 2 ^ 64) else none

abbrev magnitude : Bool → Bytes → Option ℕ
unfolding parse_digits
magnitude neg [] = none
magnitude neg (c ∷ cs) = signed neg (parse_digits (2 ^ 64) 0 (c ∷ cs))

-- `strconv.Atoi(s)`, and `strconv.ParseInt(s, 10, 64)`
unfoldable pub atoi : Bytes → Option ℕ
unfolding magnitude
atoi [] = none
atoi (c ∷ cs) =
    if c == b'-'
    then magnitude true cs
    else if c == b'+'
    then magnitude false cs
    else magnitude false (c ∷ cs)

-- `parseInt`: `none` is an error.
unfoldable pub parse_int : Bytes → Option ℕ
unfolding trim_space atoi
parse_int s = atoi (trim_space s)

abbrev keep_item : Bytes → List Bytes → List Bytes
keep_item p out = if is_blank p then out else p ∷ out

unfoldable pub keep_items : List Bytes → List Bytes
unfolding trim_space
keep_items [] = []
keep_items (p ∷ ps) = keep_item (trim_space p) (keep_items ps)

-- `splitCSV`
unfoldable pub split_csv : Bytes → List Bytes
unfolding split_at keep_items
split_csv s = keep_items (split_at b',' s)

-- `joinHook`
abbrev pub join_hook : Bytes → Bytes → Bytes
join_hook prev next = if is_blank prev then next else prev ++ b'\n' ∷ next

abbrev cut_push : ℕ → Option (Bytes × Bytes) → Option (Bytes × Bytes)
cut_push c none = none
cut_push c (some (k, v)) = some (c ∷ k, v)

-- `strings.Cut(s, sep)` for a separator of one byte
unfoldable pub cut : ℕ → Bytes → Option (Bytes × Bytes)
cut sep [] = none
cut sep (c ∷ cs) = let rest = cut sep cs in if c == sep then some ([], cs) else cut_push c rest

-- `if v, ok := m[key]; ok { field = v }`
abbrev pub field_or : Option Bytes → Bytes → Bytes
field_or none old = old
field_or (some v) old = v

abbrev field_or_int : Option Bytes → ℕ → ℕ
unfolding atoi
field_or_int none old = old
field_or_int (some v) old = elim (atoi v) [ none ↦ old | some n ↦ n ]

-- What the comments set: `m` is the map as a function of its keys.
abbrev pub iface_meta : (Bytes → Option Bytes) → InterfaceSection → InterfaceSection
iface_meta m i = record i {
  public_key_comment = field_or (m (text "publickey")) i.public_key_comment;
  peer_dns = field_or (m (text "peerdns")) i.peer_dns;
  peer_endpoint = field_or (m (text "peerendpoint")) i.peer_endpoint;
  backend = field_or (m (text "backend")) i.backend;
  protocol = field_or (m (text "protocol")) i.protocol;
  pair_name = field_or (m (text "pairname")) i.pair_name;
}

unfoldable pub peer_meta : (Bytes → Option Bytes) → PeerSection → PeerSection
unfolding field_or_int
peer_meta m p = record p {
  name = field_or (m (text "name")) p.name;
  address = field_or (m (text "address")) p.address;
  dns = field_or (m (text "dns")) p.dns;
  client_allowed_ips = field_or (m (text "clientallowedips")) p.client_allowed_ips;
  notes = field_or (m (text "notes")) p.notes;
  traffic_limit = field_or_int (m (text "trafficlimit")) p.traffic_limit;
  expires_at = field_or (m (text "expiresat")) p.expires_at;
}

-- `applyCommentMetaIface`
unfoldable pub apply_comment_meta_iface : Map Bytes → InterfaceSection → InterfaceSection
apply_comment_meta_iface m i = iface_meta (λ k. lookup k m) i

-- `applyCommentMetaPeer`
unfoldable pub apply_comment_meta_peer : Map Bytes → PeerSection → PeerSection
unfolding peer_meta
apply_comment_meta_peer m p = peer_meta (λ k. lookup k m) p

-- What a key sets: `none` is an error of `parseInt`.
abbrev Setter : Type 0 → Type 0
Setter S = Bytes → S → Option S

module _ {S : Type 0} where
  abbrev set_text : (Bytes → S → S) → Setter S
  set_text f v s = some (f v s)

  abbrev pub set_parsed : (ℕ → S → S) → Option ℕ → S → Option S
  set_parsed f none s = none
  set_parsed f (some n) s = some (f n s)

  abbrev set_int : (ℕ → S → S) → Setter S
  unfolding parse_int
  set_int f v s = set_parsed f (parse_int v) s

  -- The cases of a `switch` on the key; an unknown key is ignored.
  abbrev apply_setter : Option (Setter S) → Bytes → S → Option S
  apply_setter none v s = some s
  apply_setter (some f) v s = f v s

interface_setters : Map (Setter InterfaceSection)
unfolding split_csv to_lower set_int
interface_setters =
    (text "privatekey", set_text (λ v i. record i { private_key = v }))
    ∷ (text "address", set_text (λ v i. record i { address = i.address ++ split_csv v }))
    ∷ (text "listenport", set_int (λ n i. record i { listen_port = n }))
    ∷ (text "dns", set_text (λ v i. record i { dns = i.dns ++ split_csv v }))
    ∷ (text "mtu", set_int (λ n i. record i { mtu = n }))
    ∷ (text "table", set_text (λ v i. record i { table = v }))
    ∷ (text "fwmark", set_int (λ n i. record i { fw_mark = n }))
    ∷ (text "preup", set_text (λ v i. record i { pre_up = join_hook i.pre_up v }))
    ∷ (text "postup", set_text (λ v i. record i { post_up = join_hook i.post_up v }))
    ∷ (text "predown", set_text (λ v i. record i { pre_down = join_hook i.pre_down v }))
    ∷ (text "postdown", set_text (λ v i. record i { post_down = join_hook i.post_down v }))
    ∷ (
      text "saveconfig",
      set_text (λ v i. record i { save_config = bytes_eq (to_lower v) (text "true") }),
    )
    ∷ (text "jc", set_int (λ n i. record i { jc = n }))
    ∷ (text "jmin", set_int (λ n i. record i { jmin = n }))
    ∷ (text "jmax", set_int (λ n i. record i { jmax = n }))
    ∷ (text "s1", set_int (λ n i. record i { s1 = n }))
    ∷ (text "s2", set_int (λ n i. record i { s2 = n }))
    ∷ (text "s3", set_int (λ n i. record i { s3 = n }))
    ∷ (text "s4", set_int (λ n i. record i { s4 = n }))
    ∷ (text "h1", set_text (λ v i. record i { h1 = v }))
    ∷ (text "h2", set_text (λ v i. record i { h2 = v }))
    ∷ (text "h3", set_text (λ v i. record i { h3 = v }))
    ∷ (text "h4", set_text (λ v i. record i { h4 = v }))
    ∷ (text "i1", set_text (λ v i. record i { i1 = v }))
    ∷ (text "i2", set_text (λ v i. record i { i2 = v }))
    ∷ (text "i3", set_text (λ v i. record i { i3 = v }))
    ∷ (text "i4", set_text (λ v i. record i { i4 = v }))
    ∷ (text "i5", set_text (λ v i. record i { i5 = v }))
    ∷ []

-- `applyInterface`
unfoldable pub apply_interface_key : Bytes → Bytes → InterfaceSection → Option InterfaceSection
unfolding to_lower interface_setters
apply_interface_key key v i = apply_setter (lookup (to_lower key) interface_setters) v i

peer_setters : Map (Setter PeerSection)
unfolding split_csv set_int
peer_setters =
    (text "publickey", set_text (λ v p. record p { public_key = v }))
    ∷ (text "presharedkey", set_text (λ v p. record p { preshared_key = v }))
    ∷ (text "allowedips", set_text (λ v p. record p { allowed_ips = p.allowed_ips ++ split_csv v }))
    ∷ (text "endpoint", set_text (λ v p. record p { endpoint = v }))
    ∷ (text "persistentkeepalive", set_int (λ n p. record p { persistent_keepalive = n }))
    ∷ []

-- `applyPeer`
unfoldable pub apply_peer_key : Bytes → Bytes → PeerSection → Option PeerSection
unfolding to_lower peer_setters
apply_peer_key key v p = apply_setter (lookup (to_lower key) peer_setters) v p

-- `HasAmnezia`
unfoldable pub has_amnezia : InterfaceSection → Bool
has_amnezia i = not (
    (i.jc == 0)
    && (i.jmin == 0)
    && (i.jmax == 0)
    && (i.s1 == 0)
    && (i.s2 == 0)
    && (i.s3 == 0)
    && (i.s4 == 0)
    && is_blank i.h1
    && is_blank i.h2
    && is_blank i.h3
    && is_blank i.h4
    && is_blank i.i1
    && is_blank i.i2
    && is_blank i.i3
    && is_blank i.i4
    && is_blank i.i5)

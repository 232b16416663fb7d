-- ===== src/Conf/Parse/Loop.antt =====
-- internal/confparse/parse.go: the loop of `Parse`.
use wireguardd.Base.{
  ◌==◌, leb, if◌then◌else◌, length, text, trim_space, to_lower, Map, insert, bytes_eq, Bytes, ℕ,
  suc, ◌^◌, ◌⊎◌, inl, inr, Bool, true, false, ◌||◌, Option, none, some, List, [], ◌∷◌, ◌++◌,
}
use wireguardd.Conf.{InterfaceSection, PeerSection, Conf}
use wireguardd.Conf.Parse.{
  ParseError, Section, Parser, cut, apply_comment_meta_iface, apply_comment_meta_peer,
  apply_interface_key, apply_peer_key,
}

abbrev pub blank_interface : InterfaceSection
blank_interface = record {
  private_key = [];
  address = [];
  listen_port = 0;
  dns = [];
  mtu = 0;
  table = [];
  fw_mark = 0;
  pre_up = [];
  post_up = [];
  pre_down = [];
  post_down = [];
  save_config = false;
  jc = 0;
  jmin = 0;
  jmax = 0;
  s1 = 0;
  s2 = 0;
  s3 = 0;
  s4 = 0;
  h1 = [];
  h2 = [];
  h3 = [];
  h4 = [];
  i1 = [];
  i2 = [];
  i3 = [];
  i4 = [];
  i5 = [];
  public_key_comment = [];
  peer_dns = [];
  peer_endpoint = [];
  backend = [];
  protocol = [];
  pair_name = [];
}

abbrev pub blank_peer : PeerSection
blank_peer = record {
  public_key = [];
  preshared_key = [];
  allowed_ips = [];
  endpoint = [];
  persistent_keepalive = 0;
  name = [];
  address = [];
  dns = [];
  client_allowed_ips = [];
  traffic_limit = 0;
  expires_at = [];
  notes = [];
}

abbrev pub push_open : Option PeerSection → List PeerSection → List PeerSection
push_open none ps = ps
push_open (some p) ps = ps ++ p ∷ []

-- `flushPeer`
abbrev pub flush_peer : Parser → Parser
flush_peer p = record p { peers = push_open p.peer p.peers; peer = none }

-- `strings.TrimPrefix(s, c)` for a prefix of one byte
abbrev pub trim_byte : ℕ → Bytes → Bytes
trim_byte b [] = []
trim_byte b (c ∷ cs) = if c == b then cs else c ∷ cs

unfoldable pub note : Option (Bytes × Bytes) → Parser → Parser
unfolding trim_space to_lower
note none p = p
note (some (k, v)) p = record p {
  pending = insert (to_lower (trim_space k)) (trim_space v) p.pending;
}

-- A comment line; an empty body holds no `=`.
unfoldable pub comment : Bytes → Parser → Parser
unfolding trim_space cut note
comment l p = note (cut b'=' (trim_space (trim_byte b';' (trim_byte b'#' l)))) p

-- The lines `[Interface]` and `[Peer]`.
unfoldable pub open_interface : Parser → Parser
open_interface p = record (flush_peer p) { section = Section.in_interface }

unfoldable pub open_peer : Parser → Parser
unfolding apply_comment_meta_peer
open_peer p = record (flush_peer p) {
  peer = some (apply_comment_meta_peer p.pending blank_peer);
  pending = [];
  section = Section.in_peer;
}

-- Comments that wait go to the interface, or to the peer, at its next field.
unfoldable pub take_iface : Map Bytes → InterfaceSection → InterfaceSection
unfolding apply_comment_meta_iface
take_iface [] i = i
take_iface (e ∷ m) i = apply_comment_meta_iface (e ∷ m) i

unfoldable pub take_peer : Map Bytes → PeerSection → PeerSection
unfolding apply_comment_meta_peer
take_peer [] q = q
take_peer (e ∷ m) q = apply_comment_meta_peer (e ∷ m) q

abbrev pub put_interface : ℕ → Bytes → Parser → Option InterfaceSection → ParseError ⊎ Parser
put_interface n val p none = inl (ParseError.invalid_integer n val)
put_interface n val p (some i) = inr (record p { interface = i; pending = [] })

abbrev pub put_peer : ℕ → Bytes → Parser → Option PeerSection → ParseError ⊎ Parser
put_peer n val p none = inl (ParseError.invalid_integer n val)
put_peer n val p (some q) = inr (record p { peer = some q; pending = [] })

unfoldable pub peer_field : ℕ → Bytes → Bytes → Parser → Option PeerSection → ParseError ⊎ Parser
unfolding take_peer apply_peer_key
peer_field n key val p none = inl (ParseError.peer_field_outside n)
peer_field n key val p (some q) = put_peer n val p (apply_peer_key key val (take_peer p.pending q))

-- `switch section`
unfoldable pub section_field : ℕ → Bytes → Bytes → Parser → Section → ParseError ⊎ Parser
unfolding take_iface apply_interface_key peer_field
section_field n key val p Section.no_section = inl (ParseError.key_outside_section n)
section_field n key val p Section.in_interface =
    put_interface n val p (apply_interface_key key val (take_iface p.pending p.interface))
section_field n key val p Section.in_peer = peer_field n key val p p.peer

unfoldable pub field : ℕ → Option (Bytes × Bytes) → Parser → ParseError ⊎ Parser
unfolding trim_space section_field
field n none p = inl (ParseError.expected_key_value n)
field n (some (key, val)) p = section_field n (trim_space key) (trim_space val) p p.section

-- One turn of the loop, on a line that is trimmed.
unfoldable pub parse_line : ℕ → Bytes → Parser → ParseError ⊎ Parser
unfolding to_lower comment open_interface open_peer cut field
parse_line n [] p = inr p
parse_line n (c ∷ cs) p =
    if (c == b'#') || (c == b';')
    then inr (comment (c ∷ cs) p)
    else if bytes_eq (to_lower (c ∷ cs)) (text "[interface]")
    then inr (open_interface p)
    else if bytes_eq (to_lower (c ∷ cs)) (text "[peer]")
    then inr (open_peer p)
    else field n (cut b'=' (c ∷ cs)) p

abbrev push_front : ℕ → List Bytes → List Bytes
push_front c [] = (c ∷ []) ∷ []
push_front c (l ∷ ls) = (c ∷ l) ∷ ls

-- The lines of `bufio.ScanLines`: no empty one after the last newline.
unfoldable pub scan_lines : Bytes → List Bytes
scan_lines [] = []
scan_lines (c ∷ cs) =
    let rest = scan_lines cs in if c == b'\n' then [] ∷ rest else push_front c rest

-- The carriage return that a line drops.
unfoldable pub drop_cr : Bytes → Bytes
drop_cr [] = []
drop_cr (c ∷ []) = if c == 13 then [] else c ∷ []
drop_cr (c ∷ d ∷ cs) = c ∷ drop_cr (d ∷ cs)

-- A line of `bufio.MaxScanTokenSize` bytes ends the scan with `ErrTooLong`.
abbrev pub too_long : Bytes → Bool
too_long l = leb (2 ^ 16) (length l)

unfoldable pub parse_lines : ℕ → List Bytes → Parser → ParseError ⊎ Parser
unfolding trim_space drop_cr parse_line
parse_lines n [] p = inr p
parse_lines n (l ∷ ls) p = elim (too_long l) [
  | true ↦ inl ParseError.token_too_long
  | false ↦ elim (parse_line (suc n) (trim_space (drop_cr l)) p) [
    | inl e ↦ inl e
    | inr q ↦ parse_lines (suc n) ls q
  ]
]

abbrev pub start : Parser
start = record {
  interface = blank_interface;
  peers = [];
  section = Section.no_section;
  peer = none;
  pending = [];
}

-- What follows the loop.
abbrev pub last_comments : Section → Parser → InterfaceSection
unfolding take_iface
last_comments Section.in_interface p = take_iface p.pending p.interface
last_comments _ p = p.interface

unfoldable pub finish_config : Parser → Conf
unfolding last_comments
finish_config p = record { interface = last_comments p.section p; peers = push_open p.peer p.peers }

abbrev pub finished : ParseError ⊎ Parser → ParseError ⊎ Conf
unfolding finish_config
finished (inl e) = inl e
finished (inr p) = inr (finish_config p)

-- `Parse`
unfoldable pub parse : Bytes → ParseError ⊎ Conf
unfolding scan_lines parse_lines finished
parse content = finished (parse_lines 0 (scan_lines content) start)

-- ===== src/Conf.antt =====
-- internal/confparse: a wg-quick configuration and its text. An int is an int64 pattern.
pub mod Parse
pub mod Clean
pub mod RoundTrip
pub mod Reading
use wireguardd.Base.{
  ◌==◌, if◌then◌else◌, text, trim_space, format_int, join, split_at, is_blank, is_positive, Bytes,
  ℕ, Bool, List, [], ◌∷◌, ◌++◌,
}

pub record InterfaceSection : Type 0 where
  pub private_key : Bytes
  pub address : List Bytes
  pub listen_port : ℕ
  pub dns : List Bytes
  pub mtu : ℕ
  pub table : Bytes
  pub fw_mark : ℕ
  pub pre_up : Bytes
  pub post_up : Bytes
  pub pre_down : Bytes
  pub post_down : Bytes
  pub save_config : Bool
  pub jc : ℕ
  pub jmin : ℕ
  pub jmax : ℕ
  pub s1 : ℕ
  pub s2 : ℕ
  pub s3 : ℕ
  pub s4 : ℕ
  pub h1 : Bytes
  pub h2 : Bytes
  pub h3 : Bytes
  pub h4 : Bytes
  pub i1 : Bytes
  pub i2 : Bytes
  pub i3 : Bytes
  pub i4 : Bytes
  pub i5 : Bytes
  pub public_key_comment : Bytes
  pub peer_dns : Bytes
  pub peer_endpoint : Bytes
  pub backend : Bytes
  pub protocol : Bytes
  pub pair_name : Bytes

pub record PeerSection : Type 0 where
  pub public_key : Bytes
  pub preshared_key : Bytes
  pub allowed_ips : List Bytes
  pub endpoint : Bytes
  pub persistent_keepalive : ℕ
  pub name : Bytes
  pub address : Bytes
  pub dns : Bytes
  pub client_allowed_ips : Bytes
  pub traffic_limit : ℕ
  pub expires_at : Bytes
  pub notes : Bytes

pub record Conf : Type 0 where
  pub interface : InterfaceSection
  pub peers : List PeerSection

-- `fmt.Fprintf(&b, "<key> = %s\n", v)`
unfoldable pub line : Bytes → Bytes → Bytes
line key v = key ++ text " = " ++ v ++ b'\n' ∷ []

-- The line of a string that is not empty.
unfoldable pub line_of : Bytes → Bytes → Bytes
unfolding line
line_of key v = if is_blank v then [] else line key v

-- The line of a number above 0.
unfoldable pub line_of_int : Bytes → ℕ → Bytes
unfolding line format_int
line_of_int key n = if is_positive n then line key (format_int n) else []

-- The line of a list that is not empty.
unfoldable pub line_of_list : Bytes → List Bytes → Bytes
unfolding line join
line_of_list key [] = []
line_of_list key (v ∷ vs) = line key (join (text ", ") (v ∷ vs))

unfoldable pub write_amnezia_int : Bytes → ℕ → Bytes
unfolding line format_int
write_amnezia_int key n = if n == 0 then [] else line key (format_int n)

unfoldable pub hook_lines : Bytes → List Bytes → Bytes
unfolding trim_space line_of
hook_lines key [] = []
hook_lines key (l ∷ ls) = line_of key (trim_space l) ++ hook_lines key ls

unfoldable pub write_hooks : Bytes → Bytes → Bytes
unfolding split_at hook_lines
write_hooks key val = if is_blank val then [] else hook_lines key (split_at b'\n' val)

unfoldable pub address_lines : List Bytes → Bytes
unfolding line
address_lines [] = []
address_lines (a ∷ as') = line (text "Address") a ++ address_lines as'

-- `strings.ReplaceAll(s, "\n", " ")`
unfoldable pub single_line : Bytes → Bytes
single_line [] = []
single_line (c ∷ cs) = (if c == b'\n' then b' ' else c) ∷ single_line cs

-- The first two lines of the text.
unfoldable pub preamble : Bytes
preamble =
    text "# Managed by wireguardd "
    ++ 226 ∷ 128 ∷ 148 ∷ text " comment fields are the durable backup of peer/interface metadata."
    ++ b'\n' ∷ text "[Interface]"
    ++ b'\n' ∷ []

-- The lines of the interface down to its AmneziaWG parameters.
unfoldable pub render_fields : InterfaceSection → Bytes
unfolding line line_of line_of_int line_of_list address_lines write_hooks
render_fields i =
    line_of (text "PrivateKey") i.private_key
    ++ line_of (text "# PublicKey") i.public_key_comment
    ++ address_lines i.address
    ++ line_of_int (text "ListenPort") i.listen_port
    ++ line_of_list (text "DNS") i.dns
    ++ line_of_int (text "MTU") i.mtu
    ++ line_of (text "Table") i.table
    ++ line_of_int (text "FwMark") i.fw_mark
    ++ write_hooks (text "PreUp") i.pre_up
    ++ write_hooks (text "PostUp") i.post_up
    ++ write_hooks (text "PreDown") i.pre_down
    ++ write_hooks (text "PostDown") i.post_down
    ++ (if i.save_config then line (text "SaveConfig") (text "true") else [])

-- The AmneziaWG parameters.
unfoldable pub render_amnezia : InterfaceSection → Bytes
unfolding line_of write_amnezia_int
render_amnezia i =
    write_amnezia_int (text "Jc") i.jc
    ++ write_amnezia_int (text "Jmin") i.jmin
    ++ write_amnezia_int (text "Jmax") i.jmax
    ++ write_amnezia_int (text "S1") i.s1
    ++ write_amnezia_int (text "S2") i.s2
    ++ write_amnezia_int (text "S3") i.s3
    ++ write_amnezia_int (text "S4") i.s4
    ++ line_of (text "H1") i.h1
    ++ line_of (text "H2") i.h2
    ++ line_of (text "H3") i.h3
    ++ line_of (text "H4") i.h4
    ++ line_of (text "I1") i.i1
    ++ line_of (text "I2") i.i2
    ++ line_of (text "I3") i.i3
    ++ line_of (text "I4") i.i4
    ++ line_of (text "I5") i.i5

-- The interface's fields, and the comments that follow them.
unfoldable pub render_interface : InterfaceSection → Bytes
unfolding line_of render_fields render_amnezia
render_interface i =
    render_fields i
    ++ render_amnezia i
    ++ line_of (text "# PeerDNS") i.peer_dns
    ++ line_of (text "# PeerEndpoint") i.peer_endpoint
    ++ line_of (text "# Backend") i.backend
    ++ line_of (text "# Protocol") i.protocol
    ++ line_of (text "# PairName") i.pair_name

unfoldable pub render_peer : PeerSection → Bytes
unfolding line line_of line_of_int line_of_list single_line
render_peer p =
    b'\n'
    ∷ (line_of (text "# Name") p.name
        ++ line_of (text "# Address") p.address
        ++ line_of (text "# DNS") p.dns
        ++ line_of (text "# ClientAllowedIPs") p.client_allowed_ips
        ++ line_of_int (text "# TrafficLimit") p.traffic_limit
        ++ line_of (text "# ExpiresAt") p.expires_at
        ++ (if is_blank p.notes then [] else line (text "# Notes") (single_line p.notes))
        ++ (text "[Peer]" ++ b'\n' ∷ [])
        ++ line (text "PublicKey") p.public_key
        ++ line_of (text "PresharedKey") p.preshared_key
        ++ line_of_list (text "AllowedIPs") p.allowed_ips
        ++ line_of (text "Endpoint") p.endpoint
        ++ line_of_int (text "PersistentKeepalive") p.persistent_keepalive)

unfoldable pub render_peers : List PeerSection → Bytes
unfolding render_peer
render_peers [] = []
render_peers (p ∷ ps) = render_peer p ++ render_peers ps

-- `Render`
unfoldable pub render : Conf → Bytes
unfolding preamble render_interface render_peers
render c = preamble ++ render_interface c.interface ++ render_peers c.peers

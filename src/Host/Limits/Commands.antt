-- ===== src/Host/Limits/Commands.antt =====
-- internal/wgbackend/tc_limits.go: the arguments of the tc commands.
use wireguardd.Base.{text, format_int, format_hex, Bytes, ℕ, List, [], ◌∷◌, ◌++◌}

abbrev pub qdisc_root : Bytes → Bytes → List Bytes
qdisc_root verb iface =
    text "qdisc"
    ∷ verb
    ∷ text "dev"
    ∷ iface
    ∷ text "root"
    ∷ text "handle"
    ∷ text "1:"
    ∷ text "htb"
    ∷ text "default"
    ∷ text "1"
    ∷ []

abbrev pub qdisc_ingress : Bytes → Bytes → List Bytes
qdisc_ingress verb iface =
    text "qdisc" ∷ verb ∷ text "dev" ∷ iface ∷ text "handle" ∷ text "ffff:" ∷ text "ingress" ∷ []

abbrev pub default_class : Bytes → List Bytes
default_class iface =
    text "class"
    ∷ text "replace"
    ∷ text "dev"
    ∷ iface
    ∷ text "parent"
    ∷ text "1:"
    ∷ text "classid"
    ∷ text "1:1"
    ∷ text "htb"
    ∷ text "rate"
    ∷ text "100gbit"
    ∷ text "ceil"
    ∷ text "100gbit"
    ∷ []

abbrev pub peer_class : Bytes → Bytes → Bytes → Bytes → List Bytes
peer_class iface class_id rate burst =
    text "class"
    ∷ text "replace"
    ∷ text "dev"
    ∷ iface
    ∷ text "parent"
    ∷ text "1:"
    ∷ text "classid"
    ∷ class_id
    ∷ text "htb"
    ∷ text "rate"
    ∷ rate
    ∷ text "ceil"
    ∷ rate
    ∷ text "burst"
    ∷ burst
    ∷ text "cburst"
    ∷ burst
    ∷ []

abbrev pub fair_queue : Bytes → Bytes → Bytes → List Bytes
fair_queue iface class_id handle =
    text "qdisc"
    ∷ text "replace"
    ∷ text "dev"
    ∷ iface
    ∷ text "parent"
    ∷ class_id
    ∷ text "handle"
    ∷ handle
    ∷ text "sfq"
    ∷ text "perturb"
    ∷ text "10"
    ∷ []

abbrev pub filter_args : Bytes → Bytes → Bytes → ℕ → List Bytes
unfolding format_int
filter_args iface proto parent pref =
    text "filter"
    ∷ text "replace"
    ∷ text "dev"
    ∷ iface
    ∷ text "protocol"
    ∷ proto
    ∷ text "parent"
    ∷ parent
    ∷ text "prio"
    ∷ format_int pref
    ∷ []

abbrev pub del_filter : Bytes → Bytes → ℕ → List Bytes
unfolding format_int
del_filter iface parent pref =
    text "filter"
    ∷ text "del"
    ∷ text "dev"
    ∷ iface
    ∷ text "parent"
    ∷ parent
    ∷ text "pref"
    ∷ format_int pref
    ∷ []

abbrev pub del_qdisc : Bytes → Bytes → List Bytes
del_qdisc iface class_id =
    text "qdisc" ∷ text "del" ∷ text "dev" ∷ iface ∷ text "parent" ∷ class_id ∷ []

abbrev pub del_class : Bytes → Bytes → List Bytes
del_class iface class_id =
    text "class" ∷ text "del" ∷ text "dev" ∷ iface ∷ text "classid" ∷ class_id ∷ []

-- `classID`
abbrev pub class_id_of : ℕ → Bytes
unfolding format_hex
class_id_of minor = text "1:" ++ format_hex minor

-- `invalid ip %q`, of an address that has no character to escape
abbrev pub invalid_ip : Bytes → Bytes
invalid_ip ip = text "invalid ip \"" ++ ip ++ text "\""

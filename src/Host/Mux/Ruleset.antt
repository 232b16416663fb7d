-- ===== src/Host/Mux/Ruleset.antt =====
-- internal/wgbackend/mux.go: RenderMux, and SyncMux over a Runner and a temporary file.
use wireguardd.Base.{
  if◌then◌else◌, less64, text, format_int, is_blank, Bytes, bytes_eq, Bool, true, false, ◌&&◌,
  Option, none, some, List, [], ◌∷◌, ◌++◌,
}
use wireguardd.Db.Tables.{order_by}
use wireguardd.Host.{MuxMap}
use wireguardd.Host.Net.{Runner}
use wireguardd.Host.Limits.Nft.{sanitize_nft_ident}
use wireguardd.Host.Mux.{validate_mux_maps}

abbrev pub text_line : Bytes → Bytes
text_line s = s ++ b'\n' ∷ []

abbrev pub public_port_before : MuxMap → MuxMap → Bool
public_port_before a b = less64 a.public_port b.public_port

-- The redirection to the AWG port; a sanitised name has no character to escape.
abbrev pub redirect : Bytes → Bytes → MuxMap → Bytes
unfolding format_int sanitize_nft_ident
redirect start comment m = text_line (
    start
    ++ format_int m.public_port
    ++ text " counter redirect to :"
    ++ format_int m.awg_port
    ++ text " comment \""
    ++ comment
    ++ sanitize_nft_ident m.iface
    ++ text "\"")

-- What the hook does with the packets of a map.
abbrev pub dispatched : MuxMap → Bytes
unfolding redirect format_int
dispatched m =
    if m.alias
    then redirect (text "    fib daddr type local udp dport ") (text "swift alias ") m
    else text_line (
        text "    fib daddr type local udp dport "
        ++ format_int m.public_port
        ++ text " jump classify_"
        ++ format_int m.public_port)

unfoldable pub dispatch_lines : List MuxMap → Bytes
unfolding dispatched
dispatch_lines [] = []
dispatch_lines (m ∷ ms) = dispatched m ++ dispatch_lines ms

-- The chain that tells the packets of plain WireGuard by their first bytes.
abbrev pub classifier : MuxMap → Bytes
unfolding redirect format_int
classifier m =
    text_line (text "  chain classify_" ++ format_int m.public_port ++ text " {")
    ++ text_line
        (text "    udp length 156 @th,64,32 0x01000000 counter return comment \"wg initiation\"")
    ++ text_line
        (text "    udp length 100 @th,64,32 0x02000000 counter return comment \"wg response\"")
    ++ text_line
        (text "    udp length 72 @th,64,32 0x03000000 counter return comment \"wg cookie\"")
    ++ text_line (
        text "    udp length >= 40 udp length & 0x000f == 0x0008 @th,64,32 0x04000000 counter"
        ++ text " return comment \"wg transport\"")
    ++ redirect (text "    udp dport ") (text "awg ") m
    ++ text_line (text "  }")

unfoldable pub classifiers : List MuxMap → Bytes
unfolding classifier
classifiers [] = []
classifiers (m ∷ ms) = let rest = classifiers ms in if m.alias then rest else classifier m ++ rest

unfoldable pub rules_text : List MuxMap → Bytes
unfolding dispatch_lines classifiers
rules_text sorted =
    text_line (text "table inet wireguardd_mux {")
    ++ text_line (text "  chain prerouting {")
    ++ text_line (text "    type nat hook prerouting priority dstnat; policy accept;")
    ++ dispatch_lines sorted
    ++ text_line (text "  }")
    ++ classifiers sorted
    ++ text_line (text "}")

-- `RenderMux`, of maps with distinct public ports.
unfoldable pub render_mux : List MuxMap → Bytes
unfolding rules_text order_by
render_mux [] = []
render_mux (m ∷ ms) = rules_text (order_by public_port_before (m ∷ ms))

-- The errors of `SyncMux`, each with that of what it ran.
pub data MuxError : Type 0 where
  invalid_maps : MuxError
  remove_failed : Bytes → MuxError
  file_failed : Bytes → MuxError
  apply_failed : Bytes → MuxError

-- The error, the ruleset applied last (`muxState`) and the host.
abbrev pub MuxResult : Type 0 → Type 0
MuxResult H = Option MuxError × Bytes × H

-- A temporary file that is made and written: its name, or the error.
pub data Written : Type 0 where
  file_written : Bytes → Written
  file_unwritten : Bytes → Written

abbrev pub table_args : Bytes → List Bytes
table_args verb = verb ∷ text "table" ∷ text "inet" ∷ text "wireguardd_mux" ∷ []

-- One transaction: made if it is missing, deleted, and made anew.
abbrev pub transaction : Bytes → Bytes
transaction rules =
    text_line (text "table inet wireguardd_mux")
    ++ text_line (text "delete table inet wireguardd_mux")
    ++ rules

abbrev pub no_error : Option Bytes → Bool
no_error none = true
no_error (some e) = false

module _ {H : Type 0} (run : Runner H) (write : Bytes → H → Written × H)
    (remove : Bytes → H → H) where
  unfoldable pub remove_mux : Bool → H → MuxResult H
  remove_mux present h =
      let (o, h') = run (text "nft") (table_args (text "delete")) h in
      if present
      then elim o.error [
        | none ↦ (none, [], h')
        | some e ↦ (some (MuxError.remove_failed e), [], h')
      ]
      else (none, [], h)

  -- The file is removed whether it could be applied or not.
  unfoldable pub apply_written : Bytes → Bytes → Written × H → MuxResult H
  apply_written rules applied (file_unwritten e, h) = (some (MuxError.file_failed e), applied, h)
  apply_written rules applied (file_written name, h) =
      let (o, h') = run (text "nft") (text "-f" ∷ name ∷ []) h in
      elim o.error [
        | none ↦ (none, rules, remove name h')
        | some e ↦ (some (MuxError.apply_failed e), applied, remove name h')
      ]

  unfoldable pub sync_rules : Bytes → Bytes → H → MuxResult H
  unfolding remove_mux apply_written
  sync_rules rules applied h =
      let (o, h1) = run (text "nft") (table_args (text "list")) h in
      let present = no_error o.error in
      if is_blank rules
      then remove_mux present h1
      else if present && bytes_eq rules applied
      then (none, applied, h1)
      else apply_written rules applied (write (transaction rules) h1)

  -- `SyncMux`
  unfoldable pub host_sync_mux : List MuxMap → Bytes → H → MuxResult H
  unfolding validate_mux_maps render_mux sync_rules
  host_sync_mux maps applied h =
      if validate_mux_maps maps
      then sync_rules (render_mux maps) applied h
      else (some MuxError.invalid_maps, applied, h)

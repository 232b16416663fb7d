-- ===== src/Conf/RoundTrip.antt =====
-- `Parse` reads what `Render` writes.
use mathlib.Core.Path.{subst}
use wireguardd.Base.{
  if◌then◌else◌, length, All, Bytes, ◌≤◌, ◌≡◌, refl, sym, ap, ◌∙◌, inr, false, List, [], ◌∷◌, ◌++◌,
  append_assoc, append-nil,
}
use wireguardd.Conf.{
  preamble, render_interface, render_peers, render, InterfaceSection, PeerSection, Conf,
}
use wireguardd.Conf.Parse.{Parser, apply_comment_meta_iface}
use wireguardd.Conf.Parse.Loop.{
  blank_interface, finish_config, finished, scan_lines, parse_lines, parse, start,
}
use wireguardd.Conf.Reading.{Stage, in_section, Holds, Fits, Reads, ◌then◌}
use wireguardd.Conf.Reading.Fields.{take_iface_lem}
use wireguardd.Conf.Reading.Interface.{IsWritable, without_comments, interface-Reads, aside-Reads}
use wireguardd.Conf.Reading.Peers.{IsWritablePeer, peers-Reads}

after_preamble :
    (rest : Bytes)
    → Fits (preamble ++ rest)
    → Fits rest
      × (parse_lines 0 (scan_lines (preamble ++ rest)) start
          ≡ parse_lines 2 (scan_lines rest) (in_section blank_interface []))
unfolding preamble scan_lines parse_lines
after_preamble rest (_, (_, f)) = (f, refl)

-- A text that leads to a stage is read as what the stage holds.
parse-Reads :
    (s : Bytes) (b : Stage) (c : Conf)
    → Reads s (Stage.interface false blank_interface) b
    → ((p : Parser) → Holds b p → finish_config p ≡ c)
    → Fits (preamble ++ s)
    → parse (preamble ++ s) ≡ inr c
unfolding parse Holds
parse-Reads s b c x done f =
    let (g, e) = after_preamble s f in
    let (m, q, h, _, e') =
      x.reads (in_section blank_interface [])
        (blank_interface, [], refl, unfold apply_comment_meta_iface in refl) 2 []
        (rw (append-nil s) g) in
    ap finished (
      e
      ∙ ap (λ t. parse_lines 2 (scan_lines t) (in_section blank_interface [])) (sym (append-nil s))
      ∙ e')
    ∙ ap inr (done q h)

finish_config-interface :
    (i : InterfaceSection) (p : Parser)
    → Holds (Stage.interface false i) p
    → finish_config p ≡ record { interface = i; peers = [] }
unfolding finish_config Holds
finish_config-interface i p (j, m, h, k) =
    ap finish_config h
    ∙ ap {B = Conf} (λ i. record { interface = i; peers = [] }) (take_iface_lem m j ∙ k)

finish_config-ended :
    (i : InterfaceSection) (ps : List PeerSection) (p : Parser)
    → Holds (Stage.ended i ps) p
    → finish_config p ≡ record { interface = i; peers = ps }
unfolding finish_config Holds
finish_config-ended i ps p (qs, q, h, k) =
    ap finish_config h ∙ ap {B = Conf} (λ ps. record { interface = i; peers = ps }) k

-- An interface with no peer survives rendering and parsing, all its comments included, when no line
-- is as long as the scanner's token and each field fits its line: a number is not negative, but for
-- the AmneziaWG ones, and a text is left out, or it has no newline and at either end a byte that is no
-- part of a white space, as have the items of a list, without a comma, and the lines of a hook.
pub parse-render_interface :
    (i : InterfaceSection)
    → IsWritable i
    → Fits (render (record { interface = i; peers = [] }))
    → parse (render (record { interface = i; peers = [] }))
      ≡ inr (record { interface = i; peers = [] })
unfolding render render_peers
parse-render_interface i h f =
    ap parse (append-nil (preamble ++ render_interface i))
    ∙ parse-Reads (render_interface i) (Stage.interface false i)
        (record { interface = i; peers = [] }) (interface-Reads i h) (finish_config-interface i)
        (subst Fits (append-nil (preamble ++ render_interface i)) f)

-- With peers, everything survives but the comments that follow the interface's fields: its
-- client's DNS and endpoint, backend, protocol and pair name are read as blank. The interface has
-- an address, no line is as long as the scanner's token, and each field fits its line: a number is not
-- negative, but for the AmneziaWG ones, and a text is left out, which a public key of a peer is not,
-- or it has no newline and at either end a byte that is no part of a white space, as have the items
-- of a list, without a comma, and the lines of a hook.
pub parse-render_peers :
    (i : InterfaceSection) (q : PeerSection) (qs : List PeerSection)
    → IsWritable i
    → 1 ≤ length i.address
    → All IsWritablePeer (q ∷ qs)
    → Fits (render (record { interface = i; peers = q ∷ qs }))
    → parse (render (record { interface = i; peers = q ∷ qs }))
      ≡ inr (record { interface = without_comments i; peers = q ∷ qs })
unfolding render
parse-render_peers i q qs h a hs f =
    let e = append_assoc preamble (render_interface i) (render_peers (q ∷ qs)) in
    ap parse e
    ∙ parse-Reads (render_interface i ++ render_peers (q ∷ qs))
        (Stage.ended (without_comments i) (q ∷ qs))
        (record { interface = without_comments i; peers = q ∷ qs })
        (aside-Reads i h a then peers-Reads (without_comments i) [] q qs hs)
        (finish_config-ended (without_comments i) (q ∷ qs)) (subst Fits e f)

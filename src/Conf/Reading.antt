-- ===== src/Conf/Reading.antt =====
-- Reading a printed text piece by piece: what the parser's variables hold before and after a piece.
pub mod Lines
pub mod Fields
pub mod Notes
pub mod Peers
pub mod Interface
pub mod Kinds
use wireguardd.Base.{
  starts_well, trim_space_none, All, trim_space, has_byte, Map, reverse, Bytes, ℕ, suc, ◌≡◌, refl,
  sym, ap, ◌∙◌, inr, Bool, true, false, none, some, List, [], ◌∷◌, ◌++◌, append_assoc,
}
use mathlib.Core.Path.{subst}
use wireguardd.Conf.{line, line_of, InterfaceSection, PeerSection}
use wireguardd.Conf.Parse.{
  ParseError, Section, Parser, cut, iface_meta, apply_comment_meta_iface, apply_comment_meta_peer,
  peer_meta,
}
use wireguardd.Conf.Parse.Loop.{
  blank_interface, blank_peer, push_open, flush_peer, comment, section_field, field, open_peer,
  parse_line, scan_lines, drop_cr, too_long, parse_lines, start,
}
use wireguardd.Conf.Clean.{
  IsClean, IsText, starts_well-append, starts_well-reverse_append, drop_cr_none, scan_lines-append,
  cut-append, has_byte-append,
}

-- Where the loop stands: in the interface, all comments applied or some waiting; before a peer's
-- header; in a peer; after the last field of a peer.
pub data Stage : Type 0 where
  interface : Bool → InterfaceSection → Stage
  waiting : InterfaceSection → List PeerSection → PeerSection → Stage
  reading : InterfaceSection → List PeerSection → PeerSection → Stage
  ended : InterfaceSection → List PeerSection → Stage

abbrev pub in_section : InterfaceSection → Map Bytes → Parser
in_section i m = record {
  interface = i;
  peers = [];
  section = Section.in_interface;
  peer = none;
  pending = m;
}

abbrev pub in_peer_section : InterfaceSection → List PeerSection → PeerSection → Parser
in_peer_section i ps q = record {
  interface = i;
  peers = ps;
  section = Section.in_peer;
  peer = some q;
  pending = [];
}

unfoldable pub Holds : Stage → Parser → Type 0
unfolding apply_comment_meta_iface apply_comment_meta_peer
Holds (Stage.interface true i) p = p ≡ in_section i []
Holds (Stage.interface false i) p =
    (j : InterfaceSection) × (m : Map Bytes) × (p ≡ in_section j m)
    × (apply_comment_meta_iface m j ≡ i)
Holds (Stage.waiting i ps q) p =
    (p.interface ≡ i)
    × (push_open p.peer p.peers ≡ ps)
    × (apply_comment_meta_peer p.pending blank_peer ≡ q)
Holds (Stage.reading i ps q) p = p ≡ in_peer_section i ps q
Holds (Stage.ended i ps) p =
    (qs : List PeerSection) × (q : PeerSection) × (p ≡ in_peer_section i qs q) × (qs ++ q ∷ [] ≡ ps)

-- No line is as long as the scanner's token.
abbrev pub Fits : Bytes → Type 0
Fits s = All (λ l. too_long l ≡ false) (scan_lines s)

-- A piece of text takes the loop from one stage to another, whatever follows it.
pub record Reads (s : Bytes) (a b : Stage) : Type 0 where
  pub reads :
      (p : Parser)
      → Holds a p
      → (n : ℕ) (rest : Bytes) → Fits (s ++ rest)
      → (m : ℕ) × (q : Parser) × Holds b q
        × Fits rest
        × (parse_lines n (scan_lines (s ++ rest)) p ≡ parse_lines m (scan_lines rest) q)

pub Reads-none : {a : Stage} → Reads [] a a
Reads-none = record { reads = λ p h n rest f. (n, p, h, f, refl) }

infixl 20 ◌then◌
pub ◌then◌ : {s t : Bytes} {a b c : Stage} → Reads s a b → Reads t b c → Reads (s ++ t) a c
◌then◌ {s} {t} x y = record {
  reads = λ p h n rest f.
      let (m, q, k, g, e) = x.reads p h n (t ++ rest) (rw (sym (append_assoc s t rest)) f) in
      let (l, r, k', g', e') = y.reads q k m rest g in
      (l, r, k', g', ap (λ u. parse_lines n (scan_lines u) p) (append_assoc s t rest) ∙ e ∙ e');
}

-- One line that is long enough not to be blank, and not too long.
pub Reads-line :
    (l : Bytes) (a b : Stage)
    → starts_well l ≡ true
    → starts_well (reverse l) ≡ true
    → has_byte b'\n' l ≡ false
    → ((p : Parser) → Holds a p → (n : ℕ) → (q : Parser) × Holds b q × (parse_line n l p ≡ inr q))
    → Reads (l ++ b'\n' ∷ []) a b
unfolding parse_lines
Reads-line l a b hs hr hn step = record {
  reads = λ p h n rest f.
      let (q, k, e) = step p h (suc n) in
      let lines : scan_lines ((l ++ b'\n' ∷ []) ++ rest) ≡ l ∷ scan_lines rest =
        ap scan_lines (append_assoc l (b'\n' ∷ []) rest) ∙ scan_lines-append l rest hn in
      let (g, gs) : All (λ l. too_long l ≡ false) (l ∷ scan_lines rest) =
        subst (λ ls. All (λ l'. too_long l' ≡ false) ls) lines f in
      (
        suc n,
        q,
        k,
        gs,
        ap (λ ls. parse_lines n ls p) lines
            ∙ one_line l (scan_lines rest) n p q g (
                ap (λ t. parse_line (suc n) t p)
                  (ap trim_space (drop_cr_none l hr) ∙ trim_space_none l hs hr)
                ∙ e),
      );
}
  where
    one_line :
        (l : Bytes) (ls : List Bytes) (n : ℕ) (p q : Parser)
        → too_long l ≡ false
        → parse_line (suc n) (trim_space (drop_cr l)) p ≡ inr q
        → parse_lines n (l ∷ ls) p ≡ parse_lines (suc n) ls q
    one_line l ls n p q g e = rw (parse_lines, g, e) refl

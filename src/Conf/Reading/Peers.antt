-- ===== src/Conf/Reading/Peers.antt =====
-- The peers' part of the text, read back peer by peer.
use mathlib.Core.Path.{subst}
use mathlib.Core.List.{cons≢nil}
use wireguardd.Base.{
  trim_front, trim_left_back, is_edge, if◌then◌else◌, if-cases, All, text, is_space, trim_left,
  trim_space, format_int, join, has_byte, to_lower, is_blank, IsCount, is_positive, Bytes, ℕ, suc,
  ◌≡◌, refl, sym, ap, ◌∙◌, inl, inr, true, some, List, [], ◌∷◌, ◌++◌, append_assoc, arith,
}
use wireguardd.Conf.{
  line, line_of, line_of_int, line_of_list, single_line, render_peer, render_peers,
  InterfaceSection, PeerSection,
}
use wireguardd.Conf.Parse.{
  Parser, apply_peer_key, split_csv, set_parsed, peer_meta, apply_comment_meta_peer,
}
use wireguardd.Conf.Parse.Items.{IsItem, split_csv-join, join-IsClean}
use wireguardd.Conf.Parse.Numbers.{format_int-IsClean, parse_int-format_int}
use wireguardd.Conf.Parse.Loop.{
  blank_peer, push_open, open_peer, put_peer, take_peer, peer_field, section_field, parse_line,
  parse_lines, scan_lines,
}
use wireguardd.Conf.Clean.{IsClean, IsText}
use wireguardd.Conf.Reading.{Stage, in_peer_section, Holds, Reads, Reads-none, Reads-line, ◌then◌}
use wireguardd.Conf.Reading.Fields.{is_key, is_field_key, field-IsKey}
use wireguardd.Conf.Reading.Kinds.{count_zero}
use wireguardd.Conf.Reading.Lines.{field-Reads}
use wireguardd.Conf.Reading.Notes.{peer_note-Reads, traffic_limit-Reads, optional, single_line_none}

-- A peer whose fields each fit their lines.
pub record IsWritablePeer (q : PeerSection) : Type 0 where
  pub public_key : IsClean q.public_key
  pub preshared_key : IsText q.preshared_key
  pub allowed_ips : All IsItem q.allowed_ips
  pub endpoint : IsText q.endpoint
  pub persistent_keepalive : IsCount q.persistent_keepalive
  pub name : IsText q.name
  pub address : IsText q.address
  pub dns : IsText q.dns
  pub client_allowed_ips : IsText q.client_allowed_ips
  pub traffic_limit : IsCount q.traffic_limit
  pub expires_at : IsText q.expires_at
  pub notes : IsText q.notes

peer_field-Holds :
    (i : InterfaceSection) (ps : List PeerSection) (key v : Bytes) (q r : PeerSection)
    → apply_peer_key key v q ≡ some r
    → (p : Parser) → Holds (Stage.reading i ps q) p
    → (n : ℕ)
    → (p' : Parser) × Holds (Stage.reading i ps r) p' × (section_field n key v p p.section ≡ inr p')
unfolding Holds section_field peer_field take_peer
peer_field-Holds i ps key v q r e p h n = (
  in_peer_section i ps r,
  refl,
  ap (λ p. section_field n key v p p.section) h ∙ ap (put_peer n v (in_peer_section i ps q)) e,
)

-- A blank line.
blank-Reads : {a : Stage} → Reads (b'\n' ∷ []) a a
unfolding scan_lines parse_lines parse_line trim_space trim_left trim_left_back trim_front
blank-Reads = record { reads = λ p h n rest f. (suc n, p, h, f.1, refl) }

module _ {i : InterfaceSection} {ps : List PeerSection} where
  peer_set-Reads :
      (key v : Bytes) {q : PeerSection} (r : PeerSection)
      → is_field_key key ≡ true
      → IsClean v
      → apply_peer_key key v q ≡ some r
      → Reads (line key v) (Stage.reading i ps q) (Stage.reading i ps r)
  peer_set-Reads key v {q} r k c e =
      let (l, m) = field-IsKey key k in
      field-Reads key v (Stage.reading i ps q) (Stage.reading i ps r) l m c
        (peer_field-Holds i ps key v q r e)

  peer_text-Reads :
      (set : Bytes → PeerSection → PeerSection) (key v : Bytes) {q : PeerSection}
      → set [] q ≡ q
      → is_field_key key ≡ true
      → ((w : Bytes) → apply_peer_key key w q ≡ some (set w q))
      → IsText v
      → Reads (line_of key v) (Stage.reading i ps q) (Stage.reading i ps (set v q))
  peer_text-Reads set key v {q} z k e =
      optional key v (Stage.reading i ps q) (λ w. Stage.reading i ps (set w q))
        (ap (Stage.reading i ps) z) (λ c. peer_set-Reads key v (set v q) k c (e v))

  allowed_ips-Reads :
      (vs : List Bytes) {q : PeerSection}
      → q.allowed_ips ≡ []
      → All IsItem vs
      → Reads
          (line_of_list (text "AllowedIPs") vs)
          (Stage.reading i ps q)
          (Stage.reading i ps (record q { allowed_ips = vs }))
  unfolding line_of_list
  allowed_ips-Reads [] {q} z h =
      subst (λ r. Reads [] (Stage.reading i ps q) (Stage.reading i ps r))
        (ap (λ xs. record q { allowed_ips = xs }) z) Reads-none
  allowed_ips-Reads (v ∷ vs) {q} z h =
      peer_set-Reads (text "AllowedIPs") (join (text ", ") (v ∷ vs))
        (record q { allowed_ips = v ∷ vs }) (unfold is_field_key in refl) (join-IsClean v vs h)
        (unfold apply_peer_key in
          ap (λ xs. some (record q { allowed_ips = xs }))
            (ap (λ xs. xs ++ split_csv (join (text ", ") (v ∷ vs))) z ∙ split_csv-join (v ∷ vs) h))

  keepalive-Reads :
      (n : ℕ) {q : PeerSection}
      → q.persistent_keepalive ≡ 0
      → IsCount n
      → Reads
          (line_of_int (text "PersistentKeepalive") n)
          (Stage.reading i ps q)
          (Stage.reading i ps (record q { persistent_keepalive = n }))
  unfolding line_of_int
  keepalive-Reads n {q} z c =
      if-cases
        (λ t.
          Reads t (Stage.reading i ps q)
            (Stage.reading i ps (record q { persistent_keepalive = n })))
        (is_positive n) _ _
        (λ h.
          peer_set-Reads (text "PersistentKeepalive") (format_int n)
            (record q { persistent_keepalive = n }) (unfold is_field_key in refl)
            (format_int-IsClean n)
            (unfold apply_peer_key in
              ap (λ o. set_parsed (λ m q. record q { persistent_keepalive = m }) o q)
                (parse_int-format_int n (omega arith))))
        (λ h.
          subst (λ r. Reads [] (Stage.reading i ps q) (Stage.reading i ps r))
            (ap (λ m. record q { persistent_keepalive = m }) (z ∙ count_zero n c h)) Reads-none)

  notes-Reads :
      (v : Bytes) {q : PeerSection}
      → q.notes ≡ []
      → IsText v
      → Reads
          (if is_blank v then [] else line (text "# Notes") (single_line v))
          (Stage.waiting i ps q)
          (Stage.waiting i ps (record q { notes = v }))
  unfolding is_key to_lower peer_meta
  notes-Reads v {q} z h =
      subst (λ t. Reads t (Stage.waiting i ps q) (Stage.waiting i ps (record q { notes = v })))
        (one_line v h)
        (peer_note-Reads (λ w q. record q { notes = w }) (text "Notes") v
          (ap (λ w. record q { notes = w }) (sym z)) refl (λ w f. refl) h)
    where
      one_line :
          (v : Bytes)
          → IsText v
          → line_of (text "# Notes") v
            ≡ (if is_blank v then [] else line (text "# Notes") (single_line v))
      one_line [] h = unfold line_of in refl
      one_line (c ∷ cs) (inl e) = absurd (cons≢nil e)
      one_line (c ∷ cs) (inr (_, _, l)) =
          unfold line_of in ap (line (text "# Notes")) (sym (single_line_none (c ∷ cs) l))

  -- The header of a peer.
  header-Reads :
      (q : PeerSection)
      → Reads (text "[Peer]" ++ b'\n' ∷ []) (Stage.waiting i ps q) (Stage.reading i ps q)
  unfolding is_edge is_space has_byte parse_line open_peer Holds
  header-Reads q =
      Reads-line (text "[Peer]") (Stage.waiting i ps q) (Stage.reading i ps q) refl refl refl
        (λ p h n.
          let (a, b, c) = h in
          (
            open_peer p,
            ap
                  (λ j.
                    in_peer_section j (push_open p.peer p.peers)
                      (apply_comment_meta_peer p.pending blank_peer))
                  a
                ∙ ap (λ rs. in_peer_section i rs (apply_comment_meta_peer p.pending blank_peer)) b
                ∙ ap (in_peer_section i ps) c,
            unfold to_lower in refl,
          ))

  closed :
      {s : Bytes} {a : Stage} {q : PeerSection}
      → Reads s a (Stage.reading i ps q)
      → Reads s a (Stage.ended i (ps ++ q ∷ []))
  closed {q = q} x = record {
    reads =
        λ p h n rest f. let (m, r, k, g, e) = x.reads p h n rest f in (m, r, of_reading r k, g, e);
  }
    where
      of_reading :
          (p : Parser) → Holds (Stage.reading i ps q) p → Holds (Stage.ended i (ps ++ q ∷ [])) p
      of_reading p h = unfold Holds in (ps, q, h, refl)

  again :
      {s : Bytes} {a : Stage}
      → Reads s a (Stage.ended i ps)
      → Reads s a (Stage.waiting i ps blank_peer)
  again x = record {
    reads =
        λ p h n rest f. let (m, r, k, g, e) = x.reads p h n rest f in (m, r, of_ended r k, g, e);
  }
    where
      of_ended : (p : Parser) → Holds (Stage.ended i ps) p → Holds (Stage.waiting i ps blank_peer) p
      of_ended p h =
          unfold Holds apply_comment_meta_peer peer_meta in
          let (qs, q, e, k) = h in
          (
            ap (λ p. p.interface) e,
            ap (λ p. push_open p.peer p.peers) e ∙ k,
            ap (λ p. apply_comment_meta_peer p.pending blank_peer) e,
          )

  peer-Reads :
      (q : PeerSection)
      → IsWritablePeer q
      → Reads (render_peer q) (Stage.waiting i ps blank_peer) (Stage.ended i (ps ++ q ∷ []))
  unfolding render_peer is_key is_field_key to_lower peer_meta apply_peer_key
  peer-Reads q h = closed (
      blank-Reads
      then (peer_note-Reads (λ v q. record q { name = v }) (text "Name") q.name refl refl
            (λ w f. refl) h.name
          then peer_note-Reads (λ v q. record q { address = v }) (text "Address") q.address refl
              refl (λ w f. refl) h.address
          then peer_note-Reads (λ v q. record q { dns = v }) (text "DNS") q.dns refl refl
              (λ w f. refl) h.dns
          then peer_note-Reads (λ v q. record q { client_allowed_ips = v })
              (text "ClientAllowedIPs") q.client_allowed_ips refl refl (λ w f. refl)
              h.client_allowed_ips
          then traffic_limit-Reads q.traffic_limit refl h.traffic_limit
          then peer_note-Reads (λ v q. record q { expires_at = v }) (text "ExpiresAt") q.expires_at
              refl refl (λ w f. refl) h.expires_at
          then notes-Reads q.notes refl h.notes
          then header-Reads _
          then peer_set-Reads (text "PublicKey") q.public_key _ refl h.public_key refl
          then peer_text-Reads (λ v q. record q { preshared_key = v }) (text "PresharedKey")
              q.preshared_key refl refl (λ w. refl) h.preshared_key
          then allowed_ips-Reads q.allowed_ips refl h.allowed_ips
          then peer_text-Reads (λ v q. record q { endpoint = v }) (text "Endpoint") q.endpoint refl
              refl (λ w. refl) h.endpoint
          then keepalive-Reads q.persistent_keepalive refl h.persistent_keepalive))

pub peers-Reads :
    (i : InterfaceSection) (ps : List PeerSection) (q : PeerSection) (qs : List PeerSection)
    → All IsWritablePeer (q ∷ qs)
    → Reads (render_peers (q ∷ qs)) (Stage.waiting i ps blank_peer) (Stage.ended i (ps ++ q ∷ qs))
unfolding render_peers
peers-Reads i ps q [] (h, hs) = peer-Reads q h then Reads-none
peers-Reads i ps q (r ∷ qs) (h, hs) =
    subst
      (λ rs.
        Reads (render_peer q ++ render_peers (r ∷ qs)) (Stage.waiting i ps blank_peer)
          (Stage.ended i rs))
      (append_assoc ps (q ∷ []) (r ∷ qs))
      (again (peer-Reads q h) then peers-Reads i (ps ++ q ∷ []) r qs hs)

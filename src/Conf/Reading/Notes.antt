-- ===== src/Conf/Reading/Notes.antt =====
-- The comments of an interface and of a peer.
use mathlib.Core.Path.{subst}
use wireguardd.Base.{
  lookup-insert_at, if◌then◌else◌, if-cases, text, format_int, has_byte, to_lower, IsCount, Map,
  lookup, insert, is_positive, Bytes, bytes_eq, ℕ, ◌^◌, ◌<◌, ◌≡◌, refl, sym, ap, ◌∙◌, fun_ext, inl,
  inr, true, false, Option, none, some, List, [], ◌∷◌, arith,
}
use wireguardd.Conf.{line, line_of, line_of_int, single_line, InterfaceSection, PeerSection}
use wireguardd.Conf.Parse.{
  Parser, iface_meta, peer_meta, apply_comment_meta_iface, apply_comment_meta_peer,
}
use wireguardd.Conf.Parse.Numbers.{format_int-IsClean, atoi-format_int}
use wireguardd.Conf.Parse.Loop.{blank_peer}
use wireguardd.Conf.Clean.{IsClean, IsText}
use wireguardd.Conf.Reading.{Stage, Holds, Reads, Reads-none, ◌then◌}
use wireguardd.Conf.Reading.Kinds.{line_of-clean, count_zero}
use wireguardd.Conf.Reading.Fields.{is_key, is_key-IsKey}
use wireguardd.Conf.Reading.Lines.{comment-Reads}

-- What the comments hold once a key is set.
abbrev with_key : Bytes → Bytes → (Bytes → Option Bytes) → Bytes → Option Bytes
with_key key v f l = if bytes_eq (to_lower key) l then some v else f l

insert-with_key :
    (key v : Bytes) (m : Map Bytes)
    → (λ l. lookup l (insert (to_lower key) v m)) ≡ with_key key v (λ l. lookup l m)
insert-with_key key v m = fun_ext (λ l. lookup-insert_at (to_lower key) l v m)

-- An optional line takes one stage to another when its absence does and its presence does.
pub optional :
    (key v : Bytes) (a : Stage) (b : Bytes → Stage)
    → b [] ≡ a
    → (IsClean v → Reads (line key v) a (b v))
    → IsText v
    → Reads (line_of key v) a (b v)
optional key v a b z r (inl h) =
    subst (λ w. Reads (line_of key w) a (b w)) (sym h)
      (unfold line_of in subst (λ c. Reads [] a c) (sym z) Reads-none)
optional key v a b z r (inr c) = subst (λ t. Reads t a (b v)) (sym (line_of-clean key v c)) (r c)

note-Holds :
    (set : Bytes → InterfaceSection → InterfaceSection) (key v : Bytes) (i : InterfaceSection)
    → ((f : Bytes → Option Bytes) (j : InterfaceSection)
        → iface_meta (with_key key v f) j ≡ set v (iface_meta f j))
    → (p : Parser) → Holds (Stage.interface false i) p
    → Holds
        (Stage.interface false (set v i))
        (record p { pending = insert (to_lower key) v p.pending })
unfolding Holds apply_comment_meta_iface
note-Holds set key v i e p (j, m, h, k) = (
  j,
  insert (to_lower key) v m,
  ap {B = Parser} (λ p. record p { pending = insert (to_lower key) v p.pending }) h,
  ap (λ f. iface_meta f j) (insert-with_key key v m) ∙ e (λ l. lookup l m) j ∙ ap (set v) k,
)

pub note-Reads :
    (set : Bytes → InterfaceSection → InterfaceSection) (key v : Bytes) {i : InterfaceSection}
    → set [] i ≡ i
    → is_key key ≡ true
    → ((w : Bytes) (f : Bytes → Option Bytes) (j : InterfaceSection)
        → iface_meta (with_key key w f) j ≡ set w (iface_meta f j))
    → IsText v
    → Reads
        (line_of (b'#' ∷ 32 ∷ key) v)
        (Stage.interface false i)
        (Stage.interface false (set v i))
note-Reads set key v {i} z k e =
    optional (b'#' ∷ 32 ∷ key) v (Stage.interface false i) (λ w. Stage.interface false (set w i))
      (ap (Stage.interface false) z)
      (λ c.
        comment-Reads key v (Stage.interface false i) (Stage.interface false (set v i))
          (is_key-IsKey key k) c (note-Holds set key v i (e v)))

peer_note-Holds :
    (key v : Bytes) (i : InterfaceSection) (ps : List PeerSection) (q r : PeerSection)
    → ((f : Bytes → Option Bytes)
        → peer_meta f blank_peer ≡ q
        → peer_meta (with_key key v f) blank_peer ≡ r)
    → (p : Parser) → Holds (Stage.waiting i ps q) p
    → Holds (Stage.waiting i ps r) (record p { pending = insert (to_lower key) v p.pending })
unfolding Holds apply_comment_meta_peer
peer_note-Holds key v i ps q r e p (a, b, c) = (
  a,
  b,
  ap (λ f. peer_meta f blank_peer) (insert-with_key key v p.pending)
      ∙ e (λ l. lookup l p.pending) c,
)

pub peer_note-Reads :
    (set : Bytes → PeerSection → PeerSection) (key v : Bytes) {i : InterfaceSection}
    {ps : List PeerSection} {q : PeerSection}
    → set [] q ≡ q
    → is_key key ≡ true
    → ((w : Bytes) (f : Bytes → Option Bytes)
        → peer_meta (with_key key w f) blank_peer ≡ set w (peer_meta f blank_peer))
    → IsText v
    → Reads (line_of (b'#' ∷ 32 ∷ key) v) (Stage.waiting i ps q) (Stage.waiting i ps (set v q))
peer_note-Reads set key v {i} {ps} {q} z k e =
    optional (b'#' ∷ 32 ∷ key) v (Stage.waiting i ps q) (λ w. Stage.waiting i ps (set w q))
      (ap (Stage.waiting i ps) z)
      (λ c.
        comment-Reads key v (Stage.waiting i ps q) (Stage.waiting i ps (set v q))
          (is_key-IsKey key k) c
          (peer_note-Holds key v i ps q (set v q) (λ f h. e v f ∙ ap (set v) h)))

limit_meta :
    (n : ℕ) (f : Bytes → Option Bytes) (q : PeerSection)
    → n < 2 ^ 64
    → peer_meta f blank_peer ≡ q
    → peer_meta (with_key (text "TrafficLimit") (format_int n) f) blank_peer
      ≡ record q { traffic_limit = n }
unfolding to_lower peer_meta
limit_meta n f q h e =
    ap (λ o. record (peer_meta f blank_peer) { traffic_limit = elim o [ none ↦ 0 | some m ↦ m ] })
      (atoi-format_int n h)
    ∙ ap {A = PeerSection} (λ q. record q { traffic_limit = n }) e

pub traffic_limit-Reads :
    (n : ℕ) {i : InterfaceSection} {ps : List PeerSection} {q : PeerSection}
    → q.traffic_limit ≡ 0
    → IsCount n
    → Reads
        (line_of_int (text "# TrafficLimit") n)
        (Stage.waiting i ps q)
        (Stage.waiting i ps (record q { traffic_limit = n }))
unfolding line_of_int
traffic_limit-Reads n {i} {ps} {q} z c =
    if-cases
      (λ t. Reads t (Stage.waiting i ps q) (Stage.waiting i ps (record q { traffic_limit = n })))
      (is_positive n) _ _
      (λ h.
        comment-Reads (text "TrafficLimit") (format_int n) (Stage.waiting i ps q)
          (Stage.waiting i ps (record q { traffic_limit = n }))
          (is_key-IsKey (text "TrafficLimit") (unfold is_key in refl)) (format_int-IsClean n)
          (peer_note-Holds (text "TrafficLimit") (format_int n) i ps q
            (record q { traffic_limit = n }) (λ f e. limit_meta n f q (omega arith) e)))
      (λ h.
        subst (λ r. Reads [] (Stage.waiting i ps q) (Stage.waiting i ps r))
          (ap (λ m. record q { traffic_limit = m }) (z ∙ count_zero n c h)) Reads-none)

pub single_line_none : (s : Bytes) → has_byte b'\n' s ≡ false → single_line s ≡ s
unfolding single_line has_byte
single_line_none [] h = refl
single_line_none (c ∷ cs) h = ground (arith, single_line_none cs)

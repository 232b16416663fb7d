-- ===== src/Conf/Reading/Fields.antt =====
-- The fields of an interface.
use wireguardd.Base.{
  is_edge, starts_well, trim_space, has_byte, Map, Bytes, bytes_eq, bytes_eq→eq, ℕ, ◌≡◌, refl, ap,
  ◌∙◌, inr, Bool, true, false, not, ◌&&◌, false≢true, some, [], ◌∷◌, ◌++◌,
}
use wireguardd.Conf.{line, InterfaceSection}
use wireguardd.Conf.Parse.{
  apply_comment_meta_peer, peer_meta, Parser, apply_interface_key, apply_comment_meta_iface,
}
use wireguardd.Conf.Parse.Loop.{blank_peer, push_open, put_interface, take_iface, section_field}
use wireguardd.Conf.Clean.{IsClean}
use wireguardd.Conf.Reading.{Stage, in_section, Holds, Reads}
use wireguardd.Conf.Reading.Lines.{IsKey, marked, field-Reads}

pub take_iface_lem :
    (m : Map Bytes) (i : InterfaceSection) → take_iface m i ≡ apply_comment_meta_iface m i
unfolding take_iface apply_comment_meta_iface
take_iface_lem [] i = refl
take_iface_lem (e ∷ m) i = refl

-- A field sets the interface, its waiting comments applied.
field-Holds :
    (key v : Bytes) (b : Bool) (i i' : InterfaceSection)
    → apply_interface_key key v i ≡ some i'
    → (p : Parser) → Holds (Stage.interface b i) p
    → (n : ℕ)
    → (q : Parser) × Holds (Stage.interface true i') q × (section_field n key v p p.section ≡ inr q)
unfolding section_field Holds
field-Holds key v true i i' e p h n = (
  in_section i' [],
  refl,
  ap (λ p. section_field n key v p p.section) h
      ∙ ap (λ j. put_interface n v (in_section i []) (apply_interface_key key v j))
          (unfold take_iface in refl)
      ∙ ap (put_interface n v (in_section i [])) e,
)
field-Holds key v false i i' e p (j, m, h, k) n = (
  in_section i' [],
  refl,
  ap (λ p. section_field n key v p p.section) h
      ∙ ap (λ i. put_interface n v (in_section j m) (apply_interface_key key v i))
          (take_iface_lem m j ∙ k)
      ∙ ap (put_interface n v (in_section j m)) e,
)

settled-Holds :
    (b : Bool) (i : InterfaceSection) (p : Parser)
    → Holds (Stage.interface true i) p
    → Holds (Stage.interface b i) p
unfolding Holds
settled-Holds true i p h = h
settled-Holds false i p h = (i, [], h, unfold apply_comment_meta_iface in refl)

waiting-Holds :
    (i : InterfaceSection) (p : Parser)
    → Holds (Stage.interface true i) p
    → Holds (Stage.waiting i [] blank_peer) p
unfolding Holds apply_comment_meta_peer peer_meta
waiting-Holds i p h = (
  ap (λ p. p.interface) h,
  ap (λ p. push_open p.peer p.peers) h,
  ap (λ p. apply_comment_meta_peer p.pending blank_peer) h,
)

-- A stage that asks more reaches where one that asks less does.
pub Reads-settled :
    {s : Bytes} {a : Stage} {b : Bool} {i : InterfaceSection}
    → Reads s a (Stage.interface true i)
    → Reads s a (Stage.interface b i)
Reads-settled {b = b} {i} x = record {
  reads = λ p h n rest f.
      let (m, q, k, g, e) = x.reads p h n rest f in (m, q, settled-Holds b i q k, g, e);
}

-- After the interface, a peer may follow.
pub Reads-waiting :
    {s : Bytes} {a : Stage} {i : InterfaceSection}
    → Reads s a (Stage.interface true i)
    → Reads s a (Stage.waiting i [] blank_peer)
Reads-waiting {i = i} x = record {
  reads = λ p h n rest f.
      let (m, q, k, g, e) = x.reads p h n rest f in (m, q, waiting-Holds i q k, g, e);
}

-- The tests of a key, as one.
unfoldable pub is_key : Bytes → Bool
unfolding trim_space has_byte is_edge
is_key key =
    starts_well key
    && not (has_byte b'=' key)
    && not (has_byte b'\n' key)
    && bytes_eq (trim_space (key ++ 32 ∷ [])) key

pub is_key-IsKey : (key : Bytes) → is_key key ≡ true → IsKey key
unfolding is_key
is_key-IsKey key h =
    let (a, b, c, d) = parts (starts_well key) (has_byte b'=' key) (has_byte b'\n' key) _ h in
    (a, b, c, bytes_eq→eq (trim_space (key ++ 32 ∷ [])) key d)
  where
    parts :
        (a b c d : Bool)
        → (a && not b && not c && d) ≡ true
        → (a ≡ true) × (b ≡ false) × (c ≡ false) × (d ≡ true)
    parts true false false d e = (refl, refl, refl, e)
    parts true true c d e = absurd (false≢true e)
    parts true false true d e = absurd (false≢true e)
    parts false b c d e = absurd (false≢true e)

unfoldable pub is_field_key : Bytes → Bool
unfolding is_key
is_field_key key = is_key key && not (marked key)

pub field-IsKey : (key : Bytes) → is_field_key key ≡ true → IsKey key × (marked key ≡ false)
unfolding is_field_key
field-IsKey key h = let (a, b) = parts (is_key key) (marked key) h in (is_key-IsKey key a, b)
  where
    parts : (a b : Bool) → (a && not b) ≡ true → (a ≡ true) × (b ≡ false)
    parts true false e = (refl, refl)
    parts true true e = absurd (false≢true e)
    parts false b e = absurd (false≢true e)

pub set-Reads :
    (key v : Bytes) {b : Bool} {i : InterfaceSection} (i' : InterfaceSection)
    → is_field_key key ≡ true
    → IsClean v
    → apply_interface_key key v i ≡ some i'
    → Reads (line key v) (Stage.interface b i) (Stage.interface true i')
set-Reads key v {b} {i} i' k c e =
    let (l, m) = field-IsKey key k in
    field-Reads key v (Stage.interface b i) (Stage.interface true i') l m c
      (field-Holds key v b i i' e)

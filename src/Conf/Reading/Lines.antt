-- ===== src/Conf/Reading/Lines.antt =====
-- The lines of a field and of a comment.
use wireguardd.Base.{
  trim_space-space, is_edge, starts_well, trim_space_none, ◌==◌, text, is_space, trim_space,
  has_byte, to_lower, insert, reverse, Bytes, bytes_eq, ℕ, ◌≡◌, refl, sym, ap, ◌∙◌, inr, Bool, true,
  false, ◌||◌, false≢true, some, [], ◌∷◌, ◌++◌, append_assoc, arith,
}
use wireguardd.Conf.{line}
use wireguardd.Conf.Parse.{Parser, cut}
use wireguardd.Conf.Parse.Loop.{note, comment, section_field, field, parse_line}
use wireguardd.Conf.Clean.{
  IsClean, starts_well-append, starts_well-reverse_append, cut-append, has_byte-append,
}
use wireguardd.Conf.Reading.{Stage, Holds, Reads, Reads-line}

abbrev is_mark : ℕ → Bool
is_mark c = (c == b'#') || ((c == b';') || (c == b'['))

abbrev pub marked : Bytes → Bool
marked [] = true
marked (c ∷ cs) = is_mark c

-- A key: what `Cut` and `TrimSpace` find before the `=` of its line.
abbrev pub IsKey : Bytes → Type 0
IsKey key =
    (starts_well key ≡ true)
    × (has_byte b'=' key ≡ false)
    × (has_byte b'\n' key ≡ false)
    × (trim_space (key ++ 32 ∷ []) ≡ key)

abbrev content : Bytes → Bytes → Bytes
content key v = (key ++ text " = ") ++ v

cut-content :
    (key v : Bytes)
    → has_byte b'=' key ≡ false
    → cut b'=' (content key v) ≡ some (key ++ 32 ∷ [], 32 ∷ v)
unfolding has_byte
cut-content key v h =
    ap (cut b'=')
      (append_assoc key (text " = ") v ∙ sym (append_assoc key (32 ∷ []) (b'=' ∷ 32 ∷ v)))
    ∙ cut-append b'=' (key ++ 32 ∷ []) (32 ∷ v) (has_byte-append b'=' key (32 ∷ []) h refl)

trim_space-edges :
    (v : Bytes) → starts_well v ≡ true → starts_well (reverse v) ≡ true → trim_space (32 ∷ v) ≡ v
trim_space-edges v h k = trim_space-space v ∙ trim_space_none v h k

content-newline :
    (key v : Bytes)
    → has_byte b'\n' key ≡ false
    → IsClean v
    → has_byte b'\n' (content key v) ≡ false
unfolding has_byte
content-newline key v h (_, _, l) =
    has_byte-append b'\n' (key ++ text " = ") v (has_byte-append b'\n' key (text " = ") h refl) l

content-starts : (key v : Bytes) → starts_well key ≡ true → starts_well (content key v) ≡ true
content-starts key v h =
    starts_well-append (key ++ text " = ") v (starts_well-append key (text " = ") h)

field-cut :
    (n : ℕ) (key v : Bytes) (p : Parser)
    → IsKey key
    → IsClean v
    → field n (cut b'=' (content key v)) p ≡ section_field n key v p p.section
unfolding field
field-cut n key v p (_, h, _, k) c =
    let (s, r, _) = c in
    ap (λ r. field n r p) (cut-content key v h)
    ∙ ap (λ t. section_field n t (trim_space (32 ∷ v)) p p.section) k
    ∙ ap (λ t. section_field n key t p p.section) (trim_space-edges v s r)

not_header :
    (c h : ℕ) (cs hs : Bytes)
    → is_mark c ≡ false
    → h ≡ b'['
    → bytes_eq (to_lower (c ∷ cs)) (h ∷ hs) ≡ false
unfolding to_lower
not_header c h cs hs k e = ground arith

parse_line-unmarked :
    (n : ℕ) (l : Bytes) (p : Parser) → marked l ≡ false → parse_line n l p ≡ field n (cut b'=' l) p
unfolding parse_line
parse_line-unmarked n [] p h = absurd (false≢true (sym h))
parse_line-unmarked n (c ∷ cs) p h =
    rw
      (
        not_header c b'[' cs (text "interface]") h refl,
        not_header c b'[' cs (text "peer]") h refl,
        not_comment,
      )
      refl
  where
    not_comment : ((c == b'#') || (c == b';')) ≡ false
    not_comment = ground arith

marked-append : (xs ys : Bytes) → marked xs ≡ false → marked (xs ++ ys) ≡ false
marked-append [] ys h = absurd (false≢true (sym h))
marked-append (x ∷ xs) ys h = h

-- A field's line does what its key does in the section.
pub field-Reads :
    (key v : Bytes) (a b : Stage)
    → IsKey key
    → marked key ≡ false
    → IsClean v
    → ((p : Parser)
        → Holds a p
        → (n : ℕ) → (q : Parser) × Holds b q × (section_field n key v p p.section ≡ inr q))
    → Reads (line key v) a b
unfolding line
field-Reads key v a b k hm c step =
    let (h, h', l, t) = k in
    let (s, r, m) = c in
    Reads-line (content key v) a b (content-starts key v h)
      (starts_well-reverse_append (key ++ text " = ") v r) (content-newline key v l c)
      (λ p hp n.
        let (q, hq, e) = step p hp n in
        (
          q,
          hq,
          parse_line-unmarked n (content key v) p
                (marked-append (key ++ text " = ") v (marked-append key (text " = ") hm))
              ∙ field-cut n key v p k c
              ∙ e,
        ))

comment-content :
    (key v : Bytes) (p : Parser)
    → IsKey key
    → IsClean v
    → comment (b'#' ∷ 32 ∷ content key v) p
      ≡ record p { pending = insert (to_lower key) v p.pending }
unfolding comment note
comment-content key v p (hs, h, _, k) c =
    let (s, r, _) = c in
    ap (λ u. note (cut b'=' u) p)
      (trim_space-edges (content key v) (content-starts key v hs)
        (starts_well-reverse_append (key ++ text " = ") v r))
    ∙ ap (λ u. note u p) (cut-content key v h)
    ∙ ap (λ t. record p { pending = insert (to_lower t) (trim_space (32 ∷ v)) p.pending }) k
    ∙ ap (λ t. record p { pending = insert (to_lower key) t p.pending }) (trim_space-edges v s r)

-- A comment's line adds its key and value to the comments that wait.
pub comment-Reads :
    (key v : Bytes) (a b : Stage)
    → IsKey key
    → IsClean v
    → ((p : Parser)
        → Holds a p
        → Holds b (record p { pending = insert (to_lower key) v p.pending }))
    → Reads (line (b'#' ∷ 32 ∷ key) v) a b
unfolding line
comment-Reads key v a b k c step =
    let (h, h', l, t) = k in
    let (s, r, m) = c in
    Reads-line (content (b'#' ∷ 32 ∷ key) v) a b (unfold is_edge is_space in refl)
      (starts_well-reverse_append (b'#' ∷ 32 ∷ key ++ text " = ") v r)
      (content-newline (b'#' ∷ 32 ∷ key) v (unfold has_byte in l) c)
      (λ p hp n. (_, step p hp, unfold parse_line in ap inr (comment-content key v p k c)))

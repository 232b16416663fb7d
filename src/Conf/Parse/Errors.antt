-- ===== src/Conf/Parse/Errors.antt =====
-- The errors of `Parse` and the lines they name.
use mathlib.Core.Path.{subst}
use mathlib.Core.Sum.{inl-injective, inl-ne-inr}
use wireguardd.Base.{
  ◌==◌, if◌then◌else◌, Bool-cases, length, text, trim_space, to_lower, Bytes, bytes_eq, ℕ, suc, ◌+◌,
  ◌≤◌, ◌<◌, ◌≡◌, refl, sym, ◌⊎◌, inl, inr, Bool, true, false, ◌||◌, Option, none, some, List, [],
  ◌∷◌, arith,
}
use wireguardd.Conf.{InterfaceSection, PeerSection}
use wireguardd.Conf.Parse.{ParseError, Section, Parser, cut, apply_interface_key, apply_peer_key}
use wireguardd.Conf.Parse.Loop.{
  put_interface, put_peer, peer_field, take_iface, take_peer, section_field, field, parse_line,
  scan_lines, drop_cr, too_long, parse_lines, finished, parse, start, comment, open_interface,
  open_peer,
}

-- The line that an error names.
abbrev pub line_of_error : ParseError → Option ℕ
line_of_error (ParseError.expected_key_value n) = some n
line_of_error (ParseError.peer_field_outside n) = some n
line_of_error (ParseError.key_outside_section n) = some n
line_of_error (ParseError.invalid_integer n v) = some n
line_of_error ParseError.token_too_long = none

-- A result that is no error, or one of line n.
abbrev Names : ℕ → ParseError ⊎ Parser → Type 0
Names n (inl e) = line_of_error e ≡ some n
Names n (inr p) = Unit {0}

put_interface-Names :
    (n : ℕ) (v : Bytes) (p : Parser) (o : Option InterfaceSection) → Names n (put_interface n v p o)
put_interface-Names n v p none = refl
put_interface-Names n v p (some i) = tt

put_peer-Names :
    (n : ℕ) (v : Bytes) (p : Parser) (o : Option PeerSection) → Names n (put_peer n v p o)
put_peer-Names n v p none = refl
put_peer-Names n v p (some q) = tt

peer_field-Names :
    (n : ℕ) (key v : Bytes) (p : Parser) (o : Option PeerSection) → Names n (peer_field n key v p o)
unfolding peer_field
peer_field-Names n key v p none = refl
peer_field-Names n key v p (some q) =
    put_peer-Names n v p (apply_peer_key key v (take_peer p.pending q))

section_field-Names :
    (n : ℕ) (key v : Bytes) (p : Parser) (s : Section) → Names n (section_field n key v p s)
unfolding section_field
section_field-Names n key v p Section.no_section = refl
section_field-Names n key v p Section.in_interface =
    put_interface-Names n v p (apply_interface_key key v (take_iface p.pending p.interface))
section_field-Names n key v p Section.in_peer = peer_field-Names n key v p p.peer

field-Names : (n : ℕ) (o : Option (Bytes × Bytes)) (p : Parser) → Names n (field n o p)
unfolding field
field-Names n none p = refl
field-Names n (some (key, v)) p = section_field-Names n (trim_space key) (trim_space v) p p.section

parse_line-Names : (n : ℕ) (l : Bytes) (p : Parser) → Names n (parse_line n l p)
unfolding parse_line
parse_line-Names n [] p = tt
parse_line-Names n (c ∷ cs) p =
    let content = field n (cut b'=' (c ∷ cs)) p in
    let at_peer =
      if bytes_eq (to_lower (c ∷ cs)) (text "[peer]") then inr (open_peer p) else content in
    let at_interface =
      if bytes_eq (to_lower (c ∷ cs)) (text "[interface]")
      then inr (open_interface p)
      else at_peer in
    either n ((c == b'#') || (c == b';')) (inr (comment (c ∷ cs) p)) at_interface tt (
      either n (bytes_eq (to_lower (c ∷ cs)) (text "[interface]")) (inr (open_interface p)) at_peer
        tt
        (either n (bytes_eq (to_lower (c ∷ cs)) (text "[peer]")) (inr (open_peer p)) content tt
          (field-Names n (cut b'=' (c ∷ cs)) p)))
  where
    either :
        (n : ℕ) (b : Bool) (x y : ParseError ⊎ Parser)
        → Names n x
        → Names n y
        → Names n (if b then x else y)
    either n true x y h k = h
    either n false x y h k = k

abbrev pub has_long : List Bytes → Bool
has_long [] = false
has_long (l ∷ ls) = too_long l || has_long ls

-- An error that names one of the lines from n + 1, or that of a line too long for the scanner.
abbrev pub Reports : ℕ → List Bytes → ParseError → Type 0
Reports n ls e =
    ((m : ℕ) × (line_of_error e ≡ some m) × (n < m) × (m ≤ n + length ls))
    ⊎ ((e ≡ ParseError.token_too_long) × (has_long ls ≡ true))

abbrev Reported : ℕ → List Bytes → ParseError ⊎ Parser → Type 0
Reported n ls (inl e) = Reports n ls e
Reported n ls (inr p) = Unit {0}

abbrev continued : ℕ → List Bytes → ParseError ⊎ Parser → ParseError ⊎ Parser
continued n ls (inl e) = inl e
continued n ls (inr q) = parse_lines n ls q

parse_lines-cons :
    (n : ℕ) (l : Bytes) (ls : List Bytes) (p : Parser)
    → too_long l ≡ false
    → parse_lines n (l ∷ ls) p
      ≡ continued (suc n) ls (parse_line (suc n) (trim_space (drop_cr l)) p)
unfolding parse_lines parse_line
parse_lines-cons n l ls p h =
    rw (parse_lines, h) (of_result (parse_line (suc n) (trim_space (drop_cr l)) p))
  where
    of_result :
        (r : ParseError ⊎ Parser)
        → (elim r [ inl e ↦ inl e | inr q ↦ parse_lines (suc n) ls q ]) ≡ continued (suc n) ls r
    of_result (inl e) = refl
    of_result (inr q) = refl

parse_lines-long :
    (n : ℕ) (l : Bytes) (ls : List Bytes) (p : Parser)
    → too_long l ≡ true
    → parse_lines n (l ∷ ls) p ≡ inl ParseError.token_too_long
unfolding parse_lines
parse_lines-long n l ls p h = rw (parse_lines, h) refl

later :
    (n : ℕ) (l : Bytes) (ls : List Bytes) (r : ParseError ⊎ Parser)
    → Reported (suc n) ls r
    → Reported n (l ∷ ls) r
later n l ls (inl e) (inl (m, k, a, b)) = inl (m, k, omega arith, omega arith)
later n l ls (inl e) (inr (k, a)) = inr (k, ground arith)
later n l ls (inr p) h = tt

parse_lines-Reported : (n : ℕ) (ls : List Bytes) (p : Parser) → Reported n ls (parse_lines n ls p)
parse_lines-Reported n [] p = unfold parse_lines in tt
parse_lines-Reported n (l ∷ ls) p = elim (Bool-cases (too_long l)) [
  | inl h ↦
      subst (Reported n (l ∷ ls)) (sym (parse_lines-long n l ls p h)) (inr (refl, ground arith))
  | inr h ↦ subst (Reported n (l ∷ ls)) (sym (parse_lines-cons n l ls p h)) (
      of_line (parse_line (suc n) (trim_space (drop_cr l)) p)
        (parse_line-Names (suc n) (trim_space (drop_cr l)) p)
        (λ q. parse_lines-Reported (suc n) ls q))
]
  where
    of_line :
        (r : ParseError ⊎ Parser)
        → Names (suc n) r
        → ((q : Parser) → Reported (suc n) ls (parse_lines (suc n) ls q))
        → Reported n (l ∷ ls) (continued (suc n) ls r)
    of_line (inl e) h k = inl (suc n, h, omega arith, omega arith)
    of_line (inr q) h k = later n l ls (parse_lines (suc n) ls q) (k q)

-- An error of `Parse` names a line of the text, or the text has a line that is too long for the
-- scanner.
pub parse-Reports : (s : Bytes) (e : ParseError) → parse s ≡ inl e → Reports 0 (scan_lines s) e
unfolding parse
parse-Reports s e h =
    of_finished (parse_lines 0 (scan_lines s) start) (parse_lines-Reported 0 (scan_lines s) start) h
  where
    of_finished :
        (r : ParseError ⊎ Parser)
        → Reported 0 (scan_lines s) r
        → finished r ≡ inl e
        → Reports 0 (scan_lines s) e
    of_finished (inl d) k h = subst (Reports 0 (scan_lines s)) (inl-injective d e h) k
    of_finished (inr p) k h = absurd (inl-ne-inr (sym h))

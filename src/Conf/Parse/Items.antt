-- ===== src/Conf/Parse/Items.antt =====
-- Lists in one line, and hooks over several lines: what is printed is read back.
use wireguardd.Base.{
  space_size, is_space, trim_front, trim_left_back, trim_space_none, push_byte, ◌==◌, if-cases,
  length, All, text, is_space, trim_left, trim_space, join, split_at, has_byte, Bytes, ℕ, ◌≤◌, ◌≡◌,
  refl, sym, ap, ◌∙◌, ◌⊎◌, false, false≢true, List, [], ◌∷◌, ◌++◌, append_assoc, append-nil, arith,
}
use wireguardd.Conf.Parse.{split_csv, keep_items, join_hook}
use wireguardd.Conf.Clean.{IsClean, starts_well-append, starts_well-reverse_append, has_byte-append}

-- An element of a list: a clean text with no comma.
abbrev pub IsItem : Bytes → Type 0
IsItem v = IsClean v × (has_byte b',' v ≡ false)

split_at-none : (sep : ℕ) (l : Bytes) → has_byte sep l ≡ false → split_at sep l ≡ l ∷ []
unfolding split_at has_byte
split_at-none sep [] h = refl
split_at-none sep (c ∷ cs) h = ground (arith, split_at-none sep cs)

split_at-append :
    (sep : ℕ) (l rest : Bytes)
    → has_byte sep l ≡ false
    → split_at sep (l ++ sep ∷ rest) ≡ l ∷ split_at sep rest
unfolding split_at has_byte
split_at-append sep [] rest h = ground arith
split_at-append sep (c ∷ cs) rest h = ground (arith, split_at-append sep cs rest)

keep_items-cons :
    (v : Bytes) (ps : List Bytes) → IsClean v → keep_items (v ∷ ps) ≡ v ∷ keep_items ps
unfolding keep_items
keep_items-cons [] ps (h, k, l) = absurd (false≢true h)
keep_items-cons (c ∷ cs) ps (h, k, l) = rw (trim_space_none (c ∷ cs) h k) refl

keep_items-space : (ps : List Bytes) → keep_items (push_byte 32 ps) ≡ keep_items ps
unfolding keep_items trim_space trim_left trim_left_back trim_front space_size is_space
keep_items-space [] = refl
keep_items-space (p ∷ ps) = refl

split_csv-space : (s : Bytes) → split_csv (32 ∷ s) ≡ split_csv s
unfolding split_csv split_at
split_csv-space s = keep_items-space (split_at b',' s)

split_csv-cons : (v rest : Bytes) → IsItem v → split_csv (v ++ b',' ∷ rest) ≡ v ∷ split_csv rest
unfolding split_csv
split_csv-cons v rest (h, k) =
    ap keep_items (split_at-append b',' v rest k) ∙ keep_items-cons v (split_at b',' rest) h

pub split_csv-item : (v : Bytes) → IsItem v → split_csv v ≡ v ∷ []
unfolding split_csv
split_csv-item v (h, k) =
    ap keep_items (split_at-none b',' v k) ∙ keep_items-cons v [] h ∙ unfold keep_items in refl

join-cons :
    (v w : Bytes) (ws : List Bytes)
    → join (text ", ") (v ∷ w ∷ ws) ≡ v ++ b',' ∷ 32 ∷ join (text ", ") (w ∷ ws)
unfolding join
join-cons v w ws = append_assoc v (text ", ") (join (text ", ") (w ∷ ws))

pub split_csv-join : (vs : List Bytes) → All IsItem vs → split_csv (join (text ", ") vs) ≡ vs
split_csv-join [] h =
    unfold split_csv join split_at keep_items trim_space trim_left trim_left_back trim_front in refl
split_csv-join (v ∷ []) (h, hs) = unfold join in split_csv-item v h
split_csv-join (v ∷ w ∷ ws) (h, hs) =
    ap split_csv (join-cons v w ws)
    ∙ split_csv-cons v (32 ∷ join (text ", ") (w ∷ ws)) h
    ∙ ap (λ zs. v ∷ zs) (split_csv-space (join (text ", ") (w ∷ ws)) ∙ split_csv-join (w ∷ ws) hs)

pub join-IsClean :
    (v : Bytes) (vs : List Bytes) → All IsItem (v ∷ vs) → IsClean (join (text ", ") (v ∷ vs))
join-IsClean v [] ((h, _), _) = unfold join in h
join-IsClean v (w ∷ ws) (((h, k, l), _), hs) =
    let (h', k', l') = join-IsClean w ws hs in
    rw (join-cons v w ws) (
      starts_well-append v (b',' ∷ 32 ∷ join (text ", ") (w ∷ ws)) h,
      starts_well-reverse_append v (b',' ∷ 32 ∷ join (text ", ") (w ∷ ws))
          (starts_well-reverse_append (text ", ") (join (text ", ") (w ∷ ws)) k'),
      has_byte-append b'\n' v (b',' ∷ 32 ∷ join (text ", ") (w ∷ ws)) l (
          has_byte-append b'\n' (text ", ") (join (text ", ") (w ∷ ws)) (unfold has_byte in refl)
            l'),
    )

-- Hooks: what `joinHook` makes of the lines in turn.
abbrev pub join_hooks : Bytes → List Bytes → Bytes
join_hooks prev [] = prev
join_hooks prev (l ∷ ls) = join_hooks (join_hook prev l) ls

-- A hook that is left out, or whose lines are clean.
abbrev pub IsHook : Bytes → Type 0
IsHook v = (v ≡ []) ⊎ All IsClean (split_at b'\n' v)

abbrev tails : List Bytes → Bytes
tails [] = []
tails (l ∷ ls) = b'\n' ∷ (l ++ tails ls)

abbrev unsplit : List Bytes → Bytes
unsplit [] = []
unsplit (l ∷ ls) = l ++ tails ls

unsplit-split_at : (v : Bytes) → unsplit (split_at b'\n' v) ≡ v
unfolding split_at
unsplit-split_at [] = refl
unsplit-split_at (c ∷ cs) =
    if-cases (λ ls. unsplit ls ≡ c ∷ cs) (c == b'\n') _ _
      (λ e.
        of_tails (split_at b'\n' cs) (split_at_pos cs)
        ∙ ap (λ zs. b'\n' ∷ zs) (unsplit-split_at cs)
        ∙ ground arith)
      (λ e. of_push (split_at b'\n' cs) ∙ ap (λ zs. c ∷ zs) (unsplit-split_at cs))
  where
    split_at_pos : (s : Bytes) → 1 ≤ length (split_at b'\n' s)
    split_at_pos [] = omega arith
    split_at_pos (d ∷ ds) = ground (arith, split_at_pos ds)

    of_tails : (ls : List Bytes) → 1 ≤ length ls → unsplit ([] ∷ ls) ≡ b'\n' ∷ unsplit ls
    of_tails [] h = absurd (omega arith)
    of_tails (l ∷ ls) h = refl

    of_push : (ls : List Bytes) → unsplit (push_byte c ls) ≡ c ∷ unsplit ls
    of_push [] = refl
    of_push (l ∷ ls) = refl

join_hooks-tails :
    (c : ℕ) (cs : Bytes) (ls : List Bytes) → join_hooks (c ∷ cs) ls ≡ c ∷ (cs ++ tails ls)
join_hooks-tails c cs [] = ap (λ zs. c ∷ zs) (sym (append-nil cs))
join_hooks-tails c cs (l ∷ ls) =
    join_hooks-tails c (cs ++ b'\n' ∷ l) ls
    ∙ ap (λ zs. c ∷ zs) (append_assoc cs (b'\n' ∷ l) (tails ls))

join_hooks-unsplit : (ls : List Bytes) → All IsClean ls → join_hooks [] ls ≡ unsplit ls
join_hooks-unsplit [] h = refl
join_hooks-unsplit ([] ∷ ls) ((h, _, _), _) = absurd (false≢true h)
join_hooks-unsplit ((c ∷ cs) ∷ ls) h = join_hooks-tails c cs ls

pub join_hooks-split_at :
    (v : Bytes) → All IsClean (split_at b'\n' v) → join_hooks [] (split_at b'\n' v) ≡ v
join_hooks-split_at v h = join_hooks-unsplit (split_at b'\n' v) h ∙ unsplit-split_at v

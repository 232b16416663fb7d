-- ===== src/Conf/Reading/Kinds.antt =====
-- Each kind of field of an interface: a text, a number, a list, a hook.
use mathlib.Core.Path.{subst}
use wireguardd.Base.{
  trim_space_none, ◌==◌, if◌then◌else◌, if-cases, ==→eq, length, All, text, format_int, join,
  split_at, is_blank, IsCount, is_positive, Bytes, ℕ, ◌^◌, ◌≤◌, ◌<◌, ◌≡◌, refl, sym, ap, ◌∙◌, inl,
  inr, Bool, true, false, false≢true, some, List, [], ◌∷◌, ◌++◌, append_assoc, append-nil, arith,
}
use wireguardd.Conf.{
  line, line_of, line_of_int, line_of_list, write_amnezia_int, write_hooks, address_lines,
  hook_lines, InterfaceSection,
}
use wireguardd.Conf.Parse.{parse_int, apply_interface_key, split_csv, join_hook}
use wireguardd.Conf.Parse.Items.{
  IsItem, IsHook, join_hooks, join_hooks-split_at, split_csv-item, split_csv-join, join-IsClean,
}
use wireguardd.Conf.Parse.Numbers.{format_int-IsClean, parse_int-format_int}
use wireguardd.Conf.Clean.{IsClean, IsText}
use wireguardd.Conf.Reading.{Stage, Reads, Reads-none, ◌then◌}
use wireguardd.Conf.Reading.Fields.{is_field_key, set-Reads, Reads-settled}

abbrev Sets : Type 0 → Type 0
Sets A = A → InterfaceSection → InterfaceSection

-- A field that is left out keeps the stage.
pub stays :
    {b : Bool} {i j : InterfaceSection}
    → j ≡ i
    → Reads [] (Stage.interface b i) (Stage.interface b j)
stays {b} {i} e =
    subst (λ j. Reads [] (Stage.interface b i) (Stage.interface b j)) (sym e) Reads-none

pub line_of-clean : (key v : Bytes) → IsClean v → line_of key v ≡ line key v
unfolding line_of
line_of-clean key [] (h, k, l) = absurd (false≢true h)
line_of-clean key (c ∷ cs) h = refl

pub text-Reads :
    (set : Sets Bytes) (key v : Bytes) {b : Bool} {i : InterfaceSection}
    → set [] i ≡ i
    → is_field_key key ≡ true
    → ((w : Bytes) → apply_interface_key key w i ≡ some (set w i))
    → IsText v
    → Reads (line_of key v) (Stage.interface b i) (Stage.interface b (set v i))
text-Reads set key v {b} {i} z k e (inl h) =
    subst (λ w. Reads (line_of key w) (Stage.interface b i) (Stage.interface b (set w i))) (sym h)
      (unfold line_of in stays z)
text-Reads set key v {b} {i} z k e (inr c) =
    subst (λ t. Reads t (Stage.interface b i) (Stage.interface b (set v i)))
      (sym (line_of-clean key v c)) (Reads-settled (set-Reads key v (set v i) k c (e v)))

pub count_zero : (n : ℕ) → IsCount n → is_positive n ≡ false → 0 ≡ n
count_zero n h e = ground arith

pub int-Reads :
    (set : Sets ℕ) (key : Bytes) (n : ℕ) {b : Bool} {i : InterfaceSection}
    → set 0 i ≡ i
    → is_field_key key ≡ true
    → ((v : Bytes) (m : ℕ) → parse_int v ≡ some m → apply_interface_key key v i ≡ some (set m i))
    → IsCount n
    → Reads (line_of_int key n) (Stage.interface b i) (Stage.interface b (set n i))
unfolding line_of_int
int-Reads set key n {b} {i} z k e c =
    if-cases (λ t. Reads t (Stage.interface b i) (Stage.interface b (set n i))) (is_positive n) _ _
      (λ h. Reads-settled (
        set-Reads key (format_int n) (set n i) k (format_int-IsClean n)
          (e (format_int n) n (parse_int-format_int n (omega arith)))))
      (λ h. stays (ap (λ m. set m i) (sym (count_zero n c h)) ∙ z))

pub amnezia_int-Reads :
    (set : Sets ℕ) (key : Bytes) (n : ℕ) {b : Bool} {i : InterfaceSection}
    → set 0 i ≡ i
    → is_field_key key ≡ true
    → ((v : Bytes) (m : ℕ) → parse_int v ≡ some m → apply_interface_key key v i ≡ some (set m i))
    → n < 2 ^ 64
    → Reads (write_amnezia_int key n) (Stage.interface b i) (Stage.interface b (set n i))
unfolding write_amnezia_int
amnezia_int-Reads set key n {b} {i} z k e c =
    if-cases (λ t. Reads t (Stage.interface b i) (Stage.interface b (set n i))) (n == 0) _ _
      (λ h. stays (ap (λ m. set m i) (==→eq n 0 h) ∙ z))
      (λ h. Reads-settled (
        set-Reads key (format_int n) (set n i) k (format_int-IsClean n)
          (e (format_int n) n (parse_int-format_int n c))))

-- Every address has a line of its own.
address-line :
    (a : Bytes) (xs : List Bytes) {b : Bool} (i : InterfaceSection)
    → IsItem a
    → Reads
        (line (text "Address") a)
        (Stage.interface b (record i { address = xs }))
        (Stage.interface true (record i { address = xs ++ a ∷ [] }))
address-line a xs {b} i h =
    set-Reads (text "Address") a (record i { address = xs ++ a ∷ [] }) (unfold is_field_key in refl)
      h.0
      (unfold apply_interface_key in
        ap (λ as'. some (record i { address = xs ++ as' })) (split_csv-item a h))

more_addresses :
    (as' xs : List Bytes) (i : InterfaceSection)
    → All IsItem as'
    → Reads
        (address_lines as')
        (Stage.interface true (record i { address = xs }))
        (Stage.interface true (record i { address = xs ++ as' }))
unfolding address_lines
more_addresses [] xs i h = stays (ap (λ ys. record i { address = ys }) (append-nil xs))
more_addresses (a ∷ as') xs i (h, hs) =
    subst
      (λ ys.
        Reads (line (text "Address") a ++ address_lines as')
          (Stage.interface true (record i { address = xs }))
          (Stage.interface true (record i { address = ys })))
      (append_assoc xs (a ∷ []) as')
      (address-line a xs i h then more_addresses as' (xs ++ a ∷ []) i hs)

-- An interface with an address has no comment waiting after its addresses.
pub addresses-Reads :
    (as' : List Bytes) {b : Bool} {i : InterfaceSection}
    → i.address ≡ []
    → (b ≡ true → 1 ≤ length as')
    → All IsItem as'
    → Reads
        (address_lines as')
        (Stage.interface false i)
        (Stage.interface b (record i { address = as' }))
unfolding address_lines
addresses-Reads [] {b} {i} z h k = no_address b h
  where
    no_address :
        (b : Bool)
        → (b ≡ true → 1 ≤ length {A = Bytes} [])
        → Reads [] (Stage.interface false i) (Stage.interface b (record i { address = [] }))
    no_address true h = absurd (omega (arith, h refl))
    no_address false h = stays (ap (λ xs. record i { address = xs }) (sym z))
addresses-Reads (a ∷ as') {b} {i} z h (k, ks) =
    subst
      (λ xs.
        Reads (line (text "Address") a ++ address_lines as')
          (Stage.interface false (record i { address = xs }))
          (Stage.interface b (record i { address = a ∷ as' })))
      (sym z) (address-line a [] i k then Reads-settled (more_addresses as' (a ∷ []) i ks))

pub dns-Reads :
    (vs : List Bytes) {b : Bool} {i : InterfaceSection}
    → i.dns ≡ []
    → All IsItem vs
    → Reads
        (line_of_list (text "DNS") vs)
        (Stage.interface b i)
        (Stage.interface b (record i { dns = vs }))
unfolding line_of_list
dns-Reads [] {b} {i} z h = stays (ap (λ xs. record i { dns = xs }) (sym z))
dns-Reads (v ∷ vs) {b} {i} z h = Reads-settled (
    set-Reads (text "DNS") (join (text ", ") (v ∷ vs)) (record i { dns = v ∷ vs })
      (unfold is_field_key in refl) (join-IsClean v vs h)
      (unfold apply_interface_key in
        ap (λ as'. some (record i { dns = as' }))
          (ap (λ xs. xs ++ split_csv (join (text ", ") (v ∷ vs))) z ∙ split_csv-join (v ∷ vs) h)))

hooks-Reads :
    (set : Sets Bytes) (key prev : Bytes) (ls : List Bytes) {b : Bool} {i : InterfaceSection}
    → is_field_key key ≡ true
    → ((u w : Bytes) → apply_interface_key key w (set u i) ≡ some (set (join_hook u w) i))
    → All IsClean ls
    → Reads
        (hook_lines key ls)
        (Stage.interface b (set prev i))
        (Stage.interface b (set (join_hooks prev ls) i))
unfolding hook_lines
hooks-Reads set key prev [] k e h = Reads-none
hooks-Reads set key prev (l ∷ ls) {b} {i} k e ((c, d, n), hs) =
    subst
      (λ t.
        Reads (t ++ hook_lines key ls) (Stage.interface b (set prev i))
          (Stage.interface b (set (join_hooks (join_hook prev l) ls) i)))
      (sym (ap (line_of key) (trim_space_none l c d) ∙ line_of-clean key l (c, d, n)))
      (Reads-settled (set-Reads key l (set (join_hook prev l) i) k (c, d, n) (e prev l))
        then hooks-Reads set key (join_hook prev l) ls k e hs)

pub hook-Reads :
    (set : Sets Bytes) (key v : Bytes) {b : Bool} {i : InterfaceSection}
    → set [] i ≡ i
    → is_field_key key ≡ true
    → ((u w : Bytes) → apply_interface_key key w (set u i) ≡ some (set (join_hook u w) i))
    → IsHook v
    → Reads (write_hooks key v) (Stage.interface b i) (Stage.interface b (set v i))
unfolding write_hooks
hook-Reads set key v {b} {i} z k e (inl h) =
    subst (λ w. Reads (write_hooks key w) (Stage.interface b i) (Stage.interface b (set w i)))
      (sym h) (stays z)
hook-Reads set key v {b} {i} z k e (inr c) =
    if-cases (λ t. Reads t (Stage.interface b i) (Stage.interface b (set v i))) (is_blank v) _ _
      (λ h. stays (ap (λ w. set w i) (blank v h) ∙ z))
      (λ h.
        subst
          (λ j.
            Reads (hook_lines key (split_at b'\n' v)) (Stage.interface b j)
              (Stage.interface b (set v i)))
          z
          (subst
            (λ w.
              Reads (hook_lines key (split_at b'\n' v)) (Stage.interface b (set [] i))
                (Stage.interface b (set w i)))
            (join_hooks-split_at v c) (hooks-Reads set key [] (split_at b'\n' v) k e c)))
  where
    blank : (w : Bytes) → is_blank w ≡ true → w ≡ []
    blank [] h = refl
    blank (c ∷ cs) h = absurd (false≢true h)

-- ===== src/Base/Strings.antt =====
-- Go strings as their bytes: what the components use of package `strings`. White space is that of
-- Unicode, letter case that of ASCII.
use Prim.Native.Nat.{ℕ, zero, suc, ◌+◌, ◌-◌, ◌/◌, ◌%◌, ◌^◌}
use Prim.Native.Char.{code}
use Prim.Native.String.{String}
use mathlib.Core.Bool.{Bool, true, false, not, ◌&&◌, ◌||◌}
use mathlib.Core.List.{List, [], ◌∷◌, ◌++◌, map, reverse}
use wireguardd.Base.Tests.{leb, ltb, ◌==◌, if◌then◌else◌}
use wireguardd.Base.Octets.{Bytes}

-- The bytes of an ASCII literal.
abbrev pub text : String → Bytes
text String.[] = []
text (String.◌∷◌ c s) = code c ∷ text s

unfoldable pub is_space : ℕ → Bool
is_space c = (leb 9 c && leb c 13) || c == 32

-- A white space beyond ASCII in UTF-8: U+0085 and U+00A0 have two bytes; U+1680, U+2000 to U+200A,
-- U+2028, U+2029, U+202F, U+205F and U+3000 have three.
unfoldable pub is_wide2 : ℕ → ℕ → Bool
is_wide2 c d = (c == 0xc2) && ((d == 0x85) || (d == 0xa0))

unfoldable pub is_wide3 : ℕ → ℕ → ℕ → Bool
is_wide3 c d e =
    ((c == 0xe1) && ((d == 0x9a) && (e == 0x80)))
    || (((c == 0xe2)
          && (((d == 0x80)
                && ((leb 0x80 e && leb e 0x8a) || ((e == 0xa8) || ((e == 0xa9) || (e == 0xaf)))))
              || ((d == 0x81) && (e == 0x9f))))
        || ((c == 0xe3) && ((d == 0x80) && (e == 0x80))))

-- How many bytes the white space takes that a string begins with: 0 if it begins with none.
unfoldable pub wide_size : ℕ → Bytes → ℕ
unfolding is_wide2 is_wide3
wide_size c [] = 0
wide_size c (d ∷ []) = if is_wide2 c d then 2 else 0
wide_size c (d ∷ e ∷ rest) = if is_wide2 c d then 2 else if is_wide3 c d e then 3 else 0

unfoldable pub space_size : ℕ → Bytes → ℕ
unfolding is_space wide_size
space_size c cs = if is_space c then 1 else if ltb c 128 then 0 else wide_size c cs

-- The same of a reversed string, for what it ends with.
unfoldable pub wide_size_back : ℕ → Bytes → ℕ
unfolding is_wide2 is_wide3
wide_size_back c [] = 0
wide_size_back c (d ∷ []) = if is_wide2 d c then 2 else 0
wide_size_back c (d ∷ e ∷ rest) = if is_wide2 d c then 2 else if is_wide3 e d c then 3 else 0

unfoldable pub space_size_back : ℕ → Bytes → ℕ
unfolding is_space wide_size_back
space_size_back c cs = if is_space c then 1 else if ltb c 128 then 0 else wide_size_back c cs

-- A byte that no white space begins or ends with.
unfoldable pub is_edge : ℕ → Bool
unfolding is_space
is_edge c = not (
    is_space c
    || ((leb 0x80 c && leb c 0x8a)
        || ((c == 0x9f)
            || ((c == 0xa0)
                || ((c == 0xa8)
                    || ((c == 0xa9)
                        || ((c == 0xaf)
                            || ((c == 0xc2) || ((c == 0xe1) || ((c == 0xe2) || (c == 0xe3)))))))))))

-- Drops the white space at the front, as `size` has it, after a number of bytes to skip.
unfoldable pub trim_front : (ℕ → Bytes → ℕ) → ℕ → Bytes → Bytes
trim_front size n [] = []
trim_front size (suc n) (c ∷ cs) = trim_front size n cs
trim_front size zero (c ∷ cs) = elim (size c cs) [ zero ↦ c ∷ cs | suc n ↦ trim_front size n cs ]

unfoldable pub trim_left : Bytes → Bytes
unfolding trim_front space_size
trim_left s = trim_front space_size 0 s

unfoldable pub trim_left_back : Bytes → Bytes
unfolding trim_front space_size_back
trim_left_back s = trim_front space_size_back 0 s

-- `strings.TrimSpace`
unfoldable pub trim_space : Bytes → Bytes
unfolding trim_left trim_left_back
trim_space s = reverse (trim_left_back (reverse (trim_left s)))

-- `strings.HasPrefix(s, prefix)`
unfoldable pub starts_with : Bytes → Bytes → Bool
starts_with s [] = true
starts_with [] (p ∷ ps) = false
starts_with (c ∷ cs) (p ∷ ps) = (c == p) && starts_with cs ps

lower : ℕ → ℕ
lower c = if leb b'A' c && leb c b'Z' then c + 32 else c

-- `strings.ToLower`
unfoldable pub to_lower : Bytes → Bytes
unfolding lower
to_lower s = map lower s

abbrev pub is_blank : Bytes → Bool
is_blank [] = true
is_blank (c ∷ cs) = false

-- `strconv.FormatUint(n, 10)`; twenty digits hold a uint64.
unfoldable pub format_digits : ℕ → ℕ → Bytes
format_digits zero n = []
format_digits (suc fuel) n =
    let front = format_digits fuel (n / 10) in
    if ltb n 10 then (48 + n) ∷ [] else front ++ (48 + n % 10) ∷ []

unfoldable pub format_uint : ℕ → Bytes
unfolding format_digits
format_uint n = format_digits 20 n

-- `%d` of an `int` or an `int64`
unfoldable pub format_int : ℕ → Bytes
unfolding format_uint
format_int a = if leb (2 ^ 63) a then b'-' ∷ format_uint (2 ^ 64 - a) else format_uint a

-- `strings.Join(parts, sep)`
unfoldable pub join : Bytes → List Bytes → Bytes
join sep [] = []
join sep (p ∷ []) = p
join sep (p ∷ q ∷ ps) = p ++ sep ++ join sep (q ∷ ps)

abbrev pub push_byte : ℕ → List Bytes → List Bytes
push_byte c [] = (c ∷ []) ∷ []
push_byte c (p ∷ ps) = (c ∷ p) ∷ ps

-- `strings.Split(s, sep)` for a separator of one byte
unfoldable pub split_at : ℕ → Bytes → List Bytes
split_at sep [] = [] ∷ []
split_at sep (c ∷ cs) =
    let rest = split_at sep cs in if c == sep then [] ∷ rest else push_byte c rest

-- `strings.Contains(s, sep)` for a separator of one byte
unfoldable pub has_byte : ℕ → Bytes → Bool
has_byte sep [] = false
has_byte sep (c ∷ cs) = (c == sep) || has_byte sep cs

-- `strings.HasSuffix(s, suffix)`
unfoldable pub ends_with : Bytes → Bytes → Bool
unfolding starts_with
ends_with s suffix = starts_with (reverse s) (reverse suffix)

-- `strings.Contains(s, sub)`
unfoldable pub includes : Bytes → Bytes → Bool
unfolding starts_with
includes [] sub = starts_with [] sub
includes (c ∷ cs) sub = starts_with (c ∷ cs) sub || includes cs sub

abbrev keep_field : Bytes → List Bytes → List Bytes
keep_field f fs = if is_blank f then fs else f ∷ fs

-- Splits at every white space, after a number of bytes to skip.
unfoldable pub split_spaces : ℕ → Bytes → List Bytes
unfolding space_size
split_spaces n [] = [] ∷ []
split_spaces (suc n) (c ∷ cs) = split_spaces n cs
split_spaces zero (c ∷ cs) = elim (space_size c cs) [
  | zero ↦ push_byte c (split_spaces 0 cs)
  | suc n ↦ [] ∷ split_spaces n cs
]

abbrev keep_fields : List Bytes → List Bytes
keep_fields [] = []
keep_fields (f ∷ fs) = keep_field f (keep_fields fs)

-- `strings.Fields(s)`
unfoldable pub fields : Bytes → List Bytes
unfolding split_spaces
fields s = keep_fields (split_spaces 0 s)

-- `%x` of an int that is not negative; sixteen digits hold it.
abbrev hex_digit : ℕ → ℕ
hex_digit d = if ltb d 10 then 48 + d else 87 + d

unfoldable pub hex_digits : ℕ → ℕ → Bytes
hex_digits zero n = []
hex_digits (suc fuel) n =
    let front = hex_digits fuel (n / 16) in
    if ltb n 16 then hex_digit n ∷ [] else front ++ hex_digit (n % 16) ∷ []

unfoldable pub format_hex : ℕ → Bytes
unfolding hex_digits
format_hex n = hex_digits 16 n

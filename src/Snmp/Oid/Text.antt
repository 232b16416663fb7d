-- ===== src/Snmp/Oid/Text.antt =====
-- internal/snmp/oid.go: dotted text, with what it uses of `strings` and `strconv`.
pub mod RoundTrip
use wireguardd.Base.{
  parse_digits, format_uint, trim_space, ◌==◌, if◌then◌else◌, Bytes, ℕ, ◌^◌, ◌≡◌, refl, Option,
  none, some, List, [], ◌∷◌, ◌++◌,
}
use wireguardd.Snmp.Oid.{Oid}

-- `strings.TrimPrefix(s, ".")`
pub trim_dot : Bytes → Bytes
trim_dot [] = []
trim_dot (c ∷ cs) = if c == b'.' then cs else c ∷ cs

abbrev push_head : ℕ → List Bytes → List Bytes
push_head c [] = (c ∷ []) ∷ []
push_head c (p ∷ ps) = (c ∷ p) ∷ ps

-- `strings.Split(s, ".")`
pub split_dots : Bytes → List Bytes
split_dots [] = [] ∷ []
split_dots (c ∷ cs) = let rest = split_dots cs in if c == b'.' then [] ∷ rest else push_head c rest

-- One turn of the loop of `parseOID`: an empty or malformed part is skipped.
abbrev keep_part : Option ℕ → Oid → Oid
keep_part none out = out
keep_part (some n) out = n ∷ out

pub parse_parts : List Bytes → Oid
unfolding parse_digits
parse_parts [] = []
parse_parts ([] ∷ ps) = parse_parts ps
parse_parts ((c ∷ cs) ∷ ps) = keep_part (parse_digits (2 ^ 32) 0 (c ∷ cs)) (parse_parts ps)

-- `if s == "" { return nil }`, and the loop over the parts.
pub parse_trimmed : Bytes → Oid
unfolding split_dots parse_parts
parse_trimmed [] = []
parse_trimmed (c ∷ cs) = parse_parts (split_dots (c ∷ cs))

unfoldable pub parse_oid : Bytes → Oid
unfolding trim_space trim_dot parse_trimmed
parse_oid s = parse_trimmed (trim_dot (trim_space s))

-- `OID.String`
unfoldable pub oid_string : Oid → Bytes
unfolding format_uint
oid_string [] = []
oid_string (n ∷ []) = format_uint n
oid_string (n ∷ m ∷ rest) = format_uint n ++ b'.' ∷ oid_string (m ∷ rest)

text_round : parse_oid (oid_string (1 ∷ 3 ∷ 6 ∷ 66666 ∷ 0 ∷ [])) ≡ 1 ∷ 3 ∷ 6 ∷ 66666 ∷ 0 ∷ []
unfolding parse_oid oid_string
text_round = refl

-- ===== src/Host/Amnezia.antt =====
-- internal/wgbackend/amnezia.go: the parameters of AmneziaWG as text, their check, and the names and
-- ports of pairs; and setAmneziaParams of uapi_set.go up to the arguments of its command.
use wireguardd.Base.{
  if◌then◌else◌, ◌==◌, text, trim_space, starts_with, ends_with, take, drop, length, format_int,
  is_blank, contains, add64, sub64, less64, le64, is_positive, is_negative, Bytes, ℕ, ◌-◌, Bool,
  false, not, ◌&&◌, ◌||◌, Option, none, some, List, [], ◌∷◌, ◌++◌,
}
use wireguardd.Host.{AmneziaParams, no_params}
use wireguardd.Host.Names.{backend_is, normalize_backend}

-- `NeutralAmneziaParams`
abbrev pub neutral_params : AmneziaParams
neutral_params = record no_params { h1 = text "1"; h2 = text "2"; h3 = text "3"; h4 = text "4" }

-- A parameter that is set, and its value.
abbrev pub number_entry : Bytes → ℕ → List (Bytes × Bytes) → List (Bytes × Bytes)
unfolding format_int
number_entry k v rest = if v == 0 then rest else (k, format_int v) ∷ rest

abbrev pub text_entry : Bytes → Bytes → List (Bytes × Bytes) → List (Bytes × Bytes)
text_entry k v rest = if is_blank v then rest else (k, v) ∷ rest

-- The parameters that are set, in the order in which both uses write them.
unfoldable pub entries : AmneziaParams → List (Bytes × Bytes)
unfolding number_entry
entries p = number_entry (text "jc") p.jc (
    number_entry (text "jmin") p.jmin (
      number_entry (text "jmax") p.jmax (
        number_entry (text "s1") p.s1 (
          number_entry (text "s2") p.s2 (
            number_entry (text "s3") p.s3 (
              number_entry (text "s4") p.s4 (
                text_entry (text "h1") p.h1 (
                  text_entry (text "h2") p.h2 (
                    text_entry (text "h3") p.h3 (
                      text_entry (text "h4") p.h4 (
                        text_entry (text "i1") p.i1 (
                          text_entry (text "i2") p.i2 (
                            text_entry (text "i3") p.i3 (
                              text_entry (text "i4") p.i4
                                (text_entry (text "i5") p.i5 [])))))))))))))))

abbrev pub lines_of : List (Bytes × Bytes) → List Bytes
lines_of [] = []
lines_of ((k, v) ∷ rest) = (k ++ b'=' ∷ v) ∷ lines_of rest

-- `UAPILines`
unfoldable pub uapi_lines : AmneziaParams → List Bytes
unfolding entries
uapi_lines p = lines_of (entries p)

abbrev pub words_of : List (Bytes × Bytes) → List Bytes
words_of [] = []
words_of ((k, v) ∷ rest) = k ∷ v ∷ words_of rest

-- The arguments of `setAmneziaParams`
unfoldable pub set_args : Bytes → AmneziaParams → List Bytes
unfolding entries
set_args iface p = text "set" ∷ iface ∷ words_of (entries p)

-- The errors of `Validate`
pub data Invalid : Type 0 where
  jc_range : Invalid
  negative_junk : Invalid
  junk_order : Invalid
  negative_padding : Invalid
  padding_sum : Invalid
  same_headers : Invalid

abbrev pub repeats : List Bytes → List Bytes → Bool
repeats seen [] = false
repeats seen (h ∷ hs) =
    if is_blank h then repeats seen hs else contains h seen || repeats (h ∷ seen) hs

-- `Validate`: `none` is no error.
unfoldable pub validate : AmneziaParams → Option Invalid
validate p =
    if is_negative p.jc || less64 128 p.jc
    then some Invalid.jc_range
    else if is_negative p.jmin || is_negative p.jmax
    then some Invalid.negative_junk
    else if is_positive p.jmax && less64 p.jmax p.jmin
    then some Invalid.junk_order
    else if is_negative p.s1 || (is_negative p.s2 || (is_negative p.s3 || is_negative p.s4))
    then some Invalid.negative_padding
    else if is_positive p.s1 && (is_positive p.s2 && (add64 p.s1 56 == p.s2))
    then some Invalid.padding_sum
    else if repeats [] (p.h1 ∷ p.h2 ∷ p.h3 ∷ p.h4 ∷ [])
    then some Invalid.same_headers
    else none

-- `IsUserspaceBackend`
unfoldable pub is_userspace_backend : Bytes → Bool
unfolding normalize_backend
is_userspace_backend s =
    backend_is (normalize_backend s) (text "userspace")
    || backend_is (normalize_backend s) (text "amnezia_go")
    || backend_is (normalize_backend s) (text "swift")

-- `PairPort`
unfoldable pub pair_port : ℕ → ℕ
pair_port port =
    let up = add64 port 10 in
    let down = sub64 port 10 in
    if le64 port 0 then 0 else if less64 65535 up then if less64 down 1 then 1 else down else up

abbrev pub pair_name_of : Bytes → Bytes
unfolding starts_with ends_with
pair_name_of n =
    if is_blank n
    then text "awg0"
    else if ends_with n (text "-awg")
    then n
    else if ends_with n (text "-in")
    then take (length n - 3) n ++ text "-awg"
    else if starts_with n (text "wg") && not (starts_with n (text "awg"))
    then text "awg" ++ drop 2 n
    else n ++ text "-awg"

-- `DefaultPairName`
unfoldable pub default_pair_name : Bytes → Bytes
unfolding pair_name_of trim_space
default_pair_name wg_name = pair_name_of (trim_space wg_name)

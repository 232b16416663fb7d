-- ===== src/Snmp/Ber/Encode.antt =====
-- internal/snmp/ber.go, the encoders. A loop `for start < len-1 && …` over `buf` is a recursion on
-- what `buf[start:]` is, which keeps at least one byte.
use wireguardd.Base.{
  ltb, leb, ◌==◌, if◌then◌else◌, length, reverse, Bytes, ℕ, zero, suc, ◌+◌, ◌*◌, ◌/◌, ◌%◌, ◌^◌,
  bit_and, bit_or, Bool, false, not, ◌&&◌, ◌||◌, [], ◌∷◌, ◌++◌,
}
use wireguardd.Snmp.Oid.{Oid}
use wireguardd.Snmp.Oid.Text.{parse_oid}
use wireguardd.Snmp.Ber.{
  tag_integer, tag_octet_string, tag_null, tag_oid, tag_ip_address, tag_counter32, tag_gauge32,
  tag_time_ticks, tag_counter64, tag_no_such_object, tag_no_such_instance, tag_end_of_mib_view,
  Value,
}

unfoldable pub encode_length : ℕ → Bytes
encode_length n =
    if ltb n 0x80
    then n % 256 ∷ []
    else if leb n 0xff
    then 0x81 ∷ (n % 256) ∷ []
    else if leb n 0xffff
    then 0x82 ∷ (n / 2 ^ 8 % 256) ∷ (n % 256) ∷ []
    else 0x83 ∷ (n / 2 ^ 16 % 256) ∷ (n / 2 ^ 8 % 256) ∷ (n % 256) ∷ []

unfoldable pub wrap_tlv : ℕ → Bytes → Bytes
wrap_tlv tag content = tag ∷ (encode_length (length content) ++ content)

-- `binary.BigEndian.PutUint64` (eight bytes) and `PutUint32` (four).
unfoldable pub be_bytes : ℕ → ℕ → Bytes
be_bytes zero v = []
be_bytes (suc n) v = be_bytes n (v / 256) ++ (v % 256) ∷ []

-- `b&0x80 != 0` at the first byte.
unfoldable pub top_set : Bytes → Bool
top_set [] = false
top_set (b ∷ bs) = not (bit_and b 0x80 == 0)

unfoldable pub skip_zeros : Bytes → Bytes
skip_zeros [] = []
skip_zeros (b ∷ []) = b ∷ []
skip_zeros (b ∷ c ∷ rest) =
    let more = skip_zeros (c ∷ rest) in if b == 0 then more else b ∷ c ∷ rest

unfoldable pub skip_ones : Bytes → Bytes
skip_ones [] = []
skip_ones (b ∷ []) = b ∷ []
skip_ones (b ∷ c ∷ rest) =
    let more = skip_ones (c ∷ rest) in
    if (b == 0xff) && top_set (c ∷ rest) then more else b ∷ c ∷ rest

-- A 0x00 is put in front of a content whose first bit is set.
unfoldable pub unsigned_content : Bytes → Bytes
unfolding skip_zeros top_set
unsigned_content buf =
    let content = skip_zeros buf in if top_set content then 0x00 ∷ content else content

unfoldable pub integer_content : ℕ → Bytes
unfolding be_bytes unsigned_content skip_ones
integer_content v =
    let buf = be_bytes 8 v in if ltb v (2 ^ 63) then unsigned_content buf else skip_ones buf

unfoldable pub encode_integer : ℕ → Bytes
unfolding integer_content wrap_tlv encode_length
encode_integer v = wrap_tlv tag_integer (integer_content v)

unfoldable pub encode_unsigned32 : ℕ → ℕ → Bytes
unfolding unsigned_content be_bytes wrap_tlv encode_length
encode_unsigned32 tag v = wrap_tlv tag (unsigned_content (be_bytes 4 v))

unfoldable pub encode_counter64 : ℕ → Bytes
unfolding unsigned_content be_bytes wrap_tlv encode_length
encode_counter64 v = wrap_tlv tag_counter64 (unsigned_content (be_bytes 8 v))

unfoldable pub encode_octet_string : Bytes → Bytes
unfolding wrap_tlv encode_length
encode_octet_string s = wrap_tlv tag_octet_string s

unfoldable pub encode_null : Bytes
encode_null = tag_null ∷ 0x00 ∷ []

-- `for n > 0 { stack = append(stack, n&0x7f); n >>= 7 }`; ten rounds empty a uint.
unfoldable pub stack_groups : ℕ → ℕ → Bytes
stack_groups zero n = []
stack_groups (suc fuel) n =
    let rest = stack_groups fuel (n / 2 ^ 7) in if ltb 0 n then n % 128 ∷ rest else []

-- The second loop: the last group first, and the top bit on all but the final byte.
unfoldable pub mark_groups : Bytes → Bytes
mark_groups [] = []
mark_groups (b ∷ []) = b ∷ []
mark_groups (b ∷ c ∷ rest) = bit_or b 0x80 ∷ mark_groups (c ∷ rest)

unfoldable pub encode_base128 : ℕ → Bytes
unfolding stack_groups mark_groups
encode_base128 n = if ltb n 0x80 then n % 256 ∷ [] else mark_groups (reverse (stack_groups 10 n))

unfoldable pub encode_arcs : Oid → Bytes
unfolding encode_base128
encode_arcs [] = []
encode_arcs (n ∷ rest) = encode_base128 n ++ encode_arcs rest

-- The content of an identifier; the first byte wraps.
abbrev pub oid_content : Oid → Bytes
oid_content [] = 0 ∷ []
oid_content (a ∷ []) = 0 ∷ []
oid_content (a ∷ b ∷ rest) = ((a * 40 + b) % 256) ∷ encode_arcs rest

unfoldable pub encode_oid : Oid → Bytes
unfolding encode_arcs wrap_tlv encode_length
encode_oid o = wrap_tlv tag_oid (oid_content o)

-- A Counter64: the unsigned field, or else the signed one with a negative value as 0.
unfoldable pub encode_counter_value : Value → Bytes
unfolding encode_counter64
encode_counter_value v =
    if not (v.u64 == 0) || v.int == 0
    then encode_counter64 v.u64
    else if leb (2 ^ 63) v.int
    then encode_counter64 0
    else encode_counter64 v.int

unfoldable pub encode_value : Value → Bytes
unfolding encode_integer encode_octet_string encode_null encode_oid encode_unsigned32
    encode_counter_value wrap_tlv encode_length parse_oid
encode_value v =
    if v.type == tag_integer
    then encode_integer v.int
    else if v.type == tag_octet_string
    then encode_octet_string v.str
    else if v.type == tag_null
    then encode_null
    else if v.type == tag_oid
    then encode_oid (parse_oid v.str)
    else if v.type == tag_counter32
    then encode_unsigned32 tag_counter32 (v.int % 2 ^ 32)
    else if v.type == tag_gauge32
    then encode_unsigned32 tag_gauge32 (v.int % 2 ^ 32)
    else if v.type == tag_time_ticks
    then encode_unsigned32 tag_time_ticks (v.int % 2 ^ 32)
    else if v.type == tag_counter64
    then encode_counter_value v
    else if v.type == tag_ip_address
    then wrap_tlv tag_ip_address (if length v.raw == 4 then v.raw else 0 ∷ 0 ∷ 0 ∷ 0 ∷ [])
    else if v.type == tag_no_such_object
    then tag_no_such_object ∷ 0x00 ∷ []
    else if v.type == tag_no_such_instance
    then tag_no_such_instance ∷ 0x00 ∷ []
    else if v.type == tag_end_of_mib_view
    then tag_end_of_mib_view ∷ 0x00 ∷ []
    else encode_integer v.int

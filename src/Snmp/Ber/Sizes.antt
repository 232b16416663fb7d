-- ===== src/Snmp/Ber/Sizes.antt =====
-- How long an encoding is at most.
use wireguardd.Base.{length, length-append, Bytes, ℕ, ◌+◌, ◌^◌, ◌≤◌, ◌<◌, arith}
use wireguardd.Snmp.Ber.{tag_integer, tag_octet_string}
use wireguardd.Snmp.Ber.Encode.{
  encode_length, wrap_tlv, integer_content, encode_integer, encode_octet_string,
}
use wireguardd.Snmp.Ber.Integers.{length-integer_content}

pub length-wrap_tlv-le :
    (tag : ℕ) (content : Bytes) → length (wrap_tlv tag content) ≤ length content + 5
unfolding wrap_tlv encode_length
length-wrap_tlv-le tag content =
    ground (arith, length-append (encode_length (length content)) content)

pub length-encode_integer-le : (v : ℕ) → v < 2 ^ 64 → length (encode_integer v) ≤ 13
unfolding encode_integer
length-encode_integer-le v h =
    omega (arith, length-wrap_tlv-le tag_integer (integer_content v), length-integer_content v h)

pub length-encode_octet_string-le : (s : Bytes) → length (encode_octet_string s) ≤ length s + 5
unfolding encode_octet_string
length-encode_octet_string-le s = length-wrap_tlv-le tag_octet_string s

-- ===== src/Snmp/Ber/Length.antt =====
-- A TLV is read back whole: the length forms, then tag and content.
use wireguardd.Base.{
  ge→ltb, length, length-append, take-append, drop-append, Bytes, ℕ, ◌+◌, ◌^◌, ◌≤◌, ◌<◌, ◌≡◌, ◌++◌,
  append_assoc, arith,
}
use wireguardd.Snmp.Ber.{ok}
use wireguardd.Snmp.Ber.Encode.{encode_length, wrap_tlv}
use wireguardd.Snmp.Ber.Decode.{
  read_byte, length_form, read_length, read_length_bytes, read_content, read_tlv,
}

pub length-wrap_tlv :
    (tag : ℕ) (content : Bytes) → length content + 2 ≤ length (wrap_tlv tag content)
unfolding wrap_tlv encode_length
length-wrap_tlv tag content = ground (arith, length-append (encode_length (length content)) content)

-- Every length below 2 ^ 24 is read back, with the bytes that follow it.
pub read_length-encode_length :
    (n : ℕ) (rest : Bytes) → n < 2 ^ 24 → read_length (encode_length n ++ rest) ≡ ok (n, rest)
unfolding read_length read_byte length_form read_length_bytes encode_length
read_length-encode_length n rest h = ground arith

read_content-append :
    (content rest : Bytes) → read_content (length content) (content ++ rest) ≡ ok (content, rest)
unfolding read_content
read_content-append content rest = rw (
  ge→ltb (length (content ++ rest)) (length content) (omega (arith, length-append content rest)),
  take-append,
  drop-append,
)

pub read_tlv-wrap_tlv :
    (tag : ℕ) (content rest : Bytes)
    → length content < 2 ^ 24
    → read_tlv (wrap_tlv tag content ++ rest) ≡ ok (tag, content, rest)
unfolding read_tlv wrap_tlv read_byte
read_tlv-wrap_tlv tag content rest h =
    rw (append_assoc, read_length-encode_length (length content) (content ++ rest) h)
      (rw read_content-append)

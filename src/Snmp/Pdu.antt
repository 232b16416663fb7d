-- ===== src/Snmp/Pdu.antt =====
-- internal/snmp/pdu.go: messages, their decoder and their encoder. `RequestID` is the pattern of an
-- int32 below 2 ^ 32, every other number that of an int64.
pub mod RoundTrip
pub mod Total
use wireguardd.Base.{
  ltb, ◌==◌, if◌then◌else◌, length, Bytes, ℕ, zero, suc, ◌+◌, ◌-◌, ◌%◌, ◌^◌, Bool, true, false,
  ◌&&◌, List, [], ◌∷◌, ◌++◌,
}
use wireguardd.Snmp.Oid.{Oid}
use wireguardd.Snmp.Ber.{
  Error, Result, ok, err, ◌>>=◌, ◌>>◌, check, not_sequence, version_not_integer,
  community_not_octets, request_id_not_integer, bindings_not_sequence, binding_not_sequence,
  name_not_oid, out_of_fuel, tag_integer, tag_octet_string, tag_oid, tag_sequence, tag_get_response,
  tag_get_bulk_request, Value,
}
use wireguardd.Snmp.Ber.Encode.{
  wrap_tlv, encode_integer, encode_octet_string, encode_oid, encode_value,
}
use wireguardd.Snmp.Ber.Decode.{read_tlv, decode_integer_content, decode_oid_content, decode_value}

pub record VarBind : Type 0 where
  pub name : Oid
  pub value : Value

pub record Pdu : Type 0 where
  pub type : ℕ
  pub request_id : ℕ
  pub error_status : ℕ
  pub error_index : ℕ
  pub non_repeaters : ℕ
  pub max_repetitions : ℕ
  pub is_bulk : Bool
  pub bindings : List VarBind

pub record Message : Type 0 where
  pub version : ℕ
  pub community : Bytes
  pub pdu : Pdu

unfoldable pub decode_var_bind : Bytes → Result VarBind
decode_var_bind content = do
  (t, c, r) ← read_tlv content
  check (t == tag_oid) name_not_oid
  oid ← decode_oid_content c
  (t', c', r') ← read_tlv r
  val ← decode_value t' c'
  ok (record { name = oid; value = val })

-- `for vr.remaining() > 0`: a turn reads one TLV, of two bytes at least.
unfoldable pub decode_bindings : ℕ → Bytes → List VarBind → Result (List VarBind)
unfolding decode_var_bind
decode_bindings fuel [] out = ok out
decode_bindings zero (b ∷ bs) out = err out_of_fuel
decode_bindings (suc fuel) (b ∷ bs) out = do
  (tt', cc', rest) ← read_tlv (b ∷ bs)
  check (tt' == tag_sequence) binding_not_sequence
  vb ← decode_var_bind cc'
  decode_bindings fuel rest (out ++ vb ∷ [])

-- The two numbers behind the request id, by the kind of the PDU.
unfoldable pub with_numbers : ℕ → ℕ → ℕ → ℕ → List VarBind → Pdu
with_numbers tag id n1 n2 vbs =
    if tag == tag_get_bulk_request
    then record {
      type = tag;
      request_id = id;
      error_status = 0;
      error_index = 0;
      non_repeaters = n1;
      max_repetitions = n2;
      is_bulk = true;
      bindings = vbs;
    }
    else record {
      type = tag;
      request_id = id;
      error_status = n1;
      error_index = n2;
      non_repeaters = 0;
      max_repetitions = 0;
      is_bulk = false;
      bindings = vbs;
    }

unfoldable pub decode_pdu : ℕ → Bytes → Result Pdu
unfolding with_numbers decode_bindings
decode_pdu tag content = do
  (t, c, r) ← read_tlv content
  id ← decode_integer_content c
  check (t == tag_integer) request_id_not_integer
  (t1, c1, r1) ← read_tlv r
  n1 ← decode_integer_content c1
  (t2, c2, r2) ← read_tlv r1
  n2 ← decode_integer_content c2
  (t3, c3, r3) ← read_tlv r2
  check (t3 == tag_sequence) bindings_not_sequence
  vbs ← decode_bindings (length c3) c3 []
  ok (with_numbers tag (id % 2 ^ 32) n1 n2 vbs)

unfoldable pub decode_message : Bytes → Result Message
unfolding decode_pdu
decode_message raw = do
  (tag, content, r) ← read_tlv raw
  check (tag == tag_sequence) not_sequence
  (t1, c1, r1) ← read_tlv content
  check (t1 == tag_integer) version_not_integer
  ver ← decode_integer_content c1
  (t2, c2, r2) ← read_tlv r1
  check (t2 == tag_octet_string) community_not_octets
  (t3, c3, r3) ← read_tlv r2
  pdu ← decode_pdu t3 c3
  ok (record { version = ver; community = c2; pdu = pdu })

unfoldable pub encode_var_bind : VarBind → Bytes
encode_var_bind b = wrap_tlv tag_sequence (encode_oid b.name ++ encode_value b.value)

unfoldable pub encode_bindings : List VarBind → Bytes
unfolding encode_var_bind
encode_bindings [] = []
encode_bindings (b ∷ bs) = encode_var_bind b ++ encode_bindings bs

-- `int64(p.RequestID)`: the sign of an int32 is carried on.
unfoldable pub sign_extend : ℕ → ℕ
sign_extend r = if ltb r (2 ^ 31) then r else r + (2 ^ 64 - 2 ^ 32)

-- `e1` and `e2` of `encodePDU`.
unfoldable pub first_number : Pdu → ℕ
first_number p =
    if p.is_bulk && p.type == tag_get_bulk_request then p.non_repeaters else p.error_status

unfoldable pub second_number : Pdu → ℕ
second_number p =
    if p.is_bulk && p.type == tag_get_bulk_request then p.max_repetitions else p.error_index

unfoldable pub encode_pdu : Pdu → Bytes
unfolding encode_bindings sign_extend first_number second_number
encode_pdu p =
    let tag : ℕ = if p.type == 0 then tag_get_response else p.type in
    wrap_tlv tag (
      encode_integer (sign_extend p.request_id)
      ++ (encode_integer (first_number p)
          ++ (encode_integer (second_number p)
              ++ wrap_tlv tag_sequence (encode_bindings p.bindings))))

unfoldable pub encode_message : Message → Bytes
unfolding encode_pdu
encode_message m =
    wrap_tlv tag_sequence
      (encode_integer m.version ++ (encode_octet_string m.community ++ encode_pdu m.pdu))

-- ===== src/Snmp/Pdu/RoundTrip.antt =====
-- internal/snmp/pdu.go: the messages that `encodeMessage` writes are read back by `decodeMessage`.
use wireguardd.Base.{
  length, All, length-append, Bytes, ℕ, zero, suc, ◌+◌, ◌%◌, ◌^◌, ◌≤◌, ◌<◌, ◌≡◌, refl, sym, ap, ◌∙◌,
  ◌≢◌, List, [], ◌∷◌, ◌++◌, append_assoc, append-nil, arith,
}
use wireguardd.Snmp.Ber.{ok, tag_integer, tag_octet_string, tag_oid, tag_sequence}
use wireguardd.Snmp.Ber.Encode.{
  oid_content, wrap_tlv, integer_content, encode_integer, encode_octet_string, encode_oid,
  encode_value,
}
use wireguardd.Snmp.Ber.Decode.{read_tlv}
use wireguardd.Snmp.Ber.Length.{length-wrap_tlv, read_tlv-wrap_tlv}
use wireguardd.Snmp.Ber.Integers.{length-integer_content, decode_integer-integer_content}
use wireguardd.Snmp.Ber.Arcs.{IsArc}
use wireguardd.Snmp.Ber.Values.{
  IsWireOid, IsWire, encode_oid-oid_content, decode_oid-oid_content, IsWire-Carries,
}
use wireguardd.Snmp.Pdu.{
  VarBind, Pdu, Message, decode_var_bind, decode_bindings, with_numbers, decode_pdu, decode_message,
  encode_var_bind, encode_bindings, sign_extend, first_number, second_number, encode_pdu,
  encode_message,
}

-- The two steps by which every number of a message is read.
pub read_integer :
    (v : ℕ) (rest : Bytes)
    → v < 2 ^ 64
    → read_tlv (encode_integer v ++ rest) ≡ ok (tag_integer, integer_content v, rest)
unfolding encode_integer
read_integer v rest h =
    read_tlv-wrap_tlv tag_integer (integer_content v) rest
      (omega (arith, length-integer_content v h))

pub record IsWireBinding (b : VarBind) : Type 0 where
  pub name : IsWireOid IsArc b.name
  pub value : IsWire b.value

decode_var_bind_lem :
    (b : VarBind)
    → IsWireBinding b
    → length (encode_oid b.name ++ encode_value b.value) < 2 ^ 24
    → decode_var_bind (encode_oid b.name ++ encode_value b.value) ≡ ok b
unfolding decode_var_bind
decode_var_bind_lem b w h =
    let val = IsWire-Carries w.value in
    let c = oid_content b.name in
    let name_tlv : encode_oid b.name ≡ wrap_tlv tag_oid c = encode_oid-oid_content b.name in
    let joined = length-append (encode_oid b.name) (encode_value b.value) in
    let name_size : length c < 2 ^ 24 =
      omega (arith, joined, ap length name_tlv, length-wrap_tlv tag_oid c) in
    let value_size : length val.content < 2 ^ 24 =
      omega (arith, joined, ap length val.encoded, length-wrap_tlv b.value.type val.content) in
    let first =
      ap (λ z. read_tlv (z ++ encode_value b.value)) name_tlv
      ∙ read_tlv-wrap_tlv tag_oid c (encode_value b.value) name_size in
    let second =
      ap read_tlv (val.encoded ∙ sym (append-nil (wrap_tlv b.value.type val.content)))
      ∙ read_tlv-wrap_tlv b.value.type val.content [] value_size in
    rw (first, decode_oid-oid_content b.name w.name, second, val.decoded)

-- One turn of the loop, by what is read.
decode_bindings_turn :
    (fuel : ℕ) (raw content rest : Bytes) (vb : VarBind) (out : List VarBind)
    → read_tlv raw ≡ ok (tag_sequence, content, rest)
    → decode_var_bind content ≡ ok vb
    → decode_bindings (suc fuel) raw out ≡ decode_bindings fuel rest (out ++ vb ∷ [])
decode_bindings_turn fuel [] content rest vb out e d = unfold read_tlv in cc
decode_bindings_turn fuel (x ∷ xs) content rest vb out e d = unfold decode_bindings in rw (e, d)

length-encode_var_bind :
    (b : VarBind)
    → length (encode_oid b.name ++ encode_value b.value) + 2 ≤ length (encode_var_bind b)
unfolding encode_var_bind
length-encode_var_bind b = length-wrap_tlv tag_sequence (encode_oid b.name ++ encode_value b.value)

decode_bindings_step :
    (fuel : ℕ) (b : VarBind) (rest : Bytes) (out : List VarBind)
    → IsWireBinding b
    → length (encode_var_bind b) < 2 ^ 24
    → decode_bindings (suc fuel) (encode_var_bind b ++ rest) out
      ≡ decode_bindings fuel rest (out ++ b ∷ [])
decode_bindings_step fuel b rest out w h =
    let content = encode_oid b.name ++ encode_value b.value in
    let size : length content < 2 ^ 24 = omega (arith, length-encode_var_bind b) in
    decode_bindings_turn fuel (encode_var_bind b ++ rest) content rest b out
      (unfold encode_var_bind in read_tlv-wrap_tlv tag_sequence content rest size)
      (decode_var_bind_lem b w size)

pub length-encode_bindings : (bs : List VarBind) → length bs ≤ length (encode_bindings bs)
unfolding encode_bindings
length-encode_bindings [] = omega arith
length-encode_bindings (b ∷ bs) = omega (
  arith,
  length-append (encode_var_bind b) (encode_bindings bs),
  length-encode_bindings bs,
  length-encode_var_bind b,
)

decode_bindings-encode_bindings :
    (fuel : ℕ) (bs out : List VarBind)
    → All IsWireBinding bs
    → length (encode_bindings bs) < 2 ^ 24
    → length bs ≤ fuel
    → decode_bindings fuel (encode_bindings bs) out ≡ ok (out ++ bs)
unfolding encode_bindings
decode_bindings-encode_bindings fuel [] out w h k = no_more fuel out ∙ ap ok (sym (append-nil out))
  where
    no_more : (fuel : ℕ) (out : List VarBind) → decode_bindings fuel [] out ≡ ok out
    no_more zero out = unfold decode_bindings in refl
    no_more (suc fuel) out = unfold decode_bindings in refl
decode_bindings-encode_bindings zero (b ∷ bs) out w h k = absurd (omega arith)
decode_bindings-encode_bindings (suc fuel) (b ∷ bs) out (w, ws) h k =
    let sizes = length-append (encode_var_bind b) (encode_bindings bs) in
    decode_bindings_step fuel b (encode_bindings bs) out w (omega (arith, sizes))
    ∙ decode_bindings-encode_bindings fuel bs (out ++ b ∷ []) ws (omega (arith, sizes))
        (omega arith)
    ∙ ap ok (append_assoc out (b ∷ []) bs)

pub sign_extend-lt : (r : ℕ) → r < 2 ^ 32 → sign_extend r < 2 ^ 64
unfolding sign_extend
sign_extend-lt r h = ground arith

-- `int32(int64(r))` is `r`.
sign_extend_low : (r : ℕ) → r < 2 ^ 32 → sign_extend r % 2 ^ 32 ≡ r
unfolding sign_extend
sign_extend_low r h = ground arith

-- What a decoded PDU looks like: the numbers of the other kind are 0.
pub record IsWirePdu (p : Pdu) : Type 0 where
  pub typed : p.type ≢ 0
  pub id : p.request_id < 2 ^ 32
  pub first : first_number p < 2 ^ 64
  pub second : second_number p < 2 ^ 64
  pub shape : with_numbers p.type p.request_id (first_number p) (second_number p) p.bindings ≡ p
  pub bound : All IsWireBinding p.bindings

abbrev pdu_content : Pdu → Bytes
pdu_content p =
    encode_integer (sign_extend p.request_id)
    ++ (encode_integer (first_number p)
        ++ (encode_integer (second_number p) ++ wrap_tlv tag_sequence (encode_bindings p.bindings)))

decode_pdu-pdu_content :
    (p : Pdu)
    → IsWirePdu p
    → length (pdu_content p) < 2 ^ 24
    → decode_pdu p.type (pdu_content p) ≡ ok p
decode_pdu-pdu_content p w h =
    let vbs = wrap_tlv tag_sequence (encode_bindings p.bindings) in
    let r2 = encode_integer (second_number p) ++ vbs in
    let r1 = encode_integer (first_number p) ++ r2 in
    let sizes : length (encode_bindings p.bindings) < 2 ^ 24 = omega (
      arith,
      length-append (encode_integer (sign_extend p.request_id)) r1,
      length-append (encode_integer (first_number p)) r2,
      length-append (encode_integer (second_number p)) vbs,
      length-wrap_tlv tag_sequence (encode_bindings p.bindings),
    ) in
    let list =
      ap read_tlv (sym (append-nil vbs))
      ∙ read_tlv-wrap_tlv tag_sequence (encode_bindings p.bindings) [] sizes in
    unfold decode_pdu in
    rw
      (
        read_integer (sign_extend p.request_id) r1 (sign_extend-lt p.request_id w.id),
        decode_integer-integer_content (sign_extend p.request_id)
            (sign_extend-lt p.request_id w.id),
        read_integer (first_number p) r2 w.first,
        decode_integer-integer_content (first_number p) w.first,
        read_integer (second_number p) vbs w.second,
        decode_integer-integer_content (second_number p) w.second,
        list,
        decode_bindings-encode_bindings (length (encode_bindings p.bindings)) p.bindings [] w.bound
            sizes (length-encode_bindings p.bindings),
        sign_extend_low p.request_id w.id,
      )
      (ap ok w.shape)

encode_pdu-pdu_content : (p : Pdu) → p.type ≢ 0 → encode_pdu p ≡ wrap_tlv p.type (pdu_content p)
unfolding encode_pdu
encode_pdu-pdu_content p h = ground arith

length-encode_octet_string : (s : Bytes) → length s + 2 ≤ length (encode_octet_string s)
unfolding encode_octet_string
length-encode_octet_string s = length-wrap_tlv tag_octet_string s

read_octet_string :
    (s rest : Bytes)
    → length s < 2 ^ 24
    → read_tlv (encode_octet_string s ++ rest) ≡ ok (tag_octet_string, s, rest)
unfolding encode_octet_string
read_octet_string s rest h = read_tlv-wrap_tlv tag_octet_string s rest h

pub record IsWireMessage (m : Message) : Type 0 where
  pub version : m.version < 2 ^ 64
  pub pdu : IsWirePdu m.pdu
  pub size : length (encode_message m) < 2 ^ 24

-- Decoding what was encoded gives the message back: every well-formed message of less than 2 ^ 24
-- bytes, whatever its kind and its bindings.
pub decode_message-encode_message :
    (m : Message) → IsWireMessage m → decode_message (encode_message m) ≡ ok m
decode_message-encode_message m w =
    let p = m.pdu in
    let tail_tlv = encode_pdu-pdu_content p w.pdu.typed in
    let r1 = encode_octet_string m.community ++ encode_pdu p in
    let body = encode_integer m.version ++ r1 in
    let whole : encode_message m ≡ wrap_tlv tag_sequence body = unfold encode_message in refl in
    let body_size : length body < 2 ^ 24 =
      omega (arith, w.size, ap length whole, length-wrap_tlv tag_sequence body) in
    let joined = length-append (encode_integer m.version) r1 in
    let joined1 = length-append (encode_octet_string m.community) (encode_pdu p) in
    let community_size : length m.community < 2 ^ 24 =
      omega (arith, joined, joined1, length-encode_octet_string m.community) in
    let pdu_size : length (pdu_content p) < 2 ^ 24 =
      omega (arith, joined, joined1, ap length tail_tlv, length-wrap_tlv p.type (pdu_content p)) in
    unfold decode_message in
    rw (
      whole_read body whole body_size,
      read_integer m.version r1 w.version,
      decode_integer-integer_content m.version w.version,
      read_octet_string m.community (encode_pdu p) community_size,
      ap read_tlv (tail_tlv ∙ sym (append-nil (wrap_tlv p.type (pdu_content p))))
          ∙ read_tlv-wrap_tlv p.type (pdu_content p) [] pdu_size,
      decode_pdu-pdu_content p w.pdu pdu_size,
    )
  where
    whole_read :
        (body : Bytes)
        → encode_message m ≡ wrap_tlv tag_sequence body
        → length body < 2 ^ 24
        → read_tlv (encode_message m) ≡ ok (tag_sequence, body, [])
    whole_read body e h =
        ap read_tlv (e ∙ sym (append-nil (wrap_tlv tag_sequence body)))
        ∙ read_tlv-wrap_tlv tag_sequence body [] h

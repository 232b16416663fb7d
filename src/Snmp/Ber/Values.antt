-- ===== src/Snmp/Ber/Values.antt =====
-- The typed values that the agent puts on the wire (`integer`, `octet`, … of internal/snmp/mib.go),
-- and their round trip through the encoder and the decoder.
use mathlib.Core.Path.{ap₂}
use wireguardd.Base.{
  ◌++◌, eq→==, length, All, Bytes, ℕ, ◌+◌, ◌*◌, ◌/◌, ◌%◌, ◌^◌, ◌<◌, ◌≡◌, refl, ap, ◌∙◌, [], ◌∷◌,
  arith,
}
use wireguardd.Snmp.Oid.{Oid}
use wireguardd.Snmp.Oid.Text.{oid_string}
use wireguardd.Snmp.Oid.Text.RoundTrip.{IsSubId, parse_oid-oid_string}
use wireguardd.Snmp.Ber.{
  ok, tag_integer, tag_octet_string, tag_null, tag_oid, tag_ip_address, tag_counter32, tag_gauge32,
  tag_time_ticks, tag_counter64, tag_no_such_object, tag_no_such_instance, tag_end_of_mib_view,
  Value, typed,
}
use wireguardd.Snmp.Ber.Encode.{
  wrap_tlv, be_bytes, unsigned_content, integer_content, encode_oid, oid_content, encode_integer,
  encode_unsigned32, encode_counter64, encode_counter_value, encode_value,
}
use wireguardd.Snmp.Ber.Length.{length-wrap_tlv, read_tlv-wrap_tlv}
use wireguardd.Snmp.Ber.Decode.{read_tlv, decode_oid_content, decode_unsigned32, decode_value}
use wireguardd.Snmp.Ber.Integers.{
  decode_integer-integer_content, decode_unsigned-be_bytes_eight, decode_unsigned-be_bytes_four,
}
use wireguardd.Snmp.Ber.Arcs.{IsArc, decode_arcs-encode_arcs}

abbrev pub integer : ℕ → Value
integer n = record { type = tag_integer; int = n; u64 = 0; str = []; raw = [] }

abbrev pub octet : Bytes → Value
octet s = record { type = tag_octet_string; int = 0; u64 = 0; str = s; raw = [] }

abbrev pub oid_val : Bytes → Value
oid_val s = record { type = tag_oid; int = 0; u64 = 0; str = s; raw = [] }

abbrev pub counter64 : ℕ → Value
counter64 n = record { type = tag_counter64; int = n; u64 = n; str = []; raw = [] }

abbrev pub gauge32 : ℕ → Value
gauge32 n = record { type = tag_gauge32; int = n; u64 = 0; str = []; raw = [] }

abbrev pub time_ticks : ℕ → Value
time_ticks n = record { type = tag_time_ticks; int = n; u64 = 0; str = []; raw = [] }

abbrev counter32 : ℕ → Value
counter32 n = record { type = tag_counter32; int = n; u64 = 0; str = []; raw = [] }

abbrev ip_address : Bytes → Value
ip_address b = record { type = tag_ip_address; int = 0; u64 = 0; str = []; raw = b }

-- An identifier that BER can carry: its first two arcs fit one byte, and the second is below 40.
abbrev pub IsWireOid : (ℕ → Type 0) → Oid → Type 0
IsWireOid P [] = ⊥
IsWireOid P (a ∷ []) = ⊥
IsWireOid P (a ∷ b ∷ rest) = (b < 40) × (a * 40 + b < 256) × All P rest

-- The values that have one representation on the wire and in memory.
pub data IsWire : Value → Type 0 where
  of_integer : (n : ℕ) → n < 2 ^ 64 → IsWire (integer n)
  of_octets : (s : Bytes) → IsWire (octet s)
  of_null : IsWire (typed tag_null)
  of_oid : (o : Oid) → IsWireOid IsSubId o → IsWire (oid_val (oid_string o))
  of_counter32 : (n : ℕ) → n < 2 ^ 32 → IsWire (counter32 n)
  of_gauge32 : (n : ℕ) → n < 2 ^ 32 → IsWire (gauge32 n)
  of_time_ticks : (n : ℕ) → n < 2 ^ 32 → IsWire (time_ticks n)
  of_counter64 : (n : ℕ) → n < 2 ^ 64 → IsWire (counter64 n)
  of_ip_address : (b : Bytes) → length b ≡ 4 → IsWire (ip_address b)
  of_no_such_object : IsWire (typed tag_no_such_object)
  of_no_such_instance : IsWire (typed tag_no_such_instance)
  of_end_of_mib_view : IsWire (typed tag_end_of_mib_view)

pub encode_oid-oid_content : (o : Oid) → encode_oid o ≡ wrap_tlv tag_oid (oid_content o)
unfolding encode_oid
encode_oid-oid_content o = refl

-- The content of such an identifier is read back, with arcs of 64 bits.
pub decode_oid-oid_content :
    (o : Oid) → IsWireOid IsArc o → decode_oid_content (oid_content o) ≡ ok o
decode_oid-oid_content [] h = absurd h
decode_oid-oid_content (a ∷ []) h = absurd h
decode_oid-oid_content (a ∷ b ∷ rest) (h, k, hs) =
    unfold decode_oid_content in
    ap ok (
      ap (λ z. ((a * 40 + b) % 256 / 40) ∷ ((a * 40 + b) % 256 % 40) ∷ z)
        (decode_arcs-encode_arcs rest hs)
      ∙ ap₂ (λ x y. x ∷ y ∷ rest) (omega arith) (omega arith))

-- What encodeOID writes of an identifier, with anything behind it, is read as one element whose
-- content decodes to the identifier. Its first two arcs fit the first byte, the second is below 40,
-- the further arcs have 64 bits, and less than 2 ^ 24 bytes are written.
pub decode_oid-encode_oid :
    (o : Oid) (rest : Bytes)
    → IsWireOid IsArc o
    → length (encode_oid o) < 2 ^ 24
    → (content : Bytes) × (read_tlv (encode_oid o ++ rest) ≡ ok (tag_oid, content, rest))
      × (decode_oid_content content ≡ ok o)
decode_oid-encode_oid o rest w h =
    let c = oid_content o in
    let e = encode_oid-oid_content o in
    let size : length c < 2 ^ 24 = omega (arith, ap length e, length-wrap_tlv tag_oid c) in
    (
      c,
      ap (λ s. read_tlv (s ++ rest)) e ∙ read_tlv-wrap_tlv tag_oid c rest size,
      decode_oid-oid_content o w,
    )

All-IsArc : (o : Oid) → All IsSubId o → All IsArc o
All-IsArc [] h = tt
All-IsArc (n ∷ o) (h, hs) = (omega arith, All-IsArc o hs)

IsWireOid-IsArc : (o : Oid) → IsWireOid IsSubId o → IsWireOid IsArc o
IsWireOid-IsArc [] h = h
IsWireOid-IsArc (a ∷ []) h = h
IsWireOid-IsArc (a ∷ b ∷ rest) (h, k, hs) = (h, k, All-IsArc rest hs)

IsWireOid-IsSubId : (o : Oid) → IsWireOid IsSubId o → All IsSubId o
IsWireOid-IsSubId [] h = absurd h
IsWireOid-IsSubId (a ∷ []) h = absurd h
IsWireOid-IsSubId (a ∷ b ∷ rest) (h, k, hs) = (omega arith, (omega arith, hs))

encode_unsigned32_lem :
    (tag n : ℕ)
    → n < 2 ^ 32
    → encode_unsigned32 tag (n % 2 ^ 32) ≡ wrap_tlv tag (unsigned_content (be_bytes 4 n))
unfolding encode_unsigned32
encode_unsigned32_lem tag n h =
    let e : n % 2 ^ 32 ≡ n = omega arith in
    ap (λ m. wrap_tlv tag (unsigned_content (be_bytes 4 m))) e

decode_unsigned32_lem :
    (tag n : ℕ)
    → n < 2 ^ 32
    → decode_unsigned32 tag (unsigned_content (be_bytes 4 n))
      ≡ ok (record { type = tag; int = n; u64 = 0; str = []; raw = [] })
decode_unsigned32_lem tag n h =
    unfold decode_unsigned32 in
    rw (decode_unsigned-be_bytes_four n h)
      (ap (λ m. ok (record { type = tag; int = m; u64 = 0; str = []; raw = [] })) (omega arith))

-- With both fields set alike, the unsigned one is written, at 0 too.
encode_counter_value_lem :
    (n : ℕ)
    → encode_counter_value (counter64 n) ≡ wrap_tlv tag_counter64 (unsigned_content (be_bytes 8 n))
encode_counter_value_lem n = unfold encode_counter_value in ground arith

-- A value's TLV, and that its content decodes to the value.
pub record Carries (v : Value) : Type 0 where
  pub content : Bytes
  pub encoded : encode_value v ≡ wrap_tlv v.type content
  pub decoded : decode_value v.type content ≡ ok v

-- Every wire value is one TLV that decodes to itself.
pub IsWire-Carries : {v : Value} → IsWire v → Carries v
unfolding encode_value decode_value encode_integer encode_counter_value encode_counter64
IsWire-Carries (of_integer n h) = record {
  content = integer_content n;
  encoded = refl;
  decoded = rw (decode_integer-integer_content n h);
}
IsWire-Carries (of_octets s) = record { content = s; encoded = refl; decoded = refl }
IsWire-Carries of_null = record { content = []; encoded = refl; decoded = refl }
IsWire-Carries (of_oid o h) = record {
  content = oid_content o;
  encoded =
      ap encode_oid (parse_oid-oid_string o (IsWireOid-IsSubId o h)) ∙ encode_oid-oid_content o;
  decoded = rw (decode_oid-oid_content o (IsWireOid-IsArc o h));
}
IsWire-Carries (of_counter32 n h) = record {
  content = unsigned_content (be_bytes 4 n);
  encoded = encode_unsigned32_lem tag_counter32 n h;
  decoded = decode_unsigned32_lem tag_counter32 n h;
}
IsWire-Carries (of_gauge32 n h) = record {
  content = unsigned_content (be_bytes 4 n);
  encoded = encode_unsigned32_lem tag_gauge32 n h;
  decoded = decode_unsigned32_lem tag_gauge32 n h;
}
IsWire-Carries (of_time_ticks n h) = record {
  content = unsigned_content (be_bytes 4 n);
  encoded = encode_unsigned32_lem tag_time_ticks n h;
  decoded = decode_unsigned32_lem tag_time_ticks n h;
}
IsWire-Carries (of_counter64 n h) = record {
  content = unsigned_content (be_bytes 8 n);
  encoded = encode_counter_value_lem n;
  decoded = rw (decode_unsigned-be_bytes_eight n h);
}
IsWire-Carries (of_ip_address b h) = record {
  content = b;
  encoded = rw (eq→== (length b) 4 h);
  decoded = refl;
}
IsWire-Carries of_no_such_object = record { content = []; encoded = refl; decoded = refl }
IsWire-Carries of_no_such_instance = record { content = []; encoded = refl; decoded = refl }
IsWire-Carries of_end_of_mib_view = record { content = []; encoded = refl; decoded = refl }

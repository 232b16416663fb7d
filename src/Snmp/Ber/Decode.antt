-- ===== src/Snmp/Ber/Decode.antt =====
-- internal/snmp/ber.go, the decoders. A `reader` is what `r.b[r.i:]` is: a read returns its result
-- and the bytes that are left.
use wireguardd.Base.{
  ltb, ◌==◌, if◌then◌else◌, length, take, drop, Bytes, ℕ, zero, suc, ◌+◌, ◌-◌, ◌*◌, ◌/◌, ◌%◌, ◌^◌,
  bit_and, ◌&&◌, ◌||◌, [], ◌∷◌,
}
use wireguardd.Snmp.Oid.{Oid}
use wireguardd.Snmp.Oid.Text.{oid_string}
use wireguardd.Snmp.Ber.{
  Result, ok, err, ◌>>=◌, eof, invalid_length_form, truncated_content, empty_oid, empty_integer,
  integer_too_large, empty_unsigned, tag_integer, tag_octet_string, tag_null, tag_oid,
  tag_ip_address, tag_counter32, tag_gauge32, tag_time_ticks, tag_counter64, tag_no_such_object,
  tag_no_such_instance, tag_end_of_mib_view, Value, typed,
}

unfoldable pub read_byte : Bytes → Result (ℕ × Bytes)
read_byte [] = err eof
read_byte (b ∷ rest) = ok (b, rest)

-- The loop of `readLength`: `l = (l << 8) | int(bb)`, at most four times.
unfoldable pub read_length_bytes : ℕ → ℕ → Bytes → Result (ℕ × Bytes)
read_length_bytes zero l r = ok (l, r)
read_length_bytes (suc n) l [] = err eof
read_length_bytes (suc n) l (bb ∷ rest) = read_length_bytes n (l * 2 ^ 8 + bb) rest

unfoldable pub length_form : ℕ → Bytes → Result (ℕ × Bytes)
unfolding read_length_bytes
length_form b r =
    if ltb b 0x80
    then ok (b, r)
    else let n = bit_and b 0x7f in
      if n == 0 || ltb 4 n then err invalid_length_form else read_length_bytes n 0 r

unfoldable pub read_length : Bytes → Result (ℕ × Bytes)
unfolding read_byte length_form
read_length r = do (b, rest) ← read_byte r; length_form b rest

-- `r.b[r.i : r.i+l]` and what is behind it.
unfoldable pub read_content : ℕ → Bytes → Result (Bytes × Bytes)
read_content l r = if ltb (length r) l then err truncated_content else ok (take l r, drop l r)

-- Tag, content, and the rest.
unfoldable pub read_tlv : Bytes → Result (ℕ × Bytes × Bytes)
unfolding read_byte read_length read_content
read_tlv r = do
  (tag, r1) ← read_byte r
  (l, r2) ← read_length r1
  (content, r3) ← read_content l r2
  ok (tag, content, r3)

-- One turn per byte: `v = (v << 7) | uint(raw[i]&0x7f)`; a byte with its top bit clear ends an arc.
unfoldable pub decode_arcs : ℕ → Bytes → Oid
decode_arcs v [] = []
decode_arcs v (b ∷ bs) =
    let v' = (v * 2 ^ 7 + bit_and b 0x7f) % 2 ^ 64 in
    let ends = bit_and b 0x80 == 0 in
    let rest = decode_arcs (if ends then 0 else v') bs in if ends then v' ∷ rest else rest

unfoldable pub decode_oid_content : Bytes → Result Oid
unfolding decode_arcs
decode_oid_content [] = err empty_oid
decode_oid_content (b ∷ bs) = ok ((b / 40) ∷ (b % 40) ∷ decode_arcs 0 bs)

-- `for _, b := range raw { v = (v << 8) | int64(b) }`
unfoldable pub shift_in : ℕ → Bytes → ℕ
shift_in v [] = v
shift_in v (b ∷ bs) = shift_in ((v * 2 ^ 8 + b) % 2 ^ 64) bs

unfoldable pub decode_integer_content : Bytes → Result ℕ
unfolding shift_in
decode_integer_content [] = err empty_integer
decode_integer_content (b ∷ bs) =
    if ltb 8 (length (b ∷ bs))
    then err integer_too_large
    else ok (shift_in (if bit_and b 0x80 == 0 then 0 else 2 ^ 64 - 1) (b ∷ bs))

unfoldable pub decode_unsigned_content : Bytes → Result ℕ
unfolding shift_in
decode_unsigned_content [] = err empty_unsigned
decode_unsigned_content (b ∷ bs) =
    ok (shift_in 0 (if ltb 1 (length (b ∷ bs)) && b == 0 then bs else b ∷ bs))

-- Counter32, Gauge32 and TimeTicks: `int64(u & math.MaxUint32)`.
unfoldable pub decode_unsigned32 : ℕ → Bytes → Result Value
unfolding decode_unsigned_content
decode_unsigned32 tag content = do
  u ← decode_unsigned_content content
  ok (record { type = tag; int = u % 2 ^ 32; u64 = 0; str = []; raw = [] })

-- A value that comes with an error is dropped by every caller, so it is dropped here.
unfoldable pub decode_value : ℕ → Bytes → Result Value
unfolding decode_integer_content decode_oid_content decode_unsigned32 oid_string
decode_value tag content =
    if tag == tag_integer
    then (do
      n ← decode_integer_content content
      ok (record { type = tag_integer; int = n; u64 = 0; str = []; raw = [] }))
    else if tag == tag_octet_string
    then ok (record { type = tag_octet_string; int = 0; u64 = 0; str = content; raw = [] })
    else if tag == tag_null
    then ok (typed tag_null)
    else if tag == tag_oid
    then (do
      oid ← decode_oid_content content
      ok (record { type = tag_oid; int = 0; u64 = 0; str = oid_string oid; raw = [] }))
    else if tag == tag_counter32
    then decode_unsigned32 tag_counter32 content
    else if tag == tag_gauge32
    then decode_unsigned32 tag_gauge32 content
    else if tag == tag_time_ticks
    then decode_unsigned32 tag_time_ticks content
    else if tag == tag_counter64
    then (do
      u ← decode_unsigned_content content
      ok (record { type = tag_counter64; int = u; u64 = u; str = []; raw = [] }))
    else if tag == tag_ip_address
    then ok (record { type = tag_ip_address; int = 0; u64 = 0; str = []; raw = content })
    else if tag == tag_no_such_object
    then ok (typed tag_no_such_object)
    else if tag == tag_no_such_instance
    then ok (typed tag_no_such_instance)
    else if tag == tag_end_of_mib_view
    then ok (typed tag_end_of_mib_view)
    else ok (record { type = tag; int = 0; u64 = 0; str = []; raw = content })

-- ===== src/Snmp/Pdu/Total.antt =====
-- The decoder ends on every datagram: its loops are given enough fuel.
use wireguardd.Base.{
  ◌==◌, if◌then◌else◌, length, length-drop, Bytes, ℕ, zero, suc, ◌+◌, ◌*◌, ◌^◌, ◌≤◌, bit_and, ◌≡◌,
  refl, ◌≢◌, Bool, true, false, List, [], ◌∷◌, ◌++◌, arith,
}
use wireguardd.Snmp.Ber.{
  Error, Result, ok, err, ◌>>=◌, check, out_of_fuel, not_sequence, version_not_integer,
  community_not_octets, request_id_not_integer, bindings_not_sequence, binding_not_sequence,
  name_not_oid, tag_integer, tag_octet_string, tag_oid, tag_sequence,
}
use wireguardd.Snmp.Ber.Decode.{
  length_form, read_length_bytes, read_content, read_tlv, decode_integer_content,
  decode_unsigned_content, decode_unsigned32, decode_oid_content, decode_value,
}
use wireguardd.Snmp.Pdu.{VarBind, decode_var_bind, decode_bindings, decode_pdu, decode_message}

bind-ok_parts {ℓ κ} :
    {X : Type ℓ} {Y : Type κ} (step : Result X) (next : X → Result Y) {y : Y}
    → (step >>= next) ≡ ok y
    → (x : X) × (next x ≡ ok y) × (step ≡ ok x)
bind-ok_parts (err why) next done = cc
bind-ok_parts (ok x) next done = (x, done, refl)

read_length_bytes_takes :
    (n l : ℕ) (r : Bytes) (l' : ℕ) (rest : Bytes)
    → read_length_bytes n l r ≡ ok (l', rest)
    → length rest ≤ length r
unfolding read_length_bytes
read_length_bytes_takes zero l r l' rest e = ground arith
read_length_bytes_takes (suc n) l [] l' rest e = cc
read_length_bytes_takes (suc n) l (b ∷ r) l' rest e =
    omega (arith, read_length_bytes_takes n (l * 2 ^ 8 + b) r l' rest e)

length_form_takes :
    (b : ℕ) (r : Bytes) (l : ℕ) (rest : Bytes)
    → length_form b r ≡ ok (l, rest)
    → length rest ≤ length r
unfolding length_form
length_form_takes b r l rest e = ground (arith, read_length_bytes_takes (bit_and b 0x7f) 0 r l rest)

read_content_takes :
    (l : ℕ) (r c rest : Bytes) → read_content l r ≡ ok (c, rest) → length rest ≤ length r
unfolding read_content
read_content_takes l r c rest e = ground (arith, length-drop l r)

-- A TLV takes two bytes at least.
read_tlv_takes :
    (r : Bytes) (t : ℕ) (c rest : Bytes) → read_tlv r ≡ ok (t, c, rest) → length rest + 2 ≤ length r
read_tlv_takes [] t c rest e = unfold read_tlv in cc
read_tlv_takes (x ∷ []) t c rest e = unfold read_tlv in cc
read_tlv_takes (x ∷ b ∷ r) t c rest e =
    let (p, e2, e1) = bind-ok_parts (length_form b r) _ (shown e) in
    let (q, e4, e3) = bind-ok_parts (read_content p.0 p.1) _ e2 in
    ground (arith, length_form_takes b r p.0 p.1 e1, read_content_takes p.0 p.1 q.0 q.1 e3)
  where
    shown :
        read_tlv (x ∷ b ∷ r) ≡ ok (t, c, rest)
        → ◌>>=◌ {Y = ℕ × Bytes × Bytes}
            (length_form b r)
            (λ p. ◌>>=◌ {Y = ℕ × Bytes × Bytes} (read_content p.0 p.1) (λ q. ok (x, q.0, q.1)))
          ≡ ok (t, c, rest)
    shown e = unfold read_tlv in e

read_length_bytes-ne-fuel : (n l : ℕ) (r : Bytes) → read_length_bytes n l r ≢ err out_of_fuel
unfolding read_length_bytes
read_length_bytes-ne-fuel zero l r = λ e. cc
read_length_bytes-ne-fuel (suc n) l [] = λ e. cc
read_length_bytes-ne-fuel (suc n) l (b ∷ r) = read_length_bytes-ne-fuel n (l * 2 ^ 8 + b) r

length_form-ne-fuel : (b : ℕ) (r : Bytes) → length_form b r ≢ err out_of_fuel
unfolding length_form
length_form-ne-fuel b r = ground (arith, read_length_bytes-ne-fuel (bit_and b 0x7f) 0 r)

read_content-ne-fuel : (l : ℕ) (r : Bytes) → read_content l r ≢ err out_of_fuel
unfolding read_content
read_content-ne-fuel l r = ground arith

-- The steps of a chain speak of no fuel, so the chain does not.
bind-ne-fuel {ℓ κ} :
    {A : Type ℓ} {B : Type κ} (m : Result A) (f : A → Result B)
    → m ≢ err out_of_fuel
    → ((a : A) → m ≡ ok a → f a ≢ err out_of_fuel)
    → (m >>= f) ≢ err out_of_fuel
bind-ne-fuel (ok a) f h k = k a refl
bind-ne-fuel (err e) f h k = λ p. h (cc)

check-ne-fuel : (b : Bool) (e : Error) → e ≢ out_of_fuel → check b e ≢ err out_of_fuel
check-ne-fuel true e h = λ p. cc
check-ne-fuel false e h = λ p. h (cc)

ok-ne-fuel {ℓ} : {A : Type ℓ} (a : A) → ok a ≢ err out_of_fuel
ok-ne-fuel a = λ p. cc

read_tlv-ne-fuel : (r : Bytes) → read_tlv r ≢ err out_of_fuel
read_tlv-ne-fuel [] = unfold read_tlv in λ e. cc
read_tlv-ne-fuel (x ∷ []) = unfold read_tlv in λ e. cc
read_tlv-ne-fuel (x ∷ b ∷ r) =
    unfold read_tlv in
    bind-ne-fuel (length_form b r) _ (length_form-ne-fuel b r) λ p _.
      bind-ne-fuel (read_content p.0 p.1) _ (read_content-ne-fuel p.0 p.1)
        λ q _. ok-ne-fuel (x, q.0, q.1)

decode_integer-ne-fuel : (c : Bytes) → decode_integer_content c ≢ err out_of_fuel
unfolding decode_integer_content
decode_integer-ne-fuel [] = λ e. cc
decode_integer-ne-fuel (b ∷ bs) = ground arith

decode_unsigned-ne-fuel : (c : Bytes) → decode_unsigned_content c ≢ err out_of_fuel
unfolding decode_unsigned_content
decode_unsigned-ne-fuel [] = λ e. cc
decode_unsigned-ne-fuel (b ∷ bs) = λ e. cc

decode_oid-ne-fuel : (c : Bytes) → decode_oid_content c ≢ err out_of_fuel
unfolding decode_oid_content
decode_oid-ne-fuel [] = λ e. cc
decode_oid-ne-fuel (b ∷ bs) = λ e. cc

decode_unsigned32-ne-fuel : (t : ℕ) (c : Bytes) → decode_unsigned32 t c ≢ err out_of_fuel
decode_unsigned32-ne-fuel t c =
    unfold decode_unsigned32 in
    bind-ne-fuel (decode_unsigned_content c) _ (decode_unsigned-ne-fuel c) λ u _. ok-ne-fuel _

if-ne-fuel {ℓ} :
    {A : Type ℓ} (b : Bool) {m n : Result A}
    → m ≢ err out_of_fuel
    → n ≢ err out_of_fuel
    → (if b then m else n) ≢ err out_of_fuel
if-ne-fuel true h k = h
if-ne-fuel false h k = k

decode_value-ne-fuel : (t : ℕ) (c : Bytes) → decode_value t c ≢ err out_of_fuel
unfolding decode_value
decode_value-ne-fuel t c =
    if-ne-fuel (t == 0x02)
      (bind-ne-fuel (decode_integer_content c) _ (decode_integer-ne-fuel c) (λ n _. ok-ne-fuel _))
      (if-ne-fuel (t == 0x04) (ok-ne-fuel _) (
        if-ne-fuel (t == 0x05) (ok-ne-fuel _) (
          if-ne-fuel (t == 0x06)
            (bind-ne-fuel (decode_oid_content c) _ (decode_oid-ne-fuel c) (λ n _. ok-ne-fuel _))
            (if-ne-fuel (t == 0x41) (decode_unsigned32-ne-fuel 0x41 c) (
              if-ne-fuel (t == 0x42) (decode_unsigned32-ne-fuel 0x42 c) (
                if-ne-fuel (t == 0x43) (decode_unsigned32-ne-fuel 0x43 c) (
                  if-ne-fuel (t == 0x46)
                    (bind-ne-fuel (decode_unsigned_content c) _ (decode_unsigned-ne-fuel c)
                      (λ n _. ok-ne-fuel _))
                    (if-ne-fuel (t == 0x40) (ok-ne-fuel _) (
                      if-ne-fuel (t == 0x80) (ok-ne-fuel _) (
                        if-ne-fuel (t == 0x81) (ok-ne-fuel _)
                          (if-ne-fuel (t == 0x82) (ok-ne-fuel _) (ok-ne-fuel _))))))))))))

decode_var_bind-ne-fuel : (c : Bytes) → decode_var_bind c ≢ err out_of_fuel
decode_var_bind-ne-fuel c =
    unfold decode_var_bind in
    bind-ne-fuel (read_tlv c) _ (read_tlv-ne-fuel c) λ p _.
      bind-ne-fuel (check (p.0 == tag_oid) name_not_oid) _ (check-ne-fuel _ name_not_oid (λ e. cc))
        λ _ _. bind-ne-fuel (decode_oid_content p.1) _ (decode_oid-ne-fuel p.1) λ oid _.
          bind-ne-fuel (read_tlv p.2) _ (read_tlv-ne-fuel p.2) λ q _.
            bind-ne-fuel (decode_value q.0 q.1) _ (decode_value-ne-fuel q.0 q.1)
              λ val _. ok-ne-fuel _

decode_bindings-ne-fuel :
    (fuel : ℕ) (r : Bytes) (out : List VarBind)
    → length r ≤ fuel
    → decode_bindings fuel r out ≢ err out_of_fuel
unfolding decode_bindings
decode_bindings-ne-fuel zero [] out h = ok-ne-fuel out
decode_bindings-ne-fuel zero (b ∷ bs) out h = absurd (omega arith)
decode_bindings-ne-fuel (suc fuel) [] out h = ok-ne-fuel out
decode_bindings-ne-fuel (suc fuel) (b ∷ bs) out h =
    bind-ne-fuel (read_tlv (b ∷ bs)) _ (read_tlv-ne-fuel (b ∷ bs)) λ p e.
      bind-ne-fuel (check (p.0 == tag_sequence) binding_not_sequence) _
        (check-ne-fuel _ binding_not_sequence (λ e. cc))
        λ _ _. bind-ne-fuel (decode_var_bind p.1) _ (decode_var_bind-ne-fuel p.1) λ vb _.
          decode_bindings-ne-fuel fuel p.2 (out ++ vb ∷ [])
            (omega (arith, read_tlv_takes (b ∷ bs) p.0 p.1 p.2 e))

-- A TLV and then an integer, as each number of a PDU is read.
decode_pdu-ne-fuel : (tag : ℕ) (c : Bytes) → decode_pdu tag c ≢ err out_of_fuel
decode_pdu-ne-fuel tag c =
    unfold decode_pdu in
    bind-ne-fuel (read_tlv c) _ (read_tlv-ne-fuel c) λ p _.
      bind-ne-fuel (decode_integer_content p.1) _ (decode_integer-ne-fuel p.1) λ id _.
        bind-ne-fuel (check (p.0 == tag_integer) request_id_not_integer) _
          (check-ne-fuel _ request_id_not_integer (λ e. cc))
          λ _ _. bind-ne-fuel (read_tlv p.2) _ (read_tlv-ne-fuel p.2) λ q _.
            bind-ne-fuel (decode_integer_content q.1) _ (decode_integer-ne-fuel q.1) λ n1 _.
              bind-ne-fuel (read_tlv q.2) _ (read_tlv-ne-fuel q.2) λ s _.
                bind-ne-fuel (decode_integer_content s.1) _ (decode_integer-ne-fuel s.1) λ n2 _.
                  bind-ne-fuel (read_tlv s.2) _ (read_tlv-ne-fuel s.2) λ t _.
                    bind-ne-fuel (check (t.0 == tag_sequence) bindings_not_sequence) _
                      (check-ne-fuel _ bindings_not_sequence (λ e. cc))
                      λ _ _.
                        bind-ne-fuel (decode_bindings (length t.1) t.1 []) _
                          (decode_bindings-ne-fuel (length t.1) t.1 [] (omega arith))
                          λ vbs _. ok-ne-fuel _

-- The loop over the bindings never runs out of fuel: `decodeMessage` ends on every datagram.
pub decode_message-ne-fuel : (raw : Bytes) → decode_message raw ≢ err out_of_fuel
decode_message-ne-fuel raw =
    unfold decode_message in
    bind-ne-fuel (read_tlv raw) _ (read_tlv-ne-fuel raw) λ p _.
      bind-ne-fuel (check (p.0 == tag_sequence) not_sequence) _
        (check-ne-fuel _ not_sequence (λ e. cc))
        λ _ _. bind-ne-fuel (read_tlv p.1) _ (read_tlv-ne-fuel p.1) λ q _.
          bind-ne-fuel (check (q.0 == tag_integer) version_not_integer) _
            (check-ne-fuel _ version_not_integer (λ e. cc))
            λ _ _. bind-ne-fuel (decode_integer_content q.1) _ (decode_integer-ne-fuel q.1) λ ver _.
              bind-ne-fuel (read_tlv q.2) _ (read_tlv-ne-fuel q.2) λ s _.
                bind-ne-fuel (check (s.0 == tag_octet_string) community_not_octets) _
                  (check-ne-fuel _ community_not_octets (λ e. cc))
                  λ _ _. bind-ne-fuel (read_tlv s.2) _ (read_tlv-ne-fuel s.2) λ t _.
                    bind-ne-fuel (decode_pdu t.0 t.1) _ (decode_pdu-ne-fuel t.0 t.1)
                      λ pdu _. ok-ne-fuel _

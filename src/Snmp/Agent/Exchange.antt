-- ===== src/Snmp/Agent/Exchange.antt =====
-- From datagram to datagram: what is answered, what the manager decodes, and how long it is.
use wireguardd.Base.{
  ltb, ◌==◌, Bool-cases, ltb→lt, ltb→ge, ==→eq, length, All, length-append, Bytes, bytes_eq,
  bytes_eq→eq, bytes_eq_refl, ℕ, ◌^◌, ◌≤◌, ◌<◌, ◌≡◌, refl, ap, ◌∙◌, ◌⊎◌, inl, inr, true, false,
  none, some, List, [], ◌++◌, arith,
}
use wireguardd.Snmp.Ber.{Error, Result, ok, err, tag_get_response, tag_sequence}
use wireguardd.Snmp.Ber.Encode.{wrap_tlv, encode_integer, encode_octet_string}
use wireguardd.Snmp.Ber.Sizes.{
  length-wrap_tlv-le, length-encode_integer-le, length-encode_octet_string-le,
}
use wireguardd.Snmp.Mib.{Variable}
use wireguardd.Snmp.Pdu.{
  Pdu, Message, sign_extend, encode_bindings, decode_message, encode_message, first_number,
  second_number,
}
use wireguardd.Snmp.Pdu.RoundTrip.{sign_extend-lt, IsWireMessage, decode_message-encode_message}
use wireguardd.Snmp.Agent.Wire.{IsWireLeaf, respond-IsWirePdu, response-IsWirePdu}
use wireguardd.Snmp.Agent.{err_too_big, response, respond, send, handle_message, handle_packet}

-- The datagrams that are answered.
abbrev pub IsAccepted : Bytes → Message → Type 0
IsAccepted community m = ((m.version ≡ 0) ⊎ (m.version ≡ 1)) × (m.community ≡ community)

handle_message-accepted :
    (community : Bytes) (mib : List Variable) (m : Message)
    → IsAccepted community m
    → handle_message community mib m ≡ some (send community m (respond mib m.pdu))
unfolding handle_message
handle_message-accepted community mib m (v, c) =
    let same : bytes_eq m.community community ≡ true = rw c (bytes_eq_refl community) in
    ground arith

handle_message-none :
    (community : Bytes) (mib : List Variable) (m : Message)
    → ¬ IsAccepted community m
    → handle_message community mib m ≡ none
unfolding handle_message
handle_message-none community mib m h = elim (Bool-cases (bytes_eq m.community community)) [
  | inl t ↦ go (λ v. h (v, bytes_eq→eq m.community community t))
  | inr f ↦ ground arith
]
  where
    go : ¬ ((m.version ≡ 0) ⊎ (m.version ≡ 1)) → handle_message community mib m ≡ none
    go h = elim (Bool-cases (m.version == 0)) [
      | inl z ↦ absurd (h (inl (==→eq m.version 0 z)))
      | inr z ↦ elim (Bool-cases (m.version == 1)) [
        | inl o ↦ absurd (h (inr (==→eq m.version 1 o)))
        | inr o ↦ rw (z, o)
      ]
    ]

-- A datagram is answered exactly when it decodes to a message of version 0 or 1 with the agent's
-- community, and then by `respond`; all others are dropped.
pub handle_packet-IsAccepted :
    (community : Bytes) (mib : List Variable) (raw : Bytes)
    → ((m : Message)
        → decode_message raw ≡ ok m
        → IsAccepted community m
        → handle_packet community mib raw ≡ some (send community m (respond mib m.pdu)))
      × (((m : Message) → decode_message raw ≡ ok m → ¬ IsAccepted community m)
          → handle_packet community mib raw ≡ none)
handle_packet-IsAccepted community mib raw = (answered, dropped)
  where
    by_message :
        (m : Message)
        → decode_message raw ≡ ok m
        → handle_packet community mib raw ≡ handle_message community mib m
    by_message m e = unfold handle_packet in rw (e, handle_packet)

    by_error : (x : Error) → decode_message raw ≡ err x → handle_packet community mib raw ≡ none
    by_error x e = unfold handle_packet in rw (e, handle_packet)

    answered :
        (m : Message)
        → decode_message raw ≡ ok m
        → IsAccepted community m
        → handle_packet community mib raw ≡ some (send community m (respond mib m.pdu))
    answered m e a = by_message m e ∙ handle_message-accepted community mib m a

    cases :
        (r : Result Message)
        → decode_message raw ≡ r
        → ((m : Message) → decode_message raw ≡ ok m → ¬ IsAccepted community m)
        → handle_packet community mib raw ≡ none
    cases (ok m) e h = by_message m e ∙ handle_message-none community mib m (h m e)
    cases (err x) e h = by_error x e

    dropped :
        ((m : Message) → decode_message raw ≡ ok m → ¬ IsAccepted community m)
        → handle_packet community mib raw ≡ none
    dropped h = cases (decode_message raw) refl h

abbrev answer_message : Bytes → Message → Pdu → Message
answer_message community m out = record { version = m.version; community = community; pdu = out }

-- The short response has at most 98 bytes more than the community.
length-too_big :
    (community : Bytes) (m : Message)
    → m.version < 2 ^ 64
    → m.pdu.request_id < 2 ^ 32
    → length community ≤ 60000
    → length (encode_message (answer_message community m (response m.pdu err_too_big 0 []))) ≤ 64000
length-too_big community m v r h =
    let p = response m.pdu err_too_big 0 [] in
    let b1 = encode_integer (sign_extend p.request_id) in
    let b2 = encode_integer 1 in
    let b3 = encode_integer 0 in
    let b4 : Bytes = wrap_tlv tag_sequence [] in
    let pdu = wrap_tlv tag_get_response (b1 ++ (b2 ++ (b3 ++ b4))) in
    let rest = encode_octet_string community ++ pdu in
    unfold encode_message first_number second_number encode_bindings in
    omega (
      arith,
      length-wrap_tlv-le tag_sequence (encode_integer m.version ++ rest),
      length-append (encode_integer m.version) rest,
      length-append (encode_octet_string community) pdu,
      length-wrap_tlv-le tag_get_response (b1 ++ (b2 ++ (b3 ++ b4))),
      length-append b1 (b2 ++ (b3 ++ b4)),
      length-append b2 (b3 ++ b4),
      length-append b3 b4,
      length-wrap_tlv-le tag_sequence [],
      length-encode_integer-le m.version v,
      length-encode_integer-le (sign_extend p.request_id) (sign_extend-lt p.request_id r),
      length-encode_integer-le 1 (omega arith),
      length-encode_integer-le 0 (omega arith),
      length-encode_octet_string-le community,
    )

-- What a manager sees of its request.
pub record IsAnswered (community : Bytes) (mib : List Variable) (m : Message) (resp : Bytes)
    : Type 0 where
  pub sent : handle_packet community mib (encode_message m) ≡ some resp
  pub bounded : length resp ≤ 64000
  pub decoded :
      (decode_message resp ≡ ok (answer_message community m (respond mib m.pdu)))
      ⊎ ((64000 < length (encode_message (answer_message community m (respond mib m.pdu))))
          × (decode_message resp
              ≡ ok (answer_message community m (response m.pdu err_too_big 0 []))))

-- Every well-formed request with the right community and version is answered by a datagram of at
-- most 64000 bytes that decodes to the response to its PDU, or, only if that has more than 64000
-- bytes, to the tooBig response of the same request id.
pub handle_packet-IsAnswered :
    (community : Bytes) (mib : List Variable) (m : Message)
    → IsWireMessage m
    → IsAccepted community m
    → All IsWireLeaf mib
    → length community ≤ 60000
    → IsAnswered community mib m (send community m (respond mib m.pdu))
handle_packet-IsAnswered community mib m w a leaves h =
    elim (Bool-cases (ltb 64000 (length (encode_message full)))) [
      | inl big ↦ record {
        sent = answered;
        bounded =
            at_most (ap length (send_big big)) (length-too_big community m w.version w.pdu.id h);
        decoded = inr (ltb→lt 64000 _ big, ap decode_message (send_big big) ∙ short_decodes);
      }
      | inr fits ↦ record {
        sent = answered;
        bounded = at_most (ap length (send_full fits)) (ltb→ge 64000 _ fits);
        decoded = inl (ap decode_message (send_full fits) ∙ full_decodes (ltb→ge 64000 _ fits));
      }
    ]
  where
    full : Message
    full = answer_message community m (respond mib m.pdu)

    short : Message
    short = answer_message community m (response m.pdu err_too_big 0 [])

    answered :
        handle_packet community mib (encode_message m) ≡ some (send community m (respond mib m.pdu))
    answered =
        (handle_packet-IsAccepted community mib (encode_message m)).0 m
          (decode_message-encode_message m w) a

    send_big :
        ltb 64000 (length (encode_message full)) ≡ true
        → send community m (respond mib m.pdu) ≡ encode_message short
    send_big e = unfold send in rw e

    send_full :
        ltb 64000 (length (encode_message full)) ≡ false
        → send community m (respond mib m.pdu) ≡ encode_message full
    send_full e = unfold send in rw e

    at_most : {a b n : ℕ} → a ≡ b → b ≤ n → a ≤ n
    at_most e k = omega arith

    full_decodes :
        length (encode_message full) ≤ 64000 → decode_message (encode_message full) ≡ ok full
    full_decodes k = decode_message-encode_message full (record {
      version = w.version;
      pdu = respond-IsWirePdu mib m.pdu leaves w.pdu.bound w.pdu.id;
      size = omega arith;
    })

    short_decodes : decode_message (encode_message short) ≡ ok short
    short_decodes = decode_message-encode_message short (record {
      version = w.version;
      pdu = response-IsWirePdu m.pdu err_too_big 0 [] w.pdu.id (omega arith) (omega arith) tt;
      size = omega (arith, length-too_big community m w.version w.pdu.id h);
    })

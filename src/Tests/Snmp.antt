-- ===== src/Tests/Snmp.antt =====
-- The SNMP agent on a MIB of three leaves.
use wireguardd.Base.{
  ltb→lt, ◌<◌, length, take, All, Bytes, ◌+◌, ◌-◌, ◌*◌, ◌^◌, ◌≤◌, ◌≡◌, refl, ◌≢◌, ◌↔◌, inr, true,
  false, List, [], ◌∷◌, ◌++◌, map, arith,
}
use wireguardd.Snmp.Oid.{Oid, compare_oid, is_prefix}
use wireguardd.Snmp.Oid.Order.{is_prefix_iff}
use wireguardd.Snmp.Oid.Text.{parse_oid, oid_string}
use wireguardd.Snmp.Oid.Text.RoundTrip.{parse_oid-oid_string}
use wireguardd.Snmp.Ber.{
  tag_oid, ok, err, out_of_fuel, tag_get_next_request, tag_get_bulk_request, typed, tag_null,
}
use wireguardd.Snmp.Ber.Encode.{
  encode_integer, encode_octet_string, encode_oid, encode_value, integer_content, wrap_tlv,
  encode_length,
}
use wireguardd.Snmp.Ber.Decode.{read_tlv, decode_integer_content, decode_oid_content}
use wireguardd.Snmp.Ber.Integers.{decode_integer-integer_content}
use wireguardd.Snmp.Ber.Values.{
  integer, octet, decode_oid-encode_oid, of_integer, of_octets, of_null,
}
use wireguardd.Snmp.Pdu.{
  VarBind, Pdu, Message, decode_message, encode_message, first_number, second_number, with_numbers,
}
use wireguardd.Snmp.Pdu.RoundTrip.{IsWirePdu, IsWireMessage, decode_message-encode_message}
use wireguardd.Snmp.Pdu.Total.{decode_message-ne-fuel}
use wireguardd.Snmp.Mib.{Variable, mib_get, mib_get_next}
use wireguardd.Snmp.Mib.Lookup.{IsSorted, IsNext, mib_get_next-IsNext}
use wireguardd.Snmp.Mib.Exact.{IsExact, mib_get-IsExact}
use wireguardd.Snmp.Mib.Walk.{IsStrict, IsStrict-IsSorted, walk, leaves_above, walk-leaves_above}
use wireguardd.Snmp.Agent.{
  bind_leaf, get_answer, do_get_bulk, bulk_repetitions, bulk_non_repeaters, send, respond,
}
use wireguardd.Snmp.Agent.Answers.{
  length-do_get_bulk, do_get_bulk-one, IsGetAnswer, get_answer-IsGetAnswer,
}
use wireguardd.Snmp.Agent.Wire.{IsWireLeaf}
use wireguardd.Snmp.Agent.Exchange.{IsAnswered, handle_packet-IsAnswered}

abbrev name_leaf : Variable
name_leaf = record { oid = 1 ∷ 3 ∷ 6 ∷ 1 ∷ 0 ∷ []; value = octet (b'w' ∷ b'g' ∷ []) }

abbrev port_leaf : Variable
port_leaf = record { oid = 1 ∷ 3 ∷ 6 ∷ 2 ∷ 0 ∷ []; value = integer 51820 }

abbrev count_leaf : Variable
count_leaf = record { oid = 1 ∷ 3 ∷ 6 ∷ 2 ∷ 1 ∷ []; value = integer 3 }

abbrev small_mib : List Variable
small_mib = name_leaf ∷ port_leaf ∷ count_leaf ∷ []

small_mib-IsStrict : IsStrict small_mib
unfolding compare_oid
small_mib-IsStrict = ((refl, (refl, tt)), ((refl, tt), (tt, tt)))

small_mib-IsSorted : IsSorted small_mib
small_mib-IsSorted = IsStrict-IsSorted small_mib small_mib-IsStrict

abbrev root : Oid
root = 1 ∷ 3 ∷ 6 ∷ []

abbrev asked : VarBind
asked = record { name = root; value = typed tag_null }

abbrev next_pdu : Pdu
next_pdu = record {
  type = tag_get_next_request;
  request_id = 7;
  error_status = 0;
  error_index = 0;
  non_repeaters = 0;
  max_repetitions = 0;
  is_bulk = false;
  bindings = asked ∷ [];
}

abbrev bulk_pdu : Pdu
bulk_pdu = record {
  type = tag_get_bulk_request;
  request_id = 8;
  error_status = 0;
  error_index = 0;
  non_repeaters = 0;
  max_repetitions = 2;
  is_bulk = true;
  bindings = asked ∷ [];
}

abbrev public : Bytes
public = b'p' ∷ b'u' ∷ b'b' ∷ []

abbrev next_message : Message
next_message = record { version = 1; community = public; pdu = next_pdu }

next_pdu-IsWirePdu : IsWirePdu next_pdu
unfolding first_number second_number with_numbers
next_pdu-IsWirePdu = record {
  typed = λ e. absurd (omega arith);
  id = omega arith;
  first = omega arith;
  second = omega arith;
  shape = refl;
  bound = (record { name = omega arith; value = of_null }, tt);
}

next_message_size : length (encode_message next_message) ≡ 31
unfolding encode_message wrap_tlv encode_length encode_integer encode_octet_string encode_oid
    encode_value
next_message_size = refl

next_message-IsWireMessage : IsWireMessage next_message
next_message-IsWireMessage = record {
  version = omega arith;
  pdu = next_pdu-IsWirePdu;
  size = omega (arith, next_message_size);
}

small_mib-wire : All IsWireLeaf small_mib
small_mib-wire = (
  record { name = omega arith; value = of_octets _ },
  (
    record { name = omega arith; value = of_integer _ (omega arith) },
    (record { name = omega arith; value = of_integer _ (omega arith) }, tt),
  ),
)

handle_packet-IsAnswered_example :
    IsAnswered public small_mib next_message (send public next_message (respond small_mib next_pdu))
handle_packet-IsAnswered_example =
    handle_packet-IsAnswered public small_mib next_message next_message-IsWireMessage
      (inr refl, refl) small_mib-wire (omega arith)

mib_get_next-IsNext_example : IsNext small_mib root (mib_get_next small_mib root)
mib_get_next-IsNext_example = mib_get_next-IsNext small_mib root small_mib-IsSorted

walk-leaves_above_example : walk 3 small_mib root ≡ leaves_above root small_mib
walk-leaves_above_example =
    walk-leaves_above 3 small_mib root small_mib-IsStrict
      (unfold leaves_above compare_oid in omega arith)

decode_message-encode_message_example :
    decode_message (encode_message next_message) ≡ ok next_message
decode_message-encode_message_example =
    decode_message-encode_message next_message next_message-IsWireMessage

decode_message-ne-fuel_example : decode_message (0x30 ∷ 0x02 ∷ 0x02 ∷ 0x00 ∷ []) ≢ err out_of_fuel
decode_message-ne-fuel_example = decode_message-ne-fuel (0x30 ∷ 0x02 ∷ 0x02 ∷ 0x00 ∷ [])

mib_get-IsExact_example : IsExact small_mib port_leaf.oid (mib_get small_mib port_leaf.oid)
mib_get-IsExact_example = mib_get-IsExact small_mib port_leaf.oid small_mib-IsSorted

do_get_bulk-one_example :
    do_get_bulk small_mib bulk_pdu
    ≡ map bind_leaf (take (bulk_repetitions bulk_pdu) (leaves_above root small_mib))
do_get_bulk-one_example =
    do_get_bulk-one small_mib bulk_pdu asked small_mib-IsStrict refl refl
      (unfold leaves_above compare_oid bulk_repetitions in omega arith)

length-do_get_bulk_example :
    length (do_get_bulk small_mib bulk_pdu)
    ≤ bulk_non_repeaters bulk_pdu + 100 * (1 - bulk_non_repeaters bulk_pdu)
length-do_get_bulk_example = length-do_get_bulk small_mib bulk_pdu

get_answer-IsGetAnswer_example : IsGetAnswer small_mib root (get_answer small_mib asked)
get_answer-IsGetAnswer_example = get_answer-IsGetAnswer small_mib asked small_mib-IsSorted

decode_integer-integer_content_example :
    decode_integer_content (integer_content (2 ^ 64 - 129)) ≡ ok (2 ^ 64 - 129)
decode_integer-integer_content_example = decode_integer-integer_content (2 ^ 64 - 129) (omega arith)

parse_oid-oid_string_example : parse_oid (oid_string (1 ∷ 3 ∷ 66666 ∷ [])) ≡ 1 ∷ 3 ∷ 66666 ∷ []
parse_oid-oid_string_example = parse_oid-oid_string (1 ∷ 3 ∷ 66666 ∷ []) (omega arith)

abbrev long_arc : Oid
long_arc = 1 ∷ 3 ∷ 66666 ∷ []

long_arc_size : length (encode_oid long_arc) < 2 ^ 24
unfolding encode_oid
long_arc_size = ltb→lt _ _ refl

decode_oid-encode_oid_example :
    (content : Bytes) × (read_tlv (encode_oid long_arc ++ 5 ∷ 0 ∷ [])
      ≡ ok (tag_oid, content, 5 ∷ 0 ∷ []))
    × (decode_oid_content content ≡ ok long_arc)
decode_oid-encode_oid_example =
    decode_oid-encode_oid long_arc (5 ∷ 0 ∷ []) (omega arith) long_arc_size

is_prefix_iff_example :
    (is_prefix root port_leaf.oid ≡ true) ↔ ((rest : Oid) × (port_leaf.oid ≡ root ++ rest))
is_prefix_iff_example = is_prefix_iff root port_leaf.oid

-- -129 takes two bytes, and 128 a zero in front.
integer_bytes :
    (encode_integer (2 ^ 64 - 129) ≡ 0x02 ∷ 0x02 ∷ 0xff ∷ 0x7f ∷ [])
    × (encode_integer 128 ≡ 0x02 ∷ 0x02 ∷ 0x00 ∷ 0x80 ∷ [])
unfolding encode_integer
integer_bytes = (refl, refl)

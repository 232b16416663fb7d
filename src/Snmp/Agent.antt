-- ===== src/Snmp/Agent.antt =====
-- internal/snmp/agent.go: the answer to one datagram. The MIB is the snapshot that `BuildMIB` has
-- made, and the log lines are left out. `none` is the nil response: nothing is sent.
pub mod Answers
pub mod Wire
pub mod Exchange
use wireguardd.Base.{
  ltb, leb, ◌==◌, if◌then◌else◌, length, take, drop, Bytes, bytes_eq, ℕ, zero, suc, ◌^◌, Bool, true,
  false, not, ◌&&◌, ◌||◌, Option, none, some, List, [], ◌∷◌, ◌++◌, map,
}
use wireguardd.Snmp.Oid.{Oid, is_prefix}
use wireguardd.Snmp.Ber.{
  Result, ok, err, tag_get_request, tag_get_next_request, tag_get_response, tag_set_request,
  tag_get_bulk_request, tag_no_such_object, tag_no_such_instance, tag_end_of_mib_view, Value, typed,
}
use wireguardd.Snmp.Mib.{Variable, mib_get, mib_get_next}
use wireguardd.Snmp.Pdu.{VarBind, Pdu, Message, decode_message, encode_message}

abbrev pub bind_leaf : Variable → VarBind
bind_leaf v = record { name = v.oid; value = v.value }

unfoldable pub has_prefix : List Variable → Oid → Bool
has_prefix [] oid = false
has_prefix (v ∷ vs) oid = let rest = has_prefix vs oid in if is_prefix oid v.oid then true else rest

unfoldable pub get_answer : List Variable → VarBind → VarBind
get_answer mib b = elim (mib_get mib b.name) [
  | some v ↦ bind_leaf v
  | none ↦
      if has_prefix mib b.name
      then record { name = b.name; value = typed tag_no_such_instance }
      else record { name = b.name; value = typed tag_no_such_object }
]

unfoldable pub do_get : List Variable → List VarBind → List VarBind
do_get mib req = map (get_answer mib) req

-- One step of GETNEXT: the leaf above the cursor, or the end of the view.
unfoldable pub next_answer : Oid → Option Variable → VarBind
next_answer name none = record { name = name; value = typed tag_end_of_mib_view }
next_answer name (some v) = bind_leaf v

unfoldable pub do_get_next : List Variable → List VarBind → List VarBind
unfolding next_answer
do_get_next mib req = map (λ b. next_answer b.name (mib_get_next mib b.name)) req

abbrev pub next_cursor : Oid → Option Variable → Oid
next_cursor name none = name
next_cursor name (some v) = v.oid

abbrev pub is_none : Option Variable → Bool
is_none none = true
is_none (some v) = false

-- The inner loop of the repeaters: one answer for each cursor, the moved cursors, and `allEnd`.
unfoldable pub bulk_round : List Variable → List Oid → List VarBind × List Oid × Bool
unfolding next_answer
bulk_round mib [] = ([], [], true)
bulk_round mib (c ∷ cs) =
    let (out, cursors, all_end) = bulk_round mib cs in
    let next = mib_get_next mib c in
    (next_answer c next ∷ out, next_cursor c next ∷ cursors, is_none next && all_end)

-- `for r := 0; r < maxRep; r++`, left when every cursor is at the end.
unfoldable pub bulk_rounds : ℕ → List Variable → List Oid → List VarBind
unfolding bulk_round
bulk_rounds zero mib cursors = []
bulk_rounds (suc r) mib cursors =
    let (out, cursors', all_end) = bulk_round mib cursors in
    let rest = bulk_rounds r mib cursors' in out ++ (if all_end then [] else rest)

-- `if n < 0 { n = 0 }` on the pattern of an int.
abbrev pub at_least_zero : ℕ → ℕ
at_least_zero n = if leb (2 ^ 63) n then 0 else n

unfoldable pub bulk_repetitions : Pdu → ℕ
bulk_repetitions pdu =
    let max_rep = at_least_zero pdu.max_repetitions in if ltb 100 max_rep then 100 else max_rep

unfoldable pub bulk_non_repeaters : Pdu → ℕ
bulk_non_repeaters pdu =
    let non_rep = at_least_zero pdu.non_repeaters in
    if ltb (length pdu.bindings) non_rep then length pdu.bindings else non_rep

abbrev pub is_empty {ℓ} : {A : Type ℓ} → List A → Bool
is_empty [] = true
is_empty (x ∷ xs) = false

unfoldable pub do_get_bulk : List Variable → Pdu → List VarBind
unfolding bulk_repetitions bulk_non_repeaters do_get_next bulk_rounds
do_get_bulk mib pdu =
    let non_rep = bulk_non_repeaters pdu in
    let out = do_get_next mib (take non_rep pdu.bindings) in
    let reps = drop non_rep pdu.bindings in
    if is_empty reps || bulk_repetitions pdu == 0
    then out
    else out ++ bulk_rounds (bulk_repetitions pdu) mib (map (λ b. b.name) reps)

abbrev pub err_too_big : ℕ
err_too_big = 1

abbrev pub err_gen_err : ℕ
err_gen_err = 5

abbrev pub err_not_writable : ℕ
err_not_writable = 17

-- `outPDU`: the request id and the type are set, the rest is zero but for these.
abbrev pub response : Pdu → ℕ → ℕ → List VarBind → Pdu
response req status index vbs = record {
  type = tag_get_response;
  request_id = req.request_id;
  error_status = status;
  error_index = index;
  non_repeaters = 0;
  max_repetitions = 0;
  is_bulk = false;
  bindings = vbs;
}

-- The switch of `HandlePacket`.
unfoldable pub respond : List Variable → Pdu → Pdu
unfolding do_get do_get_next do_get_bulk get_answer
respond mib req =
    if req.type == tag_get_request
    then response req 0 0 (do_get mib req.bindings)
    else if req.type == tag_get_next_request
    then response req 0 0 (do_get_next mib req.bindings)
    else if req.type == tag_get_bulk_request
    then response req 0 0 (do_get_bulk mib req)
    else if req.type == tag_set_request
    then response req err_not_writable (if is_empty req.bindings then 0 else 1) req.bindings
    else response req err_gen_err 0 req.bindings

-- The response message, and its replacement when it has more than 64000 bytes.
unfoldable pub send : Bytes → Message → Pdu → Bytes
send community msg out =
    let resp =
      encode_message (record { version = msg.version; community = community; pdu = out }) in
    let short = encode_message (record {
      version = msg.version;
      community = community;
      pdu = response msg.pdu err_too_big 0 [];
    }) in
    if ltb 64000 (length resp) then short else resp

unfoldable pub handle_message : Bytes → List Variable → Message → Option Bytes
handle_message community mib msg =
    if not (msg.version == 0) && not (msg.version == 1)
    then none
    else if not (bytes_eq msg.community community)
    then none
    else some (send community msg (respond mib msg.pdu))

unfoldable pub handle_packet : Bytes → List Variable → Bytes → Option Bytes
handle_packet community mib req = elim (decode_message req) [
  | err e ↦ none
  | ok msg ↦ handle_message community mib msg
]

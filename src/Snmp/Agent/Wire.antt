-- ===== src/Snmp/Agent/Wire.antt =====
-- Every response of the agent is a PDU that the wire can carry, if the leaves of the MIB are.
use mathlib.Core.Path.{subst}
use wireguardd.Base.{
  ◌==◌, if◌then◌else◌, Bool-cases, take, drop, All, All-append, ℕ, zero, suc, ◌^◌, ◌<◌, ◌≡◌, refl,
  sym, inl, inr, Bool, true, false, ◌||◌, Option, none, some, List, [], ◌∷◌, ◌++◌, map, arith,
}
use wireguardd.Snmp.Oid.{Oid}
use wireguardd.Snmp.Ber.{
  tag_get_request, tag_get_next_request, tag_set_request, tag_get_bulk_request,
}
use wireguardd.Snmp.Ber.Arcs.{IsArc}
use wireguardd.Snmp.Ber.Values.{
  IsWireOid, IsWire, of_no_such_object, of_no_such_instance, of_end_of_mib_view,
}
use wireguardd.Snmp.Mib.{Variable, mib_get, mib_get_next}
use wireguardd.Snmp.Pdu.{VarBind, Pdu, first_number, second_number, with_numbers}
use wireguardd.Snmp.Pdu.RoundTrip.{IsWireBinding, IsWirePdu}
use wireguardd.Snmp.Mib.Members.{All-drop, mib_get-All, mib_get_next-All}
use wireguardd.Snmp.Agent.Answers.{get_answer-leaf, get_answer-inner, get_answer-unknown}
use wireguardd.Snmp.Agent.{
  has_prefix, bulk_repetitions, bulk_non_repeaters, bind_leaf, get_answer, do_get, next_answer,
  do_get_next, next_cursor, bulk_round, bulk_rounds, do_get_bulk, is_empty, err_gen_err,
  err_not_writable, response, respond,
}

-- Every leaf can be put on the wire.
pub record IsWireLeaf (v : Variable) : Type 0 where
  pub name : IsWireOid IsArc v.oid
  pub value : IsWire v.value

bind_leaf-IsWireBinding : (v : Variable) → IsWireLeaf v → IsWireBinding (bind_leaf v)
bind_leaf-IsWireBinding v w = record { name = w.name; value = w.value }

module _ (mib : List Variable) (leaves : All IsWireLeaf mib) where
  get_answer-IsWireBinding :
      (b : VarBind) → IsWireOid IsArc b.name → IsWireBinding (get_answer mib b)
  get_answer-IsWireBinding b h = go (mib_get mib b.name) refl
    where
      go : (o : Option Variable) → mib_get mib b.name ≡ o → IsWireBinding (get_answer mib b)
      go (some v) e =
          subst IsWireBinding (sym (get_answer-leaf mib b v e))
            (bind_leaf-IsWireBinding v (mib_get-All IsWireLeaf mib b.name v leaves e))
      go none e = elim (Bool-cases (has_prefix mib b.name)) [
        | inl t ↦
            subst IsWireBinding (sym (get_answer-inner mib b e t))
              (record { name = h; value = of_no_such_instance })
        | inr f ↦
            subst IsWireBinding (sym (get_answer-unknown mib b e f))
              (record { name = h; value = of_no_such_object })
      ]

  next_answer-IsWireBinding :
      (name : Oid) (o : Option Variable)
      → mib_get_next mib name ≡ o
      → IsWireOid IsArc name
      → IsWireBinding (next_answer name o) × IsWireOid IsArc (next_cursor name o)
  unfolding next_answer
  next_answer-IsWireBinding name none e h = (record { name = h; value = of_end_of_mib_view }, h)
  next_answer-IsWireBinding name (some v) e h =
      let w = mib_get_next-All IsWireLeaf mib name v leaves e in
      (bind_leaf-IsWireBinding v w, w.name)

  do_get-wire : (bs : List VarBind) → All IsWireBinding bs → All IsWireBinding (do_get mib bs)
  unfolding do_get
  do_get-wire [] h = tt
  do_get-wire (b ∷ bs) (h, hs) = (get_answer-IsWireBinding b h.name, do_get-wire bs hs)

  do_get_next-wire :
      (bs : List VarBind) → All IsWireBinding bs → All IsWireBinding (do_get_next mib bs)
  unfolding do_get_next
  do_get_next-wire [] h = tt
  do_get_next-wire (b ∷ bs) (h, hs) = (
    (next_answer-IsWireBinding b.name (mib_get_next mib b.name) refl h.name).0,
    do_get_next-wire bs hs,
  )

  bulk_round-wire :
      (cs : List Oid)
      → All (IsWireOid IsArc) cs
      → All IsWireBinding (bulk_round mib cs).0 × All (IsWireOid IsArc) (bulk_round mib cs).1
  unfolding bulk_round
  bulk_round-wire [] h = (tt, tt)
  bulk_round-wire (c ∷ cs) (h, hs) =
      let (a, b) = next_answer-IsWireBinding c (mib_get_next mib c) refl h in
      let (as', bs') = bulk_round-wire cs hs in ((a, as'), (b, bs'))

  bulk_rounds-wire :
      (r : ℕ) (cs : List Oid) → All (IsWireOid IsArc) cs → All IsWireBinding (bulk_rounds r mib cs)
  unfolding bulk_rounds
  bulk_rounds-wire zero cs h = tt
  bulk_rounds-wire (suc r) cs h =
      let (out, cursors) = bulk_round-wire cs h in
      All-append IsWireBinding (bulk_round mib cs).0 _ out (
        All-if (bulk_round mib cs).2 (bulk_rounds r mib (bulk_round mib cs).1)
          (bulk_rounds-wire r (bulk_round mib cs).1 cursors))
    where
      All-if :
          (b : Bool) (xs : List VarBind)
          → All IsWireBinding xs
          → All IsWireBinding (if b then [] else xs)
      All-if true xs h = tt
      All-if false xs h = h

  do_get_bulk-wire :
      (req : Pdu) → All IsWireBinding req.bindings → All IsWireBinding (do_get_bulk mib req)
  unfolding do_get_bulk
  do_get_bulk-wire req h =
      joined (is_empty (drop (bulk_non_repeaters req) req.bindings) || bulk_repetitions req == 0)
        (do_get_next mib (take (bulk_non_repeaters req) req.bindings))
        (bulk_rounds (bulk_repetitions req) mib
          (map (λ (b : VarBind). b.name) (drop (bulk_non_repeaters req) req.bindings)))
        (do_get_next-wire (take (bulk_non_repeaters req) req.bindings)
          (All-take (bulk_non_repeaters req) req.bindings h))
        (bulk_rounds-wire (bulk_repetitions req) _ (
          names (drop (bulk_non_repeaters req) req.bindings)
            (All-drop IsWireBinding (bulk_non_repeaters req) req.bindings h)))
    where
      joined :
          (b : Bool) (out later : List VarBind)
          → All IsWireBinding out
          → All IsWireBinding later
          → All IsWireBinding (if b then out else out ++ later)
      joined true out later h k = h
      joined false out later h k = All-append IsWireBinding out later h k

      All-take : (n : ℕ) (bs : List VarBind) → All IsWireBinding bs → All IsWireBinding (take n bs)
      All-take zero bs h = tt
      All-take (suc n) [] h = tt
      All-take (suc n) (b ∷ bs) (h, hs) = (h, All-take n bs hs)

      names :
          (bs : List VarBind)
          → All IsWireBinding bs
          → All (IsWireOid IsArc) (map (λ (b : VarBind). b.name) bs)
      names [] h = tt
      names (b ∷ bs) (h, hs) = (h.name, names bs hs)

pub response-IsWirePdu :
    (req : Pdu) (status index : ℕ) (vbs : List VarBind)
    → req.request_id < 2 ^ 32
    → status < 2 ^ 64
    → index < 2 ^ 64
    → All IsWireBinding vbs
    → IsWirePdu (response req status index vbs)
unfolding with_numbers first_number second_number
response-IsWirePdu req status index vbs h s i b = record {
  typed = λ e. absurd (omega arith);
  id = h;
  first = s;
  second = i;
  shape = refl;
  bound = b;
}

pub respond-IsWirePdu :
    (mib : List Variable) (req : Pdu)
    → All IsWireLeaf mib
    → All IsWireBinding req.bindings
    → req.request_id < 2 ^ 32
    → IsWirePdu (respond mib req)
unfolding respond
respond-IsWirePdu mib req l b h = elim (Bool-cases (req.type == tag_get_request)) [
  | inl t ↦ rw t (
      response-IsWirePdu req 0 0 (do_get mib req.bindings) h (omega arith) (omega arith)
        (do_get-wire mib l req.bindings b))
  | inr t ↦ rw t (elim (Bool-cases (req.type == tag_get_next_request)) [
    | inl u ↦ rw u (
        response-IsWirePdu req 0 0 (do_get_next mib req.bindings) h (omega arith) (omega arith)
          (do_get_next-wire mib l req.bindings b))
    | inr u ↦ rw u (elim (Bool-cases (req.type == tag_get_bulk_request)) [
      | inl v ↦ rw v (
          response-IsWirePdu req 0 0 (do_get_bulk mib req) h (omega arith) (omega arith)
            (do_get_bulk-wire mib l req b))
      | inr v ↦ rw v (elim (Bool-cases (req.type == tag_set_request)) [
        | inl w ↦ rw w (
            response-IsWirePdu req err_not_writable (if is_empty req.bindings then 0 else 1)
              req.bindings h (omega arith) (ground arith) b)
        | inr w ↦
            rw w (response-IsWirePdu req err_gen_err 0 req.bindings h (omega arith) (omega arith) b)
      ])
    ])
  ])
]

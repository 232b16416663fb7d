-- ===== src/Snmp/Agent/Answers.antt =====
-- GET, GETNEXT and GETBULK: how many answers, and which.
use mathlib.Core.Option.{some-injective}
use mathlib.Core.Path.{subst, ap₂}
use wireguardd.Base.{
  ◌==◌, if◌then◌else◌, Bool-cases, length, get_elem?, take, drop, length-append, length-take,
  length-drop, length-map, ℕ, zero, suc, ◌+◌, ◌-◌, ◌*◌, ◌≤◌, ◌≡◌, refl, sym, ap, ◌∙◌, ◌≢◌, inl, inr,
  Bool, true, false, ◌&&◌, ◌||◌, false≢true, Option, none, some, List, [], ◌∷◌, ◌++◌, map, arith,
}
use wireguardd.Snmp.Oid.{Oid, is_prefix}
use wireguardd.Snmp.Oid.Order.{is_prefix_iff}
use wireguardd.Snmp.Ber.{tag_no_such_object, tag_no_such_instance, typed}
use wireguardd.Snmp.Mib.{Variable, mib_get, mib_get_next}
use wireguardd.Snmp.Mib.Lookup.{IsSorted}
use wireguardd.Snmp.Mib.Exact.{IsExact, mib_get-IsExact}
use wireguardd.Snmp.Mib.Walk.{IsStrict, leaves_above, and_above, leaves_above-mib_get_next}
use wireguardd.Snmp.Pdu.{VarBind, Pdu}
use wireguardd.Snmp.Agent.{
  bind_leaf, has_prefix, get_answer, next_answer, do_get_next, next_cursor, is_none, bulk_round,
  bulk_rounds, bulk_repetitions, bulk_non_repeaters, do_get_bulk, is_empty,
}

length-bulk_round :
    (mib : List Variable) (cs : List Oid)
    → (length (bulk_round mib cs).0 ≡ length cs) × (length (bulk_round mib cs).1 ≡ length cs)
unfolding bulk_round
length-bulk_round mib [] = (refl, refl)
length-bulk_round mib (c ∷ cs) = omega (arith, length-bulk_round mib cs)

length-bulk_rounds :
    (r : ℕ) (mib : List Variable) (cs : List Oid) → length (bulk_rounds r mib cs) ≤ r * length cs
unfolding bulk_rounds
length-bulk_rounds zero mib cs = omega arith
length-bulk_rounds (suc r) mib cs =
    let (out, cursors, all_end) = bulk_round mib cs in
    let (n, m) = length-bulk_round mib cs in
    grind (
      arith,
      n,
      length-append out (if all_end then [] else bulk_rounds r mib cursors),
      last all_end (bulk_rounds r mib cursors),
      subst (λ k. length (bulk_rounds r mib cursors) ≤ r * k) m (length-bulk_rounds r mib cursors),
    )
  where
    last : (b : Bool) (xs : List VarBind) → length (if b then [] else xs) ≤ length xs
    last true xs = omega arith
    last false xs = omega arith

bulk_repetitions-le : (pdu : Pdu) → bulk_repetitions pdu ≤ 100
unfolding bulk_repetitions
bulk_repetitions-le pdu = ground arith

bulk_non_repeaters-le : (pdu : Pdu) → bulk_non_repeaters pdu ≤ length pdu.bindings
unfolding bulk_non_repeaters
bulk_non_repeaters-le pdu = ground arith

-- Whatever numbers a GETBULK asks for, it is answered by at most one binding for each non-repeater
-- and a hundred for each repeater.
pub length-do_get_bulk :
    (mib : List Variable) (pdu : Pdu)
    → length (do_get_bulk mib pdu)
      ≤ bulk_non_repeaters pdu + 100 * (length pdu.bindings - bulk_non_repeaters pdu)
unfolding do_get_bulk do_get_next
length-do_get_bulk mib pdu =
    let n = bulk_non_repeaters pdu in
    let reps = drop n pdu.bindings in
    let cursors = map (λ (b : VarBind). b.name) reps in
    let out =
      map (λ (b : VarBind). next_answer b.name (mib_get_next mib b.name)) (take n pdu.bindings) in
    let later = bulk_rounds (bulk_repetitions pdu) mib cursors in
    let first : length out ≤ n = omega (
      arith,
      length-map (λ (b : VarBind). next_answer b.name (mib_get_next mib b.name))
          (take n pdu.bindings),
      length-take n pdu.bindings,
    ) in
    let second : length later ≤ bulk_repetitions pdu * length cursors =
      length-bulk_rounds (bulk_repetitions pdu) mib cursors in
    let third : length cursors ≡ length pdu.bindings - n =
      omega (arith, length-map (λ (b : VarBind). b.name) reps, length-drop n pdu.bindings) in
    let fourth : bulk_repetitions pdu * length cursors ≤ 100 * length cursors =
      grind (arith, bulk_repetitions-le pdu) in
    either (is_empty reps || bulk_repetitions pdu == 0) out later first (omega arith)
  where
    either :
        (b : Bool) (out later : List VarBind) {n k : ℕ}
        → length out ≤ n
        → length later ≤ k
        → length (if b then out else out ++ later) ≤ n + k
    either true out later h k = omega arith
    either false out later h k = omega (arith, length-append out later)

bulk_round_one :
    (mib : List Variable) (c : Oid) (o : Option Variable)
    → mib_get_next mib c ≡ o
    → bulk_round mib (c ∷ []) ≡ (next_answer c o ∷ [], next_cursor c o ∷ [], is_none o && true)
unfolding bulk_round
bulk_round_one mib c o e = rw e

bulk_rounds-take :
    (r : ℕ) (mib : List Variable) (oid : Oid)
    → IsStrict mib
    → r ≤ length (leaves_above oid mib)
    → bulk_rounds r mib (oid ∷ []) ≡ map bind_leaf (take r (leaves_above oid mib))
unfolding bulk_rounds next_answer
bulk_rounds-take zero mib oid s h = refl
bulk_rounds-take (suc r) mib oid s h =
    go (mib_get_next mib oid) refl (leaves_above-mib_get_next mib oid (mib_get_next mib oid) s refl)
      (λ v. bulk_rounds-take r mib v.oid s)
  where
    go :
        (o : Option Variable)
        → mib_get_next mib oid ≡ o
        → leaves_above oid mib ≡ and_above mib o
        → ((v : Variable)
            → r ≤ length (leaves_above v.oid mib)
            → bulk_rounds r mib (v.oid ∷ []) ≡ map bind_leaf (take r (leaves_above v.oid mib)))
        → bulk_rounds (suc r) mib (oid ∷ []) ≡ map bind_leaf (take (suc r) (leaves_above oid mib))
    go none e l ih = absurd (omega (arith, ap length l))
    go (some v) e l ih =
        rw l (rw (e, bulk_round) (ap (λ bs. bind_leaf v ∷ bs) (ih v (omega (arith, ap length l)))))

no_non_repeaters : (pdu : Pdu) → pdu.non_repeaters ≡ 0 → bulk_non_repeaters pdu ≡ 0
unfolding bulk_non_repeaters
no_non_repeaters pdu z = ground arith

-- Over leaves of distinct identifiers in order, a GETBULK of a single binding and no non-repeaters,
-- whose clamped repetitions are no more than the leaves above its name, returns the next leaves in
-- order, as many as those repetitions say.
pub do_get_bulk-one :
    (mib : List Variable) (pdu : Pdu) (b : VarBind)
    → IsStrict mib
    → pdu.bindings ≡ b ∷ []
    → pdu.non_repeaters ≡ 0
    → bulk_repetitions pdu ≤ length (leaves_above b.name mib)
    → do_get_bulk mib pdu ≡ map bind_leaf (take (bulk_repetitions pdu) (leaves_above b.name mib))
unfolding do_get_bulk
do_get_bulk-one mib pdu b s e z h =
    ap₂ plan (no_non_repeaters pdu z) e ∙ planned (bulk_repetitions pdu) h
  where
    parts : ℕ → ℕ → List VarBind → List VarBind
    parts r n bs =
        if is_empty (drop n bs) || r == 0
        then do_get_next mib (take n bs)
        else do_get_next mib (take n bs)
          ++ bulk_rounds r mib (map (λ (b : VarBind). b.name) (drop n bs))

    plan : ℕ → List VarBind → List VarBind
    plan n bs = parts (bulk_repetitions pdu) n bs

    planned :
        (r : ℕ)
        → r ≤ length (leaves_above b.name mib)
        → parts r 0 (b ∷ []) ≡ map bind_leaf (take r (leaves_above b.name mib))
    planned zero h = refl
    planned (suc r) h =
        let positive : (suc r == 0) ≡ false = ground arith in
        rw positive (bulk_rounds-take (suc r) mib b.name s h)

-- What GET owes for one name: the leaf, or that it has instances below, or that it has not.
pub data IsGetAnswer (mib : List Variable) (name : Oid) : VarBind → Type 0 where
  leaf :
      (k : ℕ) (v : Variable)
      → get_elem? mib k ≡ some v
      → v.oid ≡ name
      → IsGetAnswer mib name (bind_leaf v)
  inner :
      IsExact mib name none
      → ((k : ℕ) × (v : Variable) × (get_elem? mib k ≡ some v)
          × (rest : Oid) × (v.oid ≡ name ++ rest))
      → IsGetAnswer mib name (record { name = name; value = typed tag_no_such_instance })
  unknown :
      IsExact mib name none
      → ((k : ℕ) (v : Variable) → get_elem? mib k ≡ some v → (rest : Oid) → v.oid ≢ name ++ rest)
      → IsGetAnswer mib name (record { name = name; value = typed tag_no_such_object })

has_prefix-true :
    (mib : List Variable) (name : Oid)
    → has_prefix mib name ≡ true
    → (k : ℕ) × (v : Variable) × (get_elem? mib k ≡ some v) × (rest : Oid) × (v.oid ≡ name ++ rest)
unfolding has_prefix
has_prefix-true [] name h = cc
has_prefix-true (v ∷ vs) name h = elim (Bool-cases (is_prefix name v.oid)) [
  | inl t ↦ let (rest, e) = (is_prefix_iff name v.oid).0 t in (0, v, refl, rest, e)
  | inr f ↦
      let (k, w, e, rest, q) = has_prefix-true vs name (sym (rw f) ∙ h) in (suc k, w, e, rest, q)
]

has_prefix-false :
    (mib : List Variable) (name : Oid)
    → has_prefix mib name ≡ false
    → (k : ℕ) (v : Variable) → get_elem? mib k ≡ some v
    → (rest : Oid) → v.oid ≢ name ++ rest
unfolding has_prefix
has_prefix-false [] name h k v e rest q = cc
has_prefix-false (w ∷ vs) name h zero v e rest q =
    let t : is_prefix name w.oid ≡ true =
      (is_prefix_iff name w.oid).1
        (rest, ap (λ (z : Variable). z.oid) (some-injective _ _ e) ∙ q) in
    absurd (false≢true (sym h ∙ rw t))
has_prefix-false (w ∷ vs) name h (suc k) v e rest q =
    has_prefix-false vs name (ground arith) k v e rest q

module _ (mib : List Variable) (b : VarBind) where
  pub get_answer-leaf :
      (v : Variable) → mib_get mib b.name ≡ some v → get_answer mib b ≡ bind_leaf v
  unfolding get_answer
  get_answer-leaf v e = rw (e, get_answer)

  pub get_answer-inner :
      mib_get mib b.name ≡ none
      → has_prefix mib b.name ≡ true
      → get_answer mib b ≡ record { name = b.name; value = typed tag_no_such_instance }
  unfolding get_answer
  get_answer-inner e t = ground arith

  pub get_answer-unknown :
      mib_get mib b.name ≡ none
      → has_prefix mib b.name ≡ false
      → get_answer mib b ≡ record { name = b.name; value = typed tag_no_such_object }
  unfolding get_answer
  get_answer-unknown e t = ground arith

-- On a sorted MIB every GET answer is the one owed.
pub get_answer-IsGetAnswer :
    (mib : List Variable) (b : VarBind) → IsSorted mib → IsGetAnswer mib b.name (get_answer mib b)
get_answer-IsGetAnswer mib b s = go (mib_get mib b.name) refl (mib_get-IsExact mib b.name s)
  where
    go :
        (o : Option Variable)
        → mib_get mib b.name ≡ o
        → IsExact mib b.name o
        → IsGetAnswer mib b.name (get_answer mib b)
    go (some v) e ((k, p), q) =
        subst (IsGetAnswer mib b.name) (sym (get_answer-leaf mib b v e)) (leaf k v p q)
    go none e x = elim (Bool-cases (has_prefix mib b.name)) [
      | inl t ↦
          subst (IsGetAnswer mib b.name) (sym (get_answer-inner mib b e t))
            (inner x (has_prefix-true mib b.name t))
      | inr f ↦
          subst (IsGetAnswer mib b.name) (sym (get_answer-unknown mib b e f))
            (unknown x (has_prefix-false mib b.name f))
    ]

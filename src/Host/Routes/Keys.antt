-- ===== src/Host/Routes/Keys.antt =====
-- Sets of keys: what is kept, what is stale, and what the loop over the missing ones adds.
use wireguardd.Base.{
  Bool-cases, if-cases, text, Bytes, bytes_eq→eq, bytes_eq_refl, ℕ, ◌+◌, ◌≡◌, refl, ap, ◌∙◌, inl,
  inr, Bool, true, false, ◌&&◌, ◌||◌, false≢true, Option, none, some, List, [], ◌∷◌, ◌++◌, arith,
}
use mathlib.Core.Path.{subst}
use mathlib.Core.List.{cons≢nil}
use wireguardd.Host.Routes.{RouteKey, RuleKey, route_eq, rule_eq, has_key}
use wireguardd.Host.Routes.Sync.{kept_keys, stale_keys, Adding, note_added, add_one, add_missing}

-- A test that is equality.
pub record IsEq {K : Type 0} (eq : K → K → Bool) : Type 0 where
  pub sound : (a b : K) → eq a b ≡ true → a ≡ b
  pub eq_refl : (a : K) → eq a a ≡ true

and_true : (a b : Bool) → (a && b) ≡ true → (a ≡ true) × (b ≡ true)
and_true true b h = (refl, h)
and_true false b h = absurd (false≢true h)

pub route_eq-IsEq : IsEq route_eq
route_eq-IsEq = record { sound = of_parts; eq_refl = same }
  where
    of_parts : (a b : RouteKey) → route_eq a b ≡ true → a ≡ b
    of_parts a b h =
        let (t, h3) = and_true _ _ h in
        let (h1, h2) = and_true _ _ t in
        ap {B = RouteKey} (λ x. record { dst = x; table = a.table; proto = a.proto })
          (bytes_eq→eq a.dst b.dst h1)
        ∙ ap {B = RouteKey} (λ x. record { dst = b.dst; table = x; proto = a.proto })
            (bytes_eq→eq a.table b.table h2)
        ∙ ap {B = RouteKey} (λ x. record { dst = b.dst; table = b.table; proto = x })
            (bytes_eq→eq a.proto b.proto h3)

    same : (a : RouteKey) → route_eq a a ≡ true
    same a = rw (bytes_eq_refl a.dst, bytes_eq_refl a.table, bytes_eq_refl a.proto) refl

pub rule_eq-IsEq : IsEq rule_eq
rule_eq-IsEq = record { sound = of_parts; eq_refl = same }
  where
    of_parts : (a b : RuleKey) → rule_eq a b ≡ true → a ≡ b
    of_parts a b h =
        let (h1, h2) = and_true _ _ h in
        ap {B = RuleKey} (λ x. record { family = x; spec = a.spec })
          (bytes_eq→eq a.family b.family h1)
        ∙ ap {B = RuleKey} (λ x. record { family = b.family; spec = x })
            (bytes_eq→eq a.spec b.spec h2)

    same : (a : RuleKey) → rule_eq a a ≡ true
    same a = rw (bytes_eq_refl a.family, bytes_eq_refl a.spec) refl

module _ {K : Type 0} {eq : K → K → Bool} (law : IsEq eq) where
  eq-has_key : (j k : K) (ks : List K) → eq j k ≡ true → has_key eq j ks ≡ has_key eq k ks
  eq-has_key j k ks h = ap (λ x. has_key eq x ks) (law.sound j k h)

  pub kept_keys_lem :
      (want ks : List K) (k : K)
      → has_key eq k (kept_keys eq want ks) ≡ (has_key eq k ks && has_key eq k want)
  kept_keys_lem want [] k = refl
  kept_keys_lem want (j ∷ ks) k = ground (arith, kept_keys_lem want ks k, eq-has_key j k want)

  -- Keys that are all wanted are all kept, and none is stale.
  pub kept_keys_all :
      (want ks : List K)
      → ((k : K) → has_key eq k ks ≡ true → has_key eq k want ≡ true)
      → (kept_keys eq want ks ≡ ks) × (stale_keys eq want ks ≡ [])
  kept_keys_all want [] h = (refl, refl)
  kept_keys_all want (j ∷ ks) h =
      let (a, b) = kept_keys_all want ks (λ k e. h k (later j k e)) in
      let w = h j (first j) in (rw w (ap (λ xs. j ∷ xs) a), rw w b)
    where
      first : (j : K) → has_key eq j (j ∷ ks) ≡ true
      first j = rw (law.eq_refl j) refl

      later : (j k : K) → has_key eq k ks ≡ true → has_key eq k (j ∷ ks) ≡ true
      later j k e = ground arith

  module _ {H : Type 0} (add : K → ℕ → H → Option Bytes × H) (exists : Bytes → Bool)
      (label : K → Bytes) where
    abbrev one : K → Adding K H → Adding K H
    one k a = add_one eq add exists label k a

    abbrev all : List K → Adding K H → Adding K H
    all ks a = add_missing eq add exists label ks a

    -- What is owned after one key: what was, and at most the key; the key, or there is an error.
    record Grows (k : K) (a b : Adding K H) : Type 0 where
      stays : (j : K) → has_key eq j a.owned ≡ true → has_key eq j b.owned ≡ true
      only : (j : K) → has_key eq j b.owned ≡ true → (has_key eq j a.owned || eq k j) ≡ true
      errors_stay : b.errors ≡ [] → a.errors ≡ []
      there : b.errors ≡ [] → has_key eq k b.owned ≡ true

    own-Grows :
        (k : K) (h : H) (a : Adding K H)
        → Grows k a (record a { owned = k ∷ a.owned; prio = a.prio + 1; host = h })
    own-Grows k h a = record {
      stays = λ j e. ground arith;
      only = λ j e. ground arith;
      errors_stay = λ e. e;
      there = λ e. rw (law.eq_refl k) refl;
    }

    failed-Grows :
        (k : K) (h : H) (m : Bytes) (a : Adding K H)
        → Grows k a (record a { errors = a.errors ++ m ∷ []; host = h })
    failed-Grows k h m a = record {
      stays = λ j e. e;
      only = λ j e. ground arith;
      errors_stay = λ e. absurd (not_nil a.errors e);
      there = λ e. absurd (not_nil a.errors e);
    }
      where
        not_nil : (es : List Bytes) → ¬ (es ++ m ∷ [] ≡ [])
        not_nil [] e = cons≢nil e
        not_nil (x ∷ es) e = cons≢nil e

    note_added-Grows :
        (k : K) (r : Option Bytes × H) (a : Adding K H)
        → Grows k a (note_added eq add exists label k r a)
    note_added-Grows k (none, h) a = own-Grows k h a
    note_added-Grows k (some e, h) a =
        if-cases (Grows k a) (exists e) _ _ (λ x. own-Grows k h a)
          (λ x. failed-Grows k h (label k ++ text ": " ++ e) a)

    one-Grows : (k : K) (a : Adding K H) → Grows k a (one k a)
    one-Grows k a =
        if-cases (Grows k a) (has_key eq k a.owned) _ _
          (λ e. record {
            stays = λ j h. h;
            only = λ j h. ground arith;
            errors_stay = λ h. h;
            there = λ h. e;
          })
          (λ e. note_added-Grows k (add k a.prio a.host) a)

    pub all-stays :
        (ks : List K) (a : Adding K H) (j : K)
        → has_key eq j a.owned ≡ true
        → has_key eq j (all ks a).owned ≡ true
    all-stays [] a j h = h
    all-stays (k ∷ ks) a j h = all-stays ks (one k a) j ((one-Grows k a).stays j h)

    pub all-only :
        (ks : List K) (a : Adding K H) (j : K)
        → has_key eq j (all ks a).owned ≡ true
        → (has_key eq j a.owned || has_key eq j ks) ≡ true
    all-only [] a j h = ground arith
    all-only (k ∷ ks) a j h = combine (all-only ks (one k a) j h) ((one-Grows k a).only j)
      where
        combine :
            (has_key eq j (one k a).owned || has_key eq j ks) ≡ true
            → (has_key eq j (one k a).owned ≡ true → (has_key eq j a.owned || eq k j) ≡ true)
            → (has_key eq j a.owned || (eq k j || has_key eq j ks)) ≡ true
        combine p q =
            or_cases (has_key eq j (one k a).owned) (has_key eq j a.owned) (eq k j)
              (has_key eq j ks) p q
          where
            or_cases :
                (x b c d : Bool)
                → (x || d) ≡ true
                → (x ≡ true → (b || c) ≡ true)
                → (b || (c || d)) ≡ true
            or_cases true true c d p q = refl
            or_cases true false true d p q = refl
            or_cases true false false d p q = absurd (false≢true (q refl))
            or_cases false true c d p q = refl
            or_cases false false true d p q = refl
            or_cases false false false d p q = p

    pub all-errors : (ks : List K) (a : Adding K H) → (all ks a).errors ≡ [] → a.errors ≡ []
    all-errors [] a h = h
    all-errors (k ∷ ks) a h = (one-Grows k a).errors_stay (all-errors ks (one k a) h)

    pub all-there :
        (ks : List K) (a : Adding K H) (j : K)
        → (all ks a).errors ≡ []
        → has_key eq j ks ≡ true
        → has_key eq j (all ks a).owned ≡ true
    all-there [] a j h e = absurd (false≢true e)
    all-there (k ∷ ks) a j h e = elim (Bool-cases (eq k j)) [
      | inl c ↦ all-stays ks (one k a) j (
          subst (λ x. has_key eq x (one k a).owned ≡ true) (law.sound k j c)
            ((one-Grows k a).there (all-errors ks (one k a) h)))
      | inr c ↦ all-there ks (one k a) j h (rest c)
    ]
      where
        rest : eq k j ≡ false → has_key eq j ks ≡ true
        rest c = ground arith

    -- With every key owned, nothing is added and nothing is run.
    pub all_owned :
        (ks : List K) (a : Adding K H)
        → ((k : K) → has_key eq k ks ≡ true → has_key eq k a.owned ≡ true)
        → all ks a ≡ a
    all_owned [] a h = refl
    all_owned (k ∷ ks) a h =
        ap (all ks) (none_added (h k (rw (law.eq_refl k) refl)))
        ∙ all_owned ks a (λ j e. h j (ground arith))
      where
        none_added : has_key eq k a.owned ≡ true → one k a ≡ a
        none_added e = rw e refl

-- ===== src/Host/Routes/Owned.antt =====
-- What an interface owns after a sync of its routes, and what a second sync does.
use mathlib.Core.Path.{subst}
use mathlib.Core.List.{cons≢nil}
use mathlib.Core.Option.{none-ne-some}
use wireguardd.Base.{
  if◌then◌else◌, insert, lookup-insert, Bytes, ℕ, ◌≡◌, refl, sym, Bool, true, false, ◌&&◌, ◌||◌,
  false≢true, Option, none, List, [], ◌∷◌, ◌++◌,
}
use wireguardd.Host.{DesiredInterface}
use wireguardd.Host.Net.{Net, Runner}
use wireguardd.Host.Routes.{
  TableMode, normalize_table_mode, route_eq, rule_eq, has_key, mark_of, Wanted, nothing_wanted,
  wanted_in,
}
use wireguardd.Host.Routes.Sync.{
  wanted_for, sync_from, both_added, IfaceRoutes, RouteState, get_routes, wanted, kept_keys, Adding,
  add_missing, route_exists, rule_exists, add_route, add_rule, route_label, rule_label, sync_error,
  Synced, add_routes, add_rules, sync_wanted, sync_off, sync_mode, sync,
}
use wireguardd.Host.Routes.Keys.{
  IsEq, route_eq-IsEq, rule_eq-IsEq, kept_keys_lem, all-only, all-there,
}

-- Two sets with the same keys, and one within the other.
abbrev pub Same : {K : Type 0} → (K → K → Bool) → List K → List K → Type 0
Same {K} eq xs ys = (k : K) → has_key eq k xs ≡ has_key eq k ys

abbrev pub Within : {K : Type 0} → (K → K → Bool) → List K → List K → Type 0
Within {K} eq xs ys = (k : K) → has_key eq k xs ≡ true → has_key eq k ys ≡ true

module _ {K : Type 0} {eq : K → K → Bool} (law : IsEq eq) {H : Type 0}
    (add : K → ℕ → H → Option Bytes × H) (exists : Bytes → Bool) (label : K → Bytes) where
  abbrev after : List K → List K → ℕ → H → Adding K H
  after owned want prio h =
      add_missing eq add exists label want
        (record { owned = kept_keys eq want owned; prio = prio; errors = []; host = h })

  after-Within :
      (owned want : List K) (prio : ℕ) (h : H) → Within eq (after owned want prio h).owned want
  after-Within owned want prio h k e =
      only_wanted (all-only law add exists label want _ k e) (kept_keys_lem law want owned k)
    where
      only_wanted :
          (has_key eq k (kept_keys eq want owned) || has_key eq k want) ≡ true
          → has_key eq k (kept_keys eq want owned) ≡ (has_key eq k owned && has_key eq k want)
          → has_key eq k want ≡ true
      only_wanted p q = by_bools _ (has_key eq k owned) (has_key eq k want) p q
        where
          by_bools : (x y z : Bool) → (x || z) ≡ true → x ≡ (y && z) → z ≡ true
          by_bools x y true p q = refl
          by_bools true true false p q = absurd (false≢true (sym q))
          by_bools true false false p q = absurd (false≢true (sym q))
          by_bools false y false p q = p

  pub after-Same :
      (owned want : List K) (prio : ℕ) (h : H)
      → (after owned want prio h).errors ≡ []
      → Same eq (after owned want prio h).owned want
  after-Same owned want prio h e k =
      both _ _ (after-Within owned want prio h k) (all-there law add exists label want _ k e)
    where
      both : (x y : Bool) → (x ≡ true → y ≡ true) → (y ≡ true → x ≡ true) → x ≡ y
      both true y p q = sym (p refl)
      both false true p q = q refl
      both false false p q = refl

sync_error-nil : (es : List Bytes) → sync_error es ≡ none → es ≡ []
unfolding sync_error
sync_error-nil [] e = refl
sync_error-nil (x ∷ es) e = absurd (none-ne-some _ (sym e))

append_nil : (xs ys : List Bytes) → xs ++ ys ≡ [] → (xs ≡ []) × (ys ≡ [])
append_nil [] ys e = (refl, e)
append_nil (x ∷ xs) ys e = absurd (cons≢nil e)

-- What a sync promises of the interface's routes and rules: they are wanted, and they are all that is
-- wanted if there was no error.
pub record Owns (want : Wanted) (error : Option Bytes) (st : IfaceRoutes) : Type 0 where
  pub routes_wanted : Within route_eq st.routes want.routes
  pub rules_wanted : Within rule_eq st.rules want.rules
  pub all_routes : error ≡ none → Same route_eq st.routes want.routes
  pub all_rules : error ≡ none → Same rule_eq st.rules want.rules

pub get_routes-insert :
    (name : Bytes) (st : IfaceRoutes) (s : RouteState) → get_routes name (insert name st s) ≡ st
get_routes-insert name st s = rw (get_routes, lookup-insert name st s) refl

module _ {H : Type 0} (run : Runner H) where
  abbrev Promises : Bytes → Wanted → Synced H → Type 0
  Promises name want r = Owns want r.error (get_routes name r.state)

  pub sync_wanted-Owns :
      (name : Bytes) (mark : ℕ) (w : Wanted) (s : RouteState) (h : H)
      → Promises name w (sync_wanted run name mark w s h)
  unfolding sync_wanted sync_from both_added add_routes add_rules
  sync_wanted-Owns name mark w s h = subst (Owns w _) (sym (get_routes-insert name _ s)) (record {
    routes_wanted =
        after-Within route_eq-IsEq (λ k n h. add_route run name k h) route_exists route_label
          (get_routes name s).routes w.routes 0 _;
    rules_wanted =
        after-Within rule_eq-IsEq (add_rule run) rule_exists rule_label (get_routes name s).rules
          w.rules 32764 _;
    all_routes = λ e.
        after-Same route_eq-IsEq (λ k n h. add_route run name k h) route_exists route_label
          (get_routes name s).routes w.routes 0 _ (append_nil _ _ (sync_error-nil _ e)).0;
    all_rules = λ e.
        after-Same rule_eq-IsEq (add_rule run) rule_exists rule_label (get_routes name s).rules
          w.rules 32764 _ (append_nil _ _ (sync_error-nil _ e)).1;
  })

  sync_off-Owns :
      (name : Bytes) (s : RouteState) (h : H) → Promises name nothing_wanted (sync_off run name s h)
  unfolding sync_off
  sync_off-Owns name s h =
      subst (Owns nothing_wanted none) (sym (get_routes-insert name _ s)) (record {
        routes_wanted = λ k e. e;
        rules_wanted = λ k e. e;
        all_routes = λ e k. refl;
        all_rules = λ e k. refl;
      })

  -- After a sync, every route and rule that an interface owns is wanted; if there was no error, it
  -- owns exactly what is wanted, which is nothing while it is off.
  pub sync-Owns :
      (net : Net) (d : DesiredInterface) (s : RouteState) (h : H)
      → Owns
          (wanted net d)
          (sync run net d s h).error
          (get_routes d.name (sync run net d s h).state)
  unfolding sync sync_mode wanted wanted_for
  sync-Owns net d s h = by_mode (normalize_table_mode d.table_mode)
    where
      on :
          (w : Wanted) (b : Bool)
          → Promises d.name
              (if b then w else nothing_wanted)
              (if b then sync_wanted run d.name (mark_of d) w s h else sync_off run d.name s h)
      on w true = sync_wanted-Owns d.name (mark_of d) w s h
      on w false = sync_off-Owns d.name s h

      by_mode : (m : TableMode) → Promises d.name (wanted_for net m d) (sync_mode run net m d s h)
      by_mode TableMode.off = sync_off-Owns d.name s h
      by_mode TableMode.auto = on (wanted_in net TableMode.auto d) d.enabled
      by_mode TableMode.number = on (wanted_in net TableMode.number d) d.enabled

-- ===== src/Host/Routes/Again.antt =====
-- A sync that follows one without an error finds nothing to do.
use wireguardd.Base.{
  insert-insert, if◌then◌else◌, insert, Bytes, ℕ, ◌≡◌, sym, ap, ◌∙◌, Bool, true, false, none, [],
}
use wireguardd.Host.{DesiredInterface}
use wireguardd.Host.Net.{Net, Runner}
use wireguardd.Host.Routes.{
  TableMode, normalize_table_mode, route_eq, rule_eq, mark_of, Wanted, wanted_in,
}
use wireguardd.Host.Routes.Sync.{
  IfaceRoutes, RouteState, get_routes, kept_keys, stale_keys, route_exists, rule_exists, add_route,
  add_rule, del_route, del_rule, run_del, route_label, rule_label, sync_error, without_stale,
  both_added, sync_from, Synced, add_routes, add_rules, sync_wanted, sync_off, sync_mode, sync,
  tear_down,
}
use wireguardd.Host.Routes.Keys.{route_eq-IsEq, rule_eq-IsEq, kept_keys_all, all_owned}
use wireguardd.Host.Routes.Owned.{Same, Owns, sync_wanted-Owns, get_routes-insert}

module _ {H : Type 0} (run : Runner H) where
  without_stale_done :
      (name : Bytes) (w : Wanted) (st : IfaceRoutes) (h : H)
      → stale_keys route_eq w.routes st.routes ≡ []
      → stale_keys rule_eq w.rules st.rules ≡ []
      → without_stale run name w st h ≡ h
  unfolding without_stale run_del
  without_stale_done name w st h a b =
      ap
        (λ ks.
          run_del run (del_rule run) ks
            (run_del run (del_route run name) (stale_keys route_eq w.routes st.routes) h))
        b
      ∙ ap (λ ks. run_del run (del_route run name) ks h) a

  -- With exactly the wanted keys owned, a sync runs nothing.
  sync_from_done :
      (name : Bytes) (mark : ℕ) (w : Wanted) (s : RouteState) (h : H) (st : IfaceRoutes)
      → Same route_eq st.routes w.routes
      → Same rule_eq st.rules w.rules
      → sync_from run name mark w st s h
        ≡ record { error = none; state = insert name (record st { fwmark = mark }) s; host = h }
  unfolding sync_from add_routes add_rules both_added sync_error
  sync_from_done name mark w s h st p q =
      let (a, b) = kept_keys_all route_eq-IsEq w.routes st.routes (λ k e. sym (p k) ∙ e) in
      let (c, d) = kept_keys_all rule_eq-IsEq w.rules st.rules (λ k e. sym (q k) ∙ e) in
      let routes : add_routes run name (kept_keys route_eq w.routes st.routes) w.routes
            (without_stale run name w st h)
          ≡ record { owned = st.routes; prio = 0; errors = []; host = h } =
        ap (λ ks. add_routes run name ks w.routes (without_stale run name w st h)) a
        ∙ ap (add_routes run name st.routes w.routes) (without_stale_done name w st h b d)
        ∙ all_owned route_eq-IsEq (λ k n h. add_route run name k h) route_exists route_label
            w.routes _ (λ k e. p k ∙ e) in
      let rules : add_rules run (kept_keys rule_eq w.rules st.rules) w.rules h
          ≡ record { owned = st.rules; prio = 32764; errors = []; host = h } =
        ap (λ ks. add_rules run ks w.rules h) c
        ∙ all_owned rule_eq-IsEq (add_rule run) rule_exists rule_label w.rules _ (λ k e. q k ∙ e) in
      ap
        (λ x.
          both_added run name mark x
            (add_rules run (kept_keys rule_eq w.rules st.rules) w.rules x.host) s)
        routes
      ∙ ap
          (λ x.
            both_added run name mark (record { owned = st.routes; prio = 0; errors = []; host = h })
              x s)
          rules

  sync_wanted_again :
      (name : Bytes) (mark : ℕ) (w : Wanted) (s : RouteState) (h : H)
      → (sync_wanted run name mark w s h).error ≡ none
      → sync_wanted run name mark w
          (sync_wanted run name mark w s h).state
          (sync_wanted run name mark w s h).host
        ≡ sync_wanted run name mark w s h
  unfolding sync_wanted sync_from both_added
  sync_wanted_again name mark w s h e =
      let r = sync_wanted run name mark w s h in
      let g = get_routes name r.state in
      let o : Owns w r.error g = sync_wanted-Owns run name mark w s h in
      sync_from_done name mark w r.state r.host g (o.all_routes e) (o.all_rules e)
      ∙ ap {B = Synced H}
          (λ x. record {
            error = x;
            state = insert name (record g { fwmark = mark }) r.state;
            host = r.host;
          })
          (sym e)
      ∙ ap {A = IfaceRoutes} {B = Synced H}
          (λ x. record {
            error = r.error;
            state = insert name (record x { fwmark = mark }) r.state;
            host = r.host;
          })
          (get_routes-insert name _ s)
      ∙ ap {B = Synced H} (λ x. record { error = r.error; state = x; host = r.host })
          (insert-insert name _ _ s)

  sync_off_again :
      (name : Bytes) (s : RouteState) (h : H)
      → sync_off run name (sync_off run name s h).state (sync_off run name s h).host
        ≡ sync_off run name s h
  unfolding sync_off tear_down run_del
  sync_off_again name s h =
      let st : IfaceRoutes = record (get_routes name s) { routes = []; rules = [] } in
      let host = (sync_off run name s h).host in
      ap {A = IfaceRoutes} {B = Synced H}
        (λ x. record {
          error = none;
          state = insert name (record x { routes = []; rules = [] }) (insert name st s);
          host = tear_down run name x host;
        })
        (get_routes-insert name st s)
      ∙ ap {B = Synced H} (λ x. record { error = none; state = x; host = host })
          (insert-insert name st st s)

  -- A sync that had no error is done: the same sync again runs no command and changes nothing.
  pub sync-sync :
      (net : Net) (d : DesiredInterface) (s : RouteState) (h : H)
      → (sync run net d s h).error ≡ none
      → sync run net d (sync run net d s h).state (sync run net d s h).host ≡ sync run net d s h
  unfolding sync sync_mode
  sync-sync net d s h e = by_mode (normalize_table_mode d.table_mode) e
    where
      again : Synced H → (RouteState → H → Synced H) → Type 0
      again r f = r.error ≡ none → f r.state r.host ≡ r

      on :
          (w : Wanted) (b : Bool)
          → again
              (if b then sync_wanted run d.name (mark_of d) w s h else sync_off run d.name s h)
              (λ s h.
                if b then sync_wanted run d.name (mark_of d) w s h else sync_off run d.name s h)
      on w true = sync_wanted_again d.name (mark_of d) w s h
      on w false = λ e. sync_off_again d.name s h

      by_mode :
          (m : TableMode) → again (sync_mode run net m d s h) (λ s h. sync_mode run net m d s h)
      by_mode TableMode.off = λ e. sync_off_again d.name s h
      by_mode TableMode.auto = on (wanted_in net TableMode.auto d) d.enabled
      by_mode TableMode.number = on (wanted_in net TableMode.number d) d.enabled

-- ===== src/Host/Blackholes/Safe.antt =====
-- The commands that suspending a peer may run.
use mathlib.Core.List.{reverse-append}
use wireguardd.Base.{
  ends_with, starts_with, if◌then◌else◌, if-cases, All, text, trim_space, has_byte, starts_with,
  is_blank, reverse, Bytes, ℕ, ◌≡◌, refl, sym, ap, ◌∙◌, ◌⊎◌, inl, inr, Bool, true, false, not, ◌||◌,
  false≢true, Option, none, some, List, [], ◌∷◌, ◌++◌, arith,
}
use wireguardd.Host.{DesiredPeer}
use wireguardd.Host.Net.{Ip, Cidr, Net, Runner}
use wireguardd.Host.Blackholes.{
  parse_error, Listing, is_host_sized, keep_host_sized, host_sized_ips, suspended_ips, list4, list6,
  blackhole_args, Blackholed, stale, blackhole_route_missing, command_result, run_blackhole,
  unless_missing, change_blackhole, unchanged, host_cidr_of, change_bare, blackhole_cidr,
  blackhole_all, apply_suspend_routes,
}

-- `ip` with the arguments that list the blackhole routes, or that add one, or delete one, whose
-- destination is written with /32 or /128 at its end.
abbrev pub IsHarmless : Bool → Bytes → List Bytes → Type 0
IsHarmless add name args =
    (name ≡ text "ip")
    × (((args ≡ list4) ⊎ (args ≡ list6))
        ⊎ ((cidr : Bytes) × (args
              ≡ blackhole_args (if add then text "replace" else text "del") cidr)
            × (is_host_sized cidr ≡ true)))

-- Of a host, what no such command breaks.
abbrev pub IsKept : {H : Type 0} → Bool → Runner H → (H → Type 0) → Type 0
IsKept {H} add run P =
    (name : Bytes) (args : List Bytes) (h : H)
    → IsHarmless add name args
    → P h
    → P (run name args h).1

-- What `net.ParseCIDR` accepts has a slash.
abbrev pub NeedsSlash : Net → Type 0
NeedsSlash net = (a : Bytes) (c : Cidr) → net.parse_cidr a ≡ some c → has_byte b'/' a ≡ true

starts_with-append : (s t : Bytes) → starts_with (s ++ t) s ≡ true
unfolding starts_with
starts_with-append [] t = refl
starts_with-append (c ∷ cs) t = ground (arith, starts_with-append cs t)

ends_with-append : (s t : Bytes) → ends_with (s ++ t) t ≡ true
unfolding ends_with
ends_with-append s t =
    ap (λ r. starts_with r (reverse t)) (reverse-append s t)
    ∙ starts_with-append (reverse t) (reverse s)

host_cidr_of-is_host_sized : (ip : Ip) → is_host_sized (host_cidr_of ip) ≡ true
unfolding is_host_sized
host_cidr_of-is_host_sized ip =
    if-cases
      (λ s.
        (ends_with (ip.string ++ s) (text "/32") || ends_with (ip.string ++ s) (text "/128"))
        ≡ true)
      ip.is_v4 (text "/32") (text "/128") (λ e. rw (ends_with-append ip.string (text "/32")) refl)
      (λ e.
        or_right (ends_with (ip.string ++ text "/128") (text "/32")) _
          (ends_with-append ip.string (text "/128")))
  where
    or_right : (a b : Bool) → b ≡ true → (a || b) ≡ true
    or_right true b h = refl
    or_right false b h = h

-- A destination that is chosen has no slash, or ends in /32 or /128.
abbrev Chosen : Bytes → Type 0
Chosen a = (has_byte b'/' a ≡ false) ⊎ (is_host_sized a ≡ true)

host_sized_ips-Chosen : (as' : List Bytes) → All Chosen (host_sized_ips as')
unfolding host_sized_ips keep_host_sized
host_sized_ips-Chosen [] = tt
host_sized_ips-Chosen (a ∷ as') =
    kept (trim_space a) (host_sized_ips as') (host_sized_ips-Chosen as')
  where
    kept : (a : Bytes) (out : List Bytes) → All Chosen out → All Chosen (keep_host_sized a out)
    kept a out h =
        if-cases (All Chosen) (is_blank a) _ _ (λ e. h)
          (λ e.
            if-cases (All Chosen) (not (has_byte b'/' a) || is_host_sized a) (a ∷ out) out
              (λ k. (by_test (has_byte b'/' a) (is_host_sized a) k, h)) (λ k. h))
      where
        by_test : (x y : Bool) → (not x || y) ≡ true → (x ≡ false) ⊎ (y ≡ true)
        by_test false y k = inl refl
        by_test true y k = inr k

suspended_ips-Chosen : (p : DesiredPeer) → All Chosen (suspended_ips p)
unfolding suspended_ips
suspended_ips-Chosen p =
    by_assigned (host_sized_ips p.assigned_ips) (host_sized_ips-Chosen p.assigned_ips)
  where
    by_assigned :
        (ips : List Bytes)
        → All Chosen ips
        → All Chosen (elim ips [ [] ↦ host_sized_ips p.allowed_ips | ip ∷ more ↦ ip ∷ more ])
    by_assigned [] h = host_sized_ips-Chosen p.allowed_ips
    by_assigned (ip ∷ more) h = h

module _ {H : Type 0} (run : Runner H) (now : ℕ) (P : H → Type 0) where
  command_result-kept :
      (add : Bool) (kept : IsKept add run P) (cidr : Bytes) (e : Option Bytes) (l : Listing) (h : H)
      → P h
      → P (command_result run now add cidr e l h).host
  unfolding command_result
  command_result-kept add kept cidr none l h p = p
  command_result-kept add kept cidr (some e) l h p = p

  run_blackhole-kept :
      (add : Bool) (kept : IsKept add run P) (cidr : Bytes) (l : Listing) (h : H)
      → is_host_sized cidr ≡ true
      → P h
      → P (run_blackhole run now add cidr l h).host
  unfolding run_blackhole
  run_blackhole-kept add kept cidr l h s p = command_result-kept add kept cidr _ l _ (
      kept (text "ip") (blackhole_args (if add then text "replace" else text "del") cidr) h
        (refl, inr (cidr, refl, s)) p)

  missing-kept :
      (add : Bool) (kept : IsKept add run P) (cidr : Bytes) (l : Listing) (h : H)
      → P h
      → P (blackhole_route_missing run now cidr l h).2
  unfolding blackhole_route_missing
  missing-kept add kept cidr l h p =
      if-cases {A = Bool × Listing × H} (λ r. P r.2) (stale now l) _ _
        (λ e.
          kept (text "ip") list6 _ (refl, inl (inr refl))
            (kept (text "ip") list4 h (refl, inl (inl refl)) p))
        (λ e. p)

  unless_missing-kept :
      (kept : IsKept false run P) (cidr : Bytes) (missing : Bool) (l : Listing) (h : H)
      → is_host_sized cidr ≡ true
      → P h
      → P (unless_missing run now cidr (missing, l, h)).host
  unfolding unless_missing
  unless_missing-kept kept cidr true l h s p = p
  unless_missing-kept kept cidr false l h s p = run_blackhole-kept false kept cidr l h s p

  change_blackhole-kept :
      (add : Bool) (kept : IsKept add run P) (cidr : Bytes) (l : Listing) (h : H)
      → is_host_sized cidr ≡ true
      → P h
      → P (change_blackhole run now add cidr l h).host
  unfolding change_blackhole
  change_blackhole-kept true kept cidr l h s p = run_blackhole-kept true kept cidr l h s p
  change_blackhole-kept false kept cidr l h s p =
      unless_missing-kept kept cidr _ _ _ s (missing-kept false kept cidr l h p)

  module _ (net : Net) (law : NeedsSlash net) where
    change_bare-kept :
        (add : Bool) (kept : IsKept add run P) (o : Option Ip) (l : Listing) (h : H)
        → P h
        → P (change_bare run now net add o l h).host
    unfolding change_bare
    change_bare-kept add kept none l h p = p
    change_bare-kept add kept (some ip) l h p = by_cidr (net.parse_cidr (host_cidr_of ip))
      where
        by_cidr :
            (o : Option Cidr)
            → P
                (elim o as (λ x. Blackholed H) [
                  | none ↦ unchanged run now (some (parse_error (host_cidr_of ip))) l h
                  | some c ↦ change_blackhole run now add (host_cidr_of ip) l h
                ]).host
        by_cidr none = p
        by_cidr (some c) =
            change_blackhole-kept add kept (host_cidr_of ip) l h (host_cidr_of-is_host_sized ip) p

    blackhole_cidr-kept :
        (add : Bool) (kept : IsKept add run P) (cidr : Bytes) (l : Listing) (h : H)
        → Chosen cidr
        → P h
        → P (blackhole_cidr run now net cidr add l h).host
    unfolding blackhole_cidr
    blackhole_cidr-kept add kept cidr l h c p = by_cidr (net.parse_cidr cidr) (law cidr)
      where
        host_sized :
            (b : Bool)
            → b ≡ true
            → (b ≡ false) ⊎ (is_host_sized cidr ≡ true)
            → is_host_sized cidr ≡ true
        host_sized b e (inl n) = absurd (false≢true (sym n ∙ e))
        host_sized b e (inr y) = y

        by_cidr :
            (o : Option Cidr)
            → ((x : Cidr) → o ≡ some x → has_byte b'/' cidr ≡ true)
            → P
                (elim o as (λ x. Blackholed H) [
                  | some x ↦ change_blackhole run now add cidr l h
                  | none ↦ change_bare run now net add (net.parse_ip cidr) l h
                ]).host
        by_cidr none k = change_bare-kept add kept (net.parse_ip cidr) l h p
        by_cidr (some x) k =
            change_blackhole-kept add kept cidr l h (host_sized (has_byte b'/' cidr) (k x refl) c) p

    blackhole_all-kept :
        (add : Bool) (kept : IsKept add run P) (ips : List Bytes) (l : Listing) (h : H)
        → All Chosen ips
        → P h
        → P (blackhole_all run now net ips add l h).host
    unfolding blackhole_all
    blackhole_all-kept add kept [] l h c p = p
    blackhole_all-kept add kept (ip ∷ ips) l h (c, cs) p =
        by_error (blackhole_cidr run now net ip add l h).error
          (λ q. blackhole_all-kept add kept ips r.listing r.host cs q)
      where
        r : Blackholed H
        r = blackhole_cidr run now net ip add l h

        first : P r.host
        first = blackhole_cidr-kept add kept ip l h c p

        by_error :
            (e : Option Bytes)
            → (P r.host → P (blackhole_all run now net ips add r.listing r.host).host)
            → P
                (elim e as (λ x. Blackholed H) [
                  | some x ↦ r
                  | none ↦ blackhole_all run now net ips add r.listing r.host
                ]).host
        by_error (some x) k = first
        by_error none k = k first

    -- Whatever holds of the host still holds after a peer is suspended, if it survives every listing
    -- of blackhole routes and every addition of one; and after it is resumed, if it survives the
    -- listings and every deletion of one; it need survive those only whose destination is written with
    -- /32 or /128 at its end. No other command runs. What ParseCIDR accepts must have a slash.
    pub apply_suspend_routes-kept :
        (p : DesiredPeer) (suspend : Bool) (l : Listing) (h : H)
        → IsKept suspend run P
        → P h
        → P (apply_suspend_routes run now net p suspend l h).host
    unfolding apply_suspend_routes
    apply_suspend_routes-kept p suspend l h kept k =
        blackhole_all-kept suspend kept (suspended_ips p) l h (suspended_ips-Chosen p) k

-- ===== src/Netutil/Free.antt =====
-- What AllocateNextHost returns.
use mathlib.Core.Path.{subst}
use wireguardd.Base.{
  ltb, ◌==◌, if◌then◌else◌, contains, Bytes, bytes_eq, ℕ, zero, suc, ◌^◌, ◌≡◌, refl, sym, ◌∙◌, Bool,
  true, false, not, ◌&&◌, ◌||◌, false≢true, List, [], ◌∷◌, ◌++◌, map, arith,
}
use wireguardd.Host.Net.{Cidr, Net}
use wireguardd.Netutil.{
  last_ipv4, inc_ip, Scan, Allocated, is_free, scan_v4, scan_v6, scan_subnet, mark_used, subnets_of,
  v4_first, of_family, allocate_result, allocate_from, unless_empty, allocate_next_host,
}

-- Whether an address lies in one of some networks.
abbrev pub is_inside : Net → Bytes → List Cidr → Bool
is_inside net ip [] = false
is_inside net ip (c ∷ cs) = net.in_net c ip || is_inside net ip cs

-- A host that is returned: not used, not the address of the interface itself, and in one of its
-- networks.
pub record IsFree (net : Net) (cs : List Cidr) (used : List Bytes) (s : Bytes) : Type 0 where
  pub unused : contains s used ≡ false
  pub not_own : contains s (map (λ c. c.ip.string) cs) ≡ false
  pub inside : (ip : Bytes) × (s ≡ net.string_of ip) × (is_inside net ip cs ≡ true)

abbrev AllFree : (Bytes → Type 0) → Allocated → Type 0
AllFree P (Allocated.allocated s cidr) = P s
AllFree P _ = Unit {0}

or_right : (a b : Bool) → b ≡ true → (a || b) ≡ true
or_right true b h = refl
or_right false b h = h

module _ (net : Net) where
  mark_used-split :
      (cs : List Cidr) (used : List Bytes) (s : Bytes)
      → contains s (mark_used net cs used) ≡ false
      → (contains s used ≡ false) × (contains s (map (λ c. c.ip.string) cs) ≡ false)
  mark_used-split [] used s h = (h, refl)
  mark_used-split (c ∷ cs) used s h =
      let (a, b) = mark_used-split cs (c.ip.string ∷ used) s h in
      by_first (bytes_eq c.ip.string s) (contains s used) (contains s (map (λ c. c.ip.string) cs)) a
        b
    where
      by_first : (x y z : Bool) → (x || y) ≡ false → z ≡ false → (y ≡ false) × ((x || z) ≡ false)
      by_first true y z a b = absurd (false≢true (sym a))
      by_first false y z a b = (a, b)

  module _ (used : List Bytes) where
    -- What a scan finds is free.
    abbrev FoundFree : Cidr → Scan → Type 0
    FoundFree c (Scan.found ip) = is_free net used c ip ≡ true
    FoundFree c _ = Unit {0}

    by_test :
        (c : Cidr) (ip : Bytes) (rest : Scan) (b : Bool)
        → is_free net used c ip ≡ b
        → FoundFree c rest
        → FoundFree c (elim b as (λ x. Scan) [ true ↦ Scan.found ip | false ↦ rest ])
    by_test c ip rest true e h = e
    by_test c ip rest false e h = h

    scan_v4-FoundFree :
        (fuel : ℕ) (c : Cidr) (broadcast ip : Bytes)
        → FoundFree c (scan_v4 net used fuel c broadcast ip)
    unfolding scan_v4
    scan_v4-FoundFree zero c broadcast ip = tt
    scan_v4-FoundFree (suc fuel) c broadcast ip = by_end _ (bytes_eq ip broadcast) (
        by_test c ip (scan_v4 net used fuel c broadcast (inc_ip ip)) (is_free net used c ip) refl
          (scan_v4-FoundFree fuel c broadcast (inc_ip ip)))
      where
        by_end :
            (rest : Scan) (b : Bool)
            → FoundFree c rest
            → FoundFree c (elim b as (λ x. Scan) [ true ↦ Scan.exhausted | false ↦ rest ])
        by_end rest true h = tt
        by_end rest false h = h

    scan_v6-FoundFree : (n : ℕ) (c : Cidr) (ip : Bytes) → FoundFree c (scan_v6 net used n c ip)
    unfolding scan_v6
    scan_v6-FoundFree zero c ip = tt
    scan_v6-FoundFree (suc n) c ip =
        by_test c ip (scan_v6 net used n c (inc_ip ip)) (is_free net used c ip) refl
          (scan_v6-FoundFree n c (inc_ip ip))

    scan_subnet-FoundFree : (c : Cidr) → FoundFree c (scan_subnet net used c)
    unfolding scan_subnet
    scan_subnet-FoundFree c =
        let v4 = scan_v4 net used (2 ^ 32) c (last_ipv4 c.network c.mask) (inc_ip c.network) in
        let v6 = scan_v6 net used 4096 c (inc_ip c.network) in
        let in_v4 = if ltb 30 c.ones then Scan.exhausted else v4 in
        let in_v6 = if ltb 126 c.ones then Scan.exhausted else v6 in
        either in_v4 (if c.bits == 128 then in_v6 else Scan.exhausted) (c.bits == 32)
          (either Scan.exhausted v4 (ltb 30 c.ones) tt
            (scan_v4-FoundFree (2 ^ 32) c (last_ipv4 c.network c.mask) (inc_ip c.network)))
          (either in_v6 Scan.exhausted (c.bits == 128)
            (either Scan.exhausted v6 (ltb 126 c.ones) tt
              (scan_v6-FoundFree 4096 c (inc_ip c.network)))
            tt)
      where
        either :
            (x y : Scan) (b : Bool)
            → FoundFree c x
            → FoundFree c y
            → FoundFree c (if b then x else y)
        either x y true h k = h
        either x y false h k = k

    abbrev IsHost : List Cidr → Bytes → Type 0
    IsHost cs s =
        (contains s used ≡ false)
        × ((ip : Bytes) × (s ≡ net.string_of ip) × (is_inside net ip cs ≡ true))

    AllFree-later :
        (c : Cidr) (cs : List Cidr) (r : Allocated)
        → AllFree (IsHost cs) r
        → AllFree (IsHost (c ∷ cs)) r
    AllFree-later c cs Allocated.no_addresses h = tt
    AllFree-later c cs Allocated.no_free_host h = tt
    AllFree-later c cs (Allocated.allocated s p) (u, (ip, e, i)) =
        (u, (ip, e, or_right (net.in_net c ip) (is_inside net ip cs) i))

    allocate_from-IsHost : (cs : List Cidr) → AllFree (IsHost cs) (allocate_from net used cs)
    unfolding allocate_from
    allocate_from-IsHost [] = tt
    allocate_from-IsHost (c ∷ cs) =
        by_scan (scan_subnet net used c) (scan_subnet-FoundFree c) (allocate_from-IsHost cs)
      where
        parts : (x y z : Bool) → (x && not y) ≡ true → ((x || z) ≡ true) × (y ≡ false)
        parts true false z e = (refl, refl)
        parts true true z e = absurd (false≢true e)
        parts false y z e = absurd (false≢true e)

        by_scan :
            (r : Scan)
            → FoundFree c r
            → AllFree (IsHost cs) (allocate_from net used cs)
            → AllFree (IsHost (c ∷ cs)) (allocate_result net used c r (allocate_from net used cs))
        by_scan (Scan.found ip) f h =
            let (a, b) =
              parts (net.in_net c ip) (contains (net.string_of ip) used) (is_inside net ip cs) f in
            (b, (ip, refl, a))
        by_scan Scan.exhausted f h = AllFree-later c cs (allocate_from net used cs) h
        by_scan Scan.out_of_fuel f h = AllFree-later c cs (allocate_from net used cs) h

  is_inside-append :
      (ip : Bytes) (xs ys : List Cidr)
      → is_inside net ip (xs ++ ys) ≡ (is_inside net ip xs || is_inside net ip ys)
  is_inside-append ip [] ys = refl
  is_inside-append ip (x ∷ xs) ys = ground (arith, is_inside-append ip xs ys)

  is_inside-of_family :
      (ip : Bytes) (b : Bool) (cs : List Cidr)
      → is_inside net ip (of_family net b cs) ≡ true
      → is_inside net ip cs ≡ true
  is_inside-of_family ip b [] h = h
  is_inside-of_family ip b (c ∷ cs) h =
      by_test_of (if b then c.ip.is_v4 else not c.ip.is_v4) (is_inside-of_family ip b cs) h
    where
      by_test_of :
          (t : Bool)
          → (is_inside net ip (of_family net b cs) ≡ true → is_inside net ip cs ≡ true)
          → is_inside net ip (if t then c ∷ of_family net b cs else of_family net b cs) ≡ true
          → (net.in_net c ip || is_inside net ip cs) ≡ true
      by_test_of true k h = weaken (net.in_net c ip) _ _ k h
        where
          weaken : (x y z : Bool) → (y ≡ true → z ≡ true) → (x || y) ≡ true → (x || z) ≡ true
          weaken true y z k h = refl
          weaken false y z k h = k h
      by_test_of false k h = or_right (net.in_net c ip) (is_inside net ip cs) (k h)

  -- Sorting keeps the networks.
  is_inside-v4_first :
      (ip : Bytes) (cs : List Cidr)
      → is_inside net ip (v4_first net cs) ≡ true
      → is_inside net ip cs ≡ true
  unfolding v4_first
  is_inside-v4_first ip cs h =
      by_either _ _ (sym (is_inside-append ip (of_family net true cs) (of_family net false cs)) ∙ h)
        (is_inside-of_family ip true cs) (is_inside-of_family ip false cs)
    where
      by_either :
          (x y : Bool) {z : Bool}
          → (x || y) ≡ true
          → (x ≡ true → z ≡ true)
          → (y ≡ true → z ≡ true)
          → z ≡ true
      by_either true y e k l = k refl
      by_either false y e k l = l e

-- A host that is allocated is neither used nor the address of the interface, and lies in one of its
-- networks.
pub allocate_next_host-IsFree :
    (net : Net) (iface_addrs used : List Bytes) (s cidr : Bytes)
    → allocate_next_host net iface_addrs used ≡ Allocated.allocated s cidr
    → IsFree net (subnets_of net iface_addrs) used s
unfolding allocate_next_host
allocate_next_host-IsFree net iface_addrs used s cidr e =
    let cs = subnets_of net iface_addrs in
    let h : AllFree (IsFree net cs used) (allocate_next_host net iface_addrs used) =
      unfold allocate_next_host in
      kept cs (allocate_from net (mark_used net cs used) (v4_first net cs))
        (allocate_from-IsHost net (mark_used net cs used) (v4_first net cs)) in
    subst (AllFree (IsFree net cs used)) e h
  where
    kept :
        (cs : List Cidr) (r : Allocated)
        → AllFree
            (IsHost net
              (mark_used net (subnets_of net iface_addrs) used)
              (v4_first net (subnets_of net iface_addrs)))
            r
        → AllFree (IsFree net (subnets_of net iface_addrs) used) (unless_empty net cs r)
    kept [] r h = tt
    kept (c ∷ cs) Allocated.no_addresses h = tt
    kept (c ∷ cs) Allocated.no_free_host h = tt
    kept (c ∷ cs) (Allocated.allocated t p) (u, (ip, e, i)) =
        let (a, b) = mark_used-split net (subnets_of net iface_addrs) used t u in
        record {
          unused = a;
          not_own = b;
          inside = (ip, e, is_inside-v4_first net ip (subnets_of net iface_addrs) i);
        }

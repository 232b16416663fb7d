-- ===== src/Netutil/Scans.antt =====
-- The scan of an IPv4 network: it ends, with the first free host if there is one.
use mathlib.Core.Path.{subst}
use wireguardd.Base.{
  ge→ltb, eq→==, length, Bytes, bytes_eq, bytes_eq→eq, bytes_eq_refl, bit_or-byte, ℕ, zero, suc,
  ◌+◌, ◌-◌, ◌^◌, ◌≤◌, ◌<◌, ◌≡◌, refl, sym, ap, ◌∙◌, ◌⊎◌, inl, inr, Bool, true, false, List, [], ◌∷◌,
  arith,
}
use wireguardd.Host.Net.{Cidr, Net}
use wireguardd.Netutil.{inc_ip, last_ipv4, Scan, is_free, scan_v4, scan_subnet}
use wireguardd.Netutil.Values.{
  IsIp, value, value-inc_ip, inc_ip-IsIp, length-inc_ip, value-injective, value-bound,
}

-- The address k after ip.
abbrev pub host_after : Bytes → ℕ → Bytes
host_after ip zero = ip
host_after ip (suc k) = host_after (inc_ip ip) k

module _ (net : Net) (used : List Bytes) (c : Cidr) where
  -- Of the d hosts from ip on, the scan finds the first free one, or none is free.
  abbrev pub Settles : Bytes → ℕ → Scan → Type 0
  Settles ip d r =
      ((k : ℕ) × (r ≡ Scan.found (host_after ip k))
        × (k < d)
        × (is_free net used c (host_after ip k) ≡ true)
        × ((j : ℕ) → j < k → is_free net used c (host_after ip j) ≡ false))
      ⊎ ((r ≡ Scan.exhausted) × ((j : ℕ) → j < d → is_free net used c (host_after ip j) ≡ false))

  later-Settles :
      (ip : Bytes) (d : ℕ) (r : Scan)
      → is_free net used c ip ≡ false
      → Settles (inc_ip ip) d r
      → Settles ip (suc d) r
  later-Settles ip d r n (inl (k, e, l, f, before)) =
      inl (suc k, e, omega arith, f, λ j m. earlier j m)
    where
      earlier : (j : ℕ) → j < suc k → is_free net used c (host_after ip j) ≡ false
      earlier zero m = n
      earlier (suc j) m = before j (omega arith)
  later-Settles ip d r n (inr (e, none_free)) = inr (e, λ j m. earlier j m)
    where
      earlier : (j : ℕ) → j < suc d → is_free net used c (host_after ip j) ≡ false
      earlier zero m = n
      earlier (suc j) m = none_free j (omega arith)

  -- One turn of the loop.
  scan_turn :
      (fuel : ℕ) (broadcast ip : Bytes) (d : ℕ)
      → bytes_eq ip broadcast ≡ false
      → Settles (inc_ip ip) d (scan_v4 net used fuel c broadcast (inc_ip ip))
      → Settles ip (suc d) (scan_v4 net used (suc fuel) c broadcast ip)
  unfolding scan_v4
  scan_turn fuel broadcast ip d e s =
      subst (Settles ip (suc d)) (sym (rw (scan_v4, e) refl)) (by_free (is_free net used c ip) refl)
    where
      next : Scan
      next = scan_v4 net used fuel c broadcast (inc_ip ip)

      by_free :
          (b : Bool)
          → is_free net used c ip ≡ b
          → Settles ip (suc d) (elim b as (λ x. Scan) [ true ↦ Scan.found ip | false ↦ next ])
      by_free true f = inl (0, refl, omega arith, f, λ j m. absurd (omega arith))
      by_free false f = later-Settles ip d next f s

  scan_end :
      (fuel : ℕ) (broadcast ip : Bytes)
      → bytes_eq ip broadcast ≡ true
      → Settles ip 0 (scan_v4 net used (suc fuel) c broadcast ip)
  unfolding scan_v4
  scan_end fuel broadcast ip e = inr (rw (scan_v4, e) refl, λ j m. absurd (omega arith))

  -- With fuel for more than d turns.
  scan_v4-Settles :
      (d fuel : ℕ) (broadcast ip : Bytes)
      → IsIp ip
      → IsIp broadcast
      → length ip ≡ length broadcast
      → value broadcast ≡ value ip + d
      → d < fuel
      → Settles ip d (scan_v4 net used fuel c broadcast ip)
  scan_v4-Settles d zero broadcast ip h k l e f = absurd (omega arith)
  scan_v4-Settles zero (suc fuel) broadcast ip h k l e f = scan_end fuel broadcast ip (
      subst (λ x. bytes_eq ip x ≡ true) (value-injective ip broadcast h k l (omega arith))
        (bytes_eq_refl ip))
  scan_v4-Settles (suc d) (suc fuel) broadcast ip h k l e f =
      scan_turn fuel broadcast ip d (differ (bytes_eq ip broadcast) refl) (
        scan_v4-Settles d fuel broadcast (inc_ip ip) (inc_ip-IsIp ip h) k (length-inc_ip ip ∙ l)
          (omega (arith, value-inc_ip ip (room (value-bound broadcast k)))) (omega arith))
    where
      differ : (b : Bool) → bytes_eq ip broadcast ≡ b → bytes_eq ip broadcast ≡ false
      differ true x = absurd (omega (arith, ap value (bytes_eq→eq ip broadcast x)))
      differ false x = x

      room : value broadcast < 256 ^ length broadcast → value ip + 1 < 256 ^ length ip
      room b = rw l (omega arith)

last_ipv4-IsIp : (ip mask : Bytes) → IsIp ip → IsIp mask → IsIp (last_ipv4 ip mask)
unfolding last_ipv4
last_ipv4-IsIp [] mask h k = tt
last_ipv4-IsIp (b ∷ bs) [] h k = h
last_ipv4-IsIp (b ∷ bs) (m ∷ ms) (h, hs) (k, ks) =
    (bit_or-byte b (255 - m) h (omega arith), last_ipv4-IsIp bs ms hs ks)

length-last_ipv4 : (ip mask : Bytes) → length (last_ipv4 ip mask) ≡ length ip
unfolding last_ipv4
length-last_ipv4 [] mask = refl
length-last_ipv4 (b ∷ bs) [] = refl
length-last_ipv4 (b ∷ bs) (m ∷ ms) = ap suc (length-last_ipv4 bs ms)

-- An IPv4 network with room for hosts, as ParseCIDR returns it: four bytes of address and mask, and
-- host bits that are all zero.
pub record IsPool (c : Cidr) : Type 0 where
  pub four_bits : c.bits ≡ 32
  pub short_mask : c.ones ≤ 30
  pub network_bytes : IsIp c.network
  pub mask_bytes : IsIp c.mask
  pub four_bytes : length c.network ≡ 4
  pub has_hosts : value c.network < value (last_ipv4 c.network c.mask)

-- The hosts of a network: the addresses after its own, before its last.
abbrev pub host_count : Cidr → ℕ
host_count c = value (last_ipv4 c.network c.mask) - value c.network - 1

-- The scan of an IPv4 network ends without running out of fuel: it finds the first free one of its
-- hosts, which are the addresses after the network's own and before the broadcast address, or none
-- of them is free. The network is as ParseCIDR returns it, of at most 30 bits.
pub scan_subnet-Settles :
    (net : Net) (used : List Bytes) (c : Cidr)
    → IsPool c
    → Settles net used c (inc_ip c.network) (host_count c) (scan_subnet net used c)
unfolding scan_subnet
scan_subnet-Settles net used c h =
    let last : IsIp (last_ipv4 c.network c.mask) =
      last_ipv4-IsIp c.network c.mask h.network_bytes h.mask_bytes in
    let size : length (last_ipv4 c.network c.mask) ≡ length c.network =
      length-last_ipv4 c.network c.mask in
    let top : value (last_ipv4 c.network c.mask) < 2 ^ 32 = below _ last (size ∙ h.four_bytes) in
    let next : value (inc_ip c.network) ≡ value c.network + 1 =
      value-inc_ip c.network (rw h.four_bytes (omega (arith, h.has_hosts))) in
    rw (eq→== c.bits 32 h.four_bits, ge→ltb 30 c.ones h.short_mask)
      (scan_v4-Settles net used c (host_count c) (2 ^ 32) (last_ipv4 c.network c.mask)
        (inc_ip c.network) (inc_ip-IsIp c.network h.network_bytes) last
        (length-inc_ip c.network ∙ sym size) (omega (arith, h.has_hosts)) (omega arith))
  where
    below : (ip : Bytes) → IsIp ip → length ip ≡ 4 → value ip < 2 ^ 32
    below ip k e = omega (arith, at_four k e)
      where
        at_four : IsIp ip → length ip ≡ 4 → value ip < 4294967296
        at_four k e = subst (λ n. value ip < 256 ^ n) e (value-bound ip k)

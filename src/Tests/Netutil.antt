-- ===== src/Tests/Netutil.antt =====
-- The interface 10.0.0.1/30: its other host is the next one.
use wireguardd.Base.{ltb→lt, text, ◌+◌, ◌≡◌, refl, true, none, some, [], ◌∷◌, arith}
use wireguardd.Host.Net.{Cidr, Net}
use wireguardd.Netutil.{inc_ip, last_ipv4, scan_subnet, subnets_of, allocate_next_host}
use wireguardd.Netutil.Values.{value, value-inc_ip}
use wireguardd.Netutil.Scans.{Settles, IsPool, host_count, scan_subnet-Settles}
use wireguardd.Netutil.Free.{IsFree, allocate_next_host-IsFree}

abbrev pool : Cidr
pool = record {
  ip = record { is_v4 = true; string = 10 ∷ 0 ∷ 0 ∷ 1 ∷ [] };
  net_is_v4 = true;
  ones = 30;
  bits = 32;
  network = 10 ∷ 0 ∷ 0 ∷ 0 ∷ [];
  mask = 255 ∷ 255 ∷ 255 ∷ 252 ∷ [];
}

abbrev lab_net : Net
lab_net = record {
  parse_ip = λ a. none;
  parse_cidr = λ a. some pool;
  string_of = λ ip. ip;
  in_net = λ c ip. true;
}

abbrev pool-IsPool : IsPool pool
unfolding value last_ipv4
pool-IsPool = record {
  four_bits = refl;
  short_mask = omega arith;
  network_bytes = (omega arith, (omega arith, (omega arith, (omega arith, tt))));
  mask_bytes = (omega arith, (omega arith, (omega arith, (omega arith, tt))));
  four_bytes = refl;
  has_hosts = ltb→lt _ _ refl;
}

scan_subnet-Settles_example :
    Settles lab_net
      ((10 ∷ 0 ∷ 0 ∷ 1 ∷ []) ∷ [])
      pool
      (inc_ip (10 ∷ 0 ∷ 0 ∷ 0 ∷ []))
      (host_count pool)
      (scan_subnet lab_net ((10 ∷ 0 ∷ 0 ∷ 1 ∷ []) ∷ []) pool)
scan_subnet-Settles_example =
    scan_subnet-Settles lab_net ((10 ∷ 0 ∷ 0 ∷ 1 ∷ []) ∷ []) pool pool-IsPool

allocate_next_host-IsFree_example :
    IsFree lab_net (subnets_of lab_net (text "10.0.0.1/30" ∷ [])) [] (10 ∷ 0 ∷ 0 ∷ 2 ∷ [])
allocate_next_host-IsFree_example =
    allocate_next_host-IsFree lab_net (text "10.0.0.1/30" ∷ []) [] (10 ∷ 0 ∷ 0 ∷ 2 ∷ [])
      (10 ∷ 0 ∷ 0 ∷ 2 ∷ text "/32") (unfold allocate_next_host in refl)

value-inc_ip_example : value (inc_ip (10 ∷ 0 ∷ 0 ∷ 255 ∷ [])) ≡ value (10 ∷ 0 ∷ 0 ∷ 255 ∷ []) + 1
value-inc_ip_example = value-inc_ip (10 ∷ 0 ∷ 0 ∷ 255 ∷ []) (unfold value in ltb→lt _ _ refl)

-- ===== src/Tests/Limits.antt =====
-- Class numbers, rates and the commands for one peer, of a host that logs what it runs.
use wireguardd.Base.{text, ◌≡◌, refl, []}
use wireguardd.Host.Limits.{
  allocate_minor, peer_minor_hint, fnv32a, format_tc_rate, format_tc_burst, set_owner,
}
use wireguardd.Host.Limits.Minors.{IsAllotted, allocate_minor-IsAllotted}

hint_of_a : peer_minor_hint (text "a") ≡ 0xe40c292c
unfolding peer_minor_hint fnv32a
hint_of_a = refl

rate_of_mbits : format_tc_rate 25000000 ≡ text "25mbit"
unfolding format_tc_rate
rate_of_mbits = refl

smallest_burst : format_tc_burst 8000 ≡ text "3200"
unfolding format_tc_burst
smallest_burst = refl

-- The first number that the key is offered is another peer's.
allocate_minor-IsAllotted_example :
    IsAllotted
      (set_owner 0x8a3 (text "b") [])
      (text "a")
      (allocate_minor (set_owner 0x8a3 (text "b") []) (text "a"))
allocate_minor-IsAllotted_example =
    allocate_minor-IsAllotted (set_owner 0x8a3 (text "b") []) (text "a")

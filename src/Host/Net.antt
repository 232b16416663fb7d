-- ===== src/Host/Net.antt =====
-- What internal/wgbackend and internal/netutil use of package net, and Runner of exec.go. Both are
-- parameters of the model.
use wireguardd.Base.{Bytes, ℕ, Bool, Option, List}

-- A `net.IP`: whether `To4` is not nil, and its `String`.
pub record Ip : Type 0 where
  pub is_v4 : Bool
  pub string : Bytes

-- The results of `net.ParseCIDR`: the address, whether the network's `To4` is not nil, the size of
-- its mask, and the bytes of the network's address and mask.
pub record Cidr : Type 0 where
  pub ip : Ip
  pub net_is_v4 : Bool
  pub ones : ℕ
  pub bits : ℕ
  pub network : Bytes
  pub mask : Bytes

-- `ParseIP` and `ParseCIDR`, where `none` is nil, or an error; `IP.String`; `IPNet.Contains`.
pub record Net : Type 0 where
  pub parse_ip : Bytes → Option Ip
  pub parse_cidr : Bytes → Option Cidr
  pub string_of : Bytes → Bytes
  pub in_net : Cidr → Bytes → Bool

-- What a program prints, and the text of its error.
pub record Output : Type 0 where
  pub output : Bytes
  pub error : Option Bytes

-- `Runner.Run` over a state of the host.
abbrev pub Runner : Type 0 → Type 0
Runner H = Bytes → List Bytes → H → Output × H

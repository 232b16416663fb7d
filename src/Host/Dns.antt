-- ===== src/Host/Dns.antt =====
-- internal/wgbackend/dns_apply.go: how a `DNS=` list is split.
use wireguardd.Base.{
  ◌==◌, if◌then◌else◌, trim_space, is_blank, contains, Bytes, Bool, Option, none, some, List, [],
  ◌∷◌, ◌++◌,
}

pub record DnsConfig : Type 0 where
  pub servers : List Bytes
  pub domains : List Bytes

-- What stands before the last `]`; `none` if there is none.
before_last : Bytes → Option Bytes
before_last [] = none
before_last (c ∷ cs) =
    let rest = before_last cs in
    elim rest [ some s ↦ some (c ∷ s) | none ↦ if c == b']' then some [] else none ]

-- `strings.TrimPrefix(e, "~")`
trim_tilde : Bytes → Bytes
trim_tilde [] = []
trim_tilde (c ∷ cs) = if c == b'~' then cs else c ∷ cs

-- Package net: the host of "host:port" (`none` is an error), and whether a text is an address.
module _ (split_host_port : Bytes → Option Bytes) (is_ip : Bytes → Bool) where
  unfoldable pub dns_host : Bytes → Bytes
  unfolding before_last
  dns_host [] = []
  dns_host (c ∷ cs) =
      if c == b'['
      then elim (before_last cs) [ some h ↦ h | none ↦ c ∷ cs ]
      else elim (split_host_port (c ∷ cs)) [ some h ↦ h | none ↦ c ∷ cs ]

  -- One turn of the loop.
  unfoldable pub add_dns : Bytes → DnsConfig → DnsConfig
  unfolding trim_space trim_tilde dns_host
  add_dns entry cfg =
      let e = trim_space entry in
      let d = trim_tilde e in
      if is_blank e
      then cfg
      else if is_ip (dns_host e)
      then (if contains e cfg.servers then cfg else record cfg { servers = cfg.servers ++ e ∷ [] })
      else if contains d cfg.domains
      then cfg
      else record cfg { domains = cfg.domains ++ d ∷ [] }

  dns_from : DnsConfig → List Bytes → DnsConfig
  unfolding add_dns
  dns_from cfg [] = cfg
  dns_from cfg (e ∷ es) = dns_from (add_dns e cfg) es

  -- `ParseDNSList`
  unfoldable pub parse_dns_list : List Bytes → DnsConfig
  unfolding dns_from
  parse_dns_list es = dns_from (record { servers = []; domains = [] }) es

-- ===== src/Host/Limits/Bandwidth.antt =====
-- internal/wgbackend/tc_limits.go: the methods of HostBackend for bandwidth, by its backend.
use wireguardd.Base.{
  if◌then◌else◌, text, is_blank, Map, remove, Bytes, bytes_eq, Bool, true, false, ◌||◌, Option,
  none, some, List, [], ◌∷◌, ◌++◌,
}
use wireguardd.Host.{DesiredPeer}
use wireguardd.Host.Net.{Net, Runner}
use wireguardd.Host.Limits.Nft.{IfaceNft}
use wireguardd.Host.Limits.Tc.{IfaceTc, tc_quietly}
use wireguardd.Host.Limits.Sync.{sync_tc}
use wireguardd.Host.Limits.Table.{nft_delete_table, sync_nft}

-- The fields of `HostBackend` for bandwidth; a state that is nil is empty.
pub record Bandwidth : Type 0 where
  pub backend : Bytes
  pub tc : Map IfaceTc
  pub nft : Map IfaceNft

-- What a method leaves.
abbrev pub Shaped : Type 0 → Type 0
Shaped H = Option Bytes × Bandwidth × H

-- Of a backend that has no character to escape.
abbrev pub unsupported : Bytes → Bytes
unsupported backend =
    text "unsupported bandwidth_backend \"" ++ backend ++ text "\" (supported: tc, nft, none)"

abbrev pub del_discipline : Bytes → Bytes → List Bytes
del_discipline iface which = text "qdisc" ∷ text "del" ∷ text "dev" ∷ iface ∷ which ∷ []

module _ {H : Type 0} (run : Runner H) (net : Net) where
  -- `clearInterfaceTCOnly`
  unfoldable pub clear_interface_tc_only : Bytes → Bandwidth → H → Bandwidth × H
  clear_interface_tc_only iface b h = (
    record b { tc = remove iface b.tc },
    tc_quietly run (del_discipline iface (text "ingress"))
        (tc_quietly run (del_discipline iface (text "root")) h),
  )

  -- `clearInterfaceNFT`
  unfoldable pub clear_interface_nft : Bytes → Bandwidth → H → Bandwidth × H
  unfolding nft_delete_table
  clear_interface_nft iface b h =
      let (e, h') = nft_delete_table run iface h in (record b { nft = remove iface b.nft }, h')

  -- `clearInterfaceTC`
  unfoldable pub clear_interface_tc : Bytes → Bandwidth → H → Bandwidth × H
  unfolding clear_interface_tc_only clear_interface_nft
  clear_interface_tc iface b h =
      let (b', h') = clear_interface_tc_only iface b h in clear_interface_nft iface b' h'

  abbrev pub shape_tc : Bytes → List DesiredPeer → Bool → Bandwidth × H → Shaped H
  unfolding sync_tc
  shape_tc iface peers full (b, h) =
      let (e, tc, h') = sync_tc run net iface peers full b.tc h in (e, record b { tc = tc }, h')

  abbrev pub shape_nft : Bytes → List DesiredPeer → Bool → Bandwidth × H → Shaped H
  unfolding sync_nft
  shape_nft iface peers full (b, h) =
      let (e, nft, h') = sync_nft run net iface peers full b.nft h in
      (e, record b { nft = nft }, h')

  -- The switch of both methods, by what the backend is to do.
  abbrev pub by_backend : Bandwidth → H → Shaped H → Shaped H → Shaped H
  by_backend b h on_tc on_nft =
      if bytes_eq b.backend (text "none") || is_blank b.backend
      then (none, b, h)
      else if bytes_eq b.backend (text "tc")
      then on_tc
      else if bytes_eq b.backend (text "nft")
      then on_nft
      else (some (unsupported b.backend), b, h)

  -- `SyncBandwidth`, which clears what the other backend has left.
  unfoldable pub host_sync_bandwidth : Bytes → List DesiredPeer → Bandwidth → H → Shaped H
  unfolding shape_tc shape_nft clear_interface_nft clear_interface_tc_only
  host_sync_bandwidth iface peers b h =
      by_backend b h (shape_tc iface peers true (clear_interface_nft iface b h))
        (shape_nft iface peers true (clear_interface_tc_only iface b h))

  -- `ApplyBandwidth`
  unfoldable pub host_apply_bandwidth : Bytes → DesiredPeer → Bandwidth → H → Shaped H
  unfolding shape_tc shape_nft
  host_apply_bandwidth iface p b h =
      by_backend b h (shape_tc iface (p ∷ []) false (b, h)) (shape_nft iface (p ∷ []) false (b, h))

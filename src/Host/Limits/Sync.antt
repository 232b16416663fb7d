-- ===== src/Host/Limits/Sync.antt =====
-- internal/wgbackend/tc_limits.go: tcState.sync, which gives each peer of an interface its limits.
use wireguardd.Base.{
  if◌then◌else◌, text, join, Map, lookup, insert, remove, ◌==◌, Bytes, ℕ, Bool, true, false, not,
  ◌&&◌, ◌||◌, Option, none, some, List, [], ◌∷◌, ◌++◌,
}
use wireguardd.Host.{DesiredPeer}
use wireguardd.Host.Net.{Net, Runner}
use wireguardd.Host.Limits.{
  PeerTc, same_strings, short_key, peer_host_ips, set_owner, delete_minor, allocate_minor,
}
use wireguardd.Host.Limits.Tc.{
  IfaceTc, iface_tc, Limited, is_limited, ensure_root_htb, ensure_ingress, clear_peer_tc,
  apply_peer_tc,
}

-- `desired`: the last of the peers with a key.
unfoldable pub desired_from : List DesiredPeer → Map DesiredPeer → Map DesiredPeer
desired_from [] m = m
desired_from (p ∷ ps) m = desired_from ps (insert p.public_key p m)

-- `needClear`
unfoldable pub need_clear : Bool → Option DesiredPeer → Bool → Bool
need_clear full none active = full && active
need_clear full (some p) active = not (is_limited p) && active

-- The limits that a peer is to have, on a class.
abbrev pub wanted_tc : ℕ → List Bytes → DesiredPeer → PeerTc
wanted_tc minor ips p = record {
  minor = minor;
  tx_bps = p.bandwidth_tx_bps;
  rx_bps = p.bandwidth_rx_bps;
  ips = ips;
  active = true;
}

-- Whether the limits applied are those wanted.
unfoldable pub is_current : List Bytes → DesiredPeer → Option PeerTc → Bool
is_current ips p none = false
is_current ips p (some prev) =
    prev.active
    && ((prev.tx_bps == p.bandwidth_tx_bps)
        && ((prev.rx_bps == p.bandwidth_rx_bps) && same_strings prev.ips ips))

abbrev pub any_limit : List DesiredPeer → Bool
any_limit [] = false
any_limit (p ∷ ps) = is_limited p || any_limit ps

abbrev pub without_peer : Bytes → ℕ → IfaceTc → IfaceTc
without_peer key minor st = record st {
  minors = delete_minor minor st.minors;
  peers = remove key st.peers;
}

abbrev pub with_peer : Bytes → PeerTc → IfaceTc → IfaceTc
with_peer key state st = record st {
  minors = set_owner state.minor key st.minors;
  peers = insert key state st.peers;
}

-- The peer whose limits are about to be replaced: it stays, inactive.
abbrev pub released : Bytes → PeerTc → IfaceTc → IfaceTc
released key prev st = record st {
  minors = delete_minor prev.minor st.minors;
  peers = insert key (record prev { active = false }) st.peers;
}

unfoldable pub peer_error : Bytes → Bytes → Bytes
unfolding short_key
peer_error key what = text "peer " ++ short_key key ++ text ": " ++ what

abbrev pub no_host_match : Bytes
no_host_match = text "no host-sized assigned/allowed IPs for TC match"

abbrev pub tc_sync_error : List Bytes → Option Bytes
unfolding join
tc_sync_error [] = none
tc_sync_error (e ∷ es) = some (text "tc sync: " ++ join (text "; ") (e ∷ es))

module _ {H : Type 0} (run : Runner H) (net : Net) (name : Bytes) where
  -- Clears the peers that are gone or have no limit.
  unfoldable pub clear_gone : Bool → Map DesiredPeer → Map PeerTc → IfaceTc → H → IfaceTc × H
  unfolding need_clear clear_peer_tc
  clear_gone full desired [] st h = (st, h)
  clear_gone full desired ((key, prev) ∷ rest) st h =
      if need_clear full (lookup key desired) prev.active
      then clear_gone full desired rest (without_peer key prev.minor st)
          (clear_peer_tc run name prev h)
      else clear_gone full desired rest st h

  -- Clears what a peer had before it is given new limits.
  unfoldable pub release : Bytes → Option PeerTc → IfaceTc → H → IfaceTc × H
  unfolding clear_peer_tc
  release key none st h = (st, h)
  release key (some prev) st h =
      if prev.active then (released key prev st, clear_peer_tc run name prev h) else (st, h)

  -- A failure clears what was applied of it, and frees its class.
  unfoldable pub settle_peer :
      Bytes → PeerTc → IfaceTc → Option Bytes × H → List Bytes × IfaceTc × H
  unfolding clear_peer_tc peer_error
  settle_peer key state st (none, h) = ([], with_peer key state st, h)
  settle_peer key state st (some e, h) = (
    peer_error key e ∷ [],
    record st { minors = delete_minor state.minor st.minors },
    clear_peer_tc run name state h,
  )

  unfoldable pub apply_new : List Bytes → DesiredPeer → IfaceTc × H → List Bytes × IfaceTc × H
  unfolding settle_peer apply_peer_tc allocate_minor
  apply_new ips p (st, h) =
      let state = wanted_tc (allocate_minor st.minors p.public_key) ips p in
      settle_peer p.public_key state st (apply_peer_tc run net name state h)

  unfoldable pub sync_found : List Bytes → DesiredPeer → IfaceTc → H → List Bytes × IfaceTc × H
  unfolding is_current apply_new release peer_error
  sync_found [] p st h = (peer_error p.public_key no_host_match ∷ [], st, h)
  sync_found (ip ∷ ips) p st h =
      let prev = lookup p.public_key st.peers in
      if is_current (ip ∷ ips) p prev
      then ([], st, h)
      else apply_new (ip ∷ ips) p (release p.public_key prev st h)

  -- One peer of the second loop: its errors.
  unfoldable pub sync_peer_tc : DesiredPeer → IfaceTc → H → List Bytes × IfaceTc × H
  unfolding sync_found peer_host_ips
  sync_peer_tc p st h =
      if is_limited p then sync_found (peer_host_ips net p) p st h else ([], st, h)

  unfoldable pub sync_peers_tc : List DesiredPeer → IfaceTc → H → List Bytes × IfaceTc × H
  unfolding sync_peer_tc
  sync_peers_tc [] st h = ([], st, h)
  sync_peers_tc (p ∷ ps) st h =
      let (es, st1, h1) = sync_peer_tc p st h in
      let (es', st2, h2) = sync_peers_tc ps st1 h1 in (es ++ es', st2, h2)

  abbrev pub limited_by : List Bytes × IfaceTc × H → Limited H
  unfolding tc_sync_error
  limited_by (es, st, h) = record { error = tc_sync_error es; iface = st; host = h }

  -- Each preparation ends the sync if it fails.
  unfoldable pub with_ingress_ready : List DesiredPeer → Limited H → Limited H
  unfolding sync_peers_tc limited_by
  with_ingress_ready peers r = elim r.error [
    | some e ↦ r
    | none ↦ limited_by (sync_peers_tc peers r.iface r.host)
  ]

  unfoldable pub with_root_ready : List DesiredPeer → Limited H → Limited H
  unfolding with_ingress_ready ensure_ingress
  with_root_ready peers r = elim r.error [
    | some e ↦ r
    | none ↦ with_ingress_ready peers (ensure_ingress run name r.iface r.host)
  ]

  unfoldable pub set_limits : List DesiredPeer → IfaceTc × H → Limited H
  unfolding with_root_ready ensure_root_htb
  set_limits peers (st, h) =
      if any_limit peers
      then with_root_ready peers (ensure_root_htb run name st h)
      else record { error = none; iface = st; host = h }

  -- `sync`, on the state of the interface.
  unfoldable pub sync_iface_tc : List DesiredPeer → Bool → IfaceTc → H → Limited H
  unfolding set_limits clear_gone desired_from
  sync_iface_tc peers full st h =
      set_limits peers (clear_gone full (desired_from peers []) st.peers st h)

  -- `sync`
  unfoldable pub sync_tc :
      List DesiredPeer → Bool → Map IfaceTc → H → Option Bytes × Map IfaceTc × H
  unfolding sync_iface_tc
  sync_tc peers full s h =
      let r = sync_iface_tc peers full (iface_tc name s) h in
      (r.error, insert name r.iface s, r.host)

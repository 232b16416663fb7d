-- ===== src/Host/Limits/Table.antt =====
-- internal/wgbackend/nft_limits.go: nftState.sync over a Runner, and what it runs.
use wireguardd.Base.{
  if◌then◌else◌, text, join, Map, lookup, insert, remove, ◌==◌, is_positive, Bytes, ℕ, Bool, true,
  false, ◌&&◌, Option, none, some, List, [], ◌∷◌, ◌++◌,
}
use wireguardd.Db.Tables.{bytes_less, order_by}
use wireguardd.Host.{DesiredPeer}
use wireguardd.Host.Net.{Net, Runner}
use wireguardd.Host.Limits.{same_strings, short_key, peer_host_ips}
use wireguardd.Host.Limits.Tc.{is_limited}
use wireguardd.Host.Limits.Sync.{desired_from, need_clear, peer_error}
use wireguardd.Host.Limits.Nft.{
  PeerNft, IfaceNft, nft_table_name, nft_comment, nft_exists_err, nft_not_found_err, Step,
  Strictness, fails, flush_chain, table_steps, limit_rule,
}

abbrev pub new_iface_nft : IfaceNft
new_iface_nft = record { ready = false; peers = [] }

-- `iface`: that of `nftState`
abbrev pub iface_nft : Bytes → Map IfaceNft → IfaceNft
iface_nft name s = elim (lookup name s) [ none ↦ new_iface_nft | some st ↦ st ]

-- The active peers, by their keys.
abbrev pub active_keys : Map PeerNft → List Bytes
active_keys [] = []
active_keys ((key, p) ∷ rest) = let keys = active_keys rest in if p.active then key ∷ keys else keys

unfoldable pub active_peers : List Bytes → Map PeerNft → List (Bytes × PeerNft)
active_peers [] m = []
active_peers (key ∷ keys) m = elim (lookup key m) [
  | none ↦ active_peers keys m
  | some p ↦ (key, p) ∷ active_peers keys m
]

-- The peers gone or without a limit are dropped.
unfoldable pub drop_gone : Bool → Map DesiredPeer → Map PeerNft → Map PeerNft → Map PeerNft
unfolding need_clear
drop_gone full desired [] m = m
drop_gone full desired ((key, prev) ∷ rest) m =
    drop_gone full desired rest
      (if need_clear full (lookup key desired) prev.active then remove key m else m)

unfoldable pub is_set : List Bytes → DesiredPeer → Option PeerNft → Bool
is_set ips p none = false
is_set ips p (some prev) =
    prev.active
    && ((prev.tx_bps == p.bandwidth_tx_bps)
        && ((prev.rx_bps == p.bandwidth_rx_bps) && same_strings prev.ips ips))

abbrev pub wanted_nft : List Bytes → DesiredPeer → PeerNft
wanted_nft ips p = record {
  tx_bps = p.bandwidth_tx_bps;
  rx_bps = p.bandwidth_rx_bps;
  ips = ips;
  active = true;
}

abbrev pub no_nft_match : Bytes
no_nft_match = text "no host-sized assigned/allowed IPs for nft match"

unfoldable pub set_found : List Bytes → DesiredPeer → Map PeerNft → List Bytes × Map PeerNft
unfolding peer_error is_set
set_found [] p m = (peer_error p.public_key no_nft_match ∷ [], m)
set_found (ip ∷ ips) p m =
    if is_set (ip ∷ ips) p (lookup p.public_key m)
    then ([], m)
    else ([], insert p.public_key (wanted_nft (ip ∷ ips) p) m)

abbrev pub joined_error : Bytes → List Bytes → Option Bytes
unfolding join
joined_error what [] = none
joined_error what (e ∷ es) = some (what ++ join (text "; ") (e ∷ es))

module _ (net : Net) where
  -- One peer of the loop: its errors.
  unfoldable pub set_peer_nft : Bool → DesiredPeer → Map PeerNft → List Bytes × Map PeerNft
  unfolding set_found peer_host_ips
  set_peer_nft full p m =
      if is_limited p
      then set_found (peer_host_ips net p) p m
      else ([], if full then m else remove p.public_key m)

  unfoldable pub set_peers_nft : Bool → List DesiredPeer → Map PeerNft → List Bytes × Map PeerNft
  unfolding set_peer_nft
  set_peers_nft full [] m = ([], m)
  set_peers_nft full (p ∷ ps) m =
      let (es, m1) = set_peer_nft full p m in
      let (es', m2) = set_peers_nft full ps m1 in (es ++ es', m2)

module _ {H : Type 0} (run : Runner H) where
  abbrev pub run_nft : List Bytes → H → Option Bytes × H
  run_nft args h = let (o, h') = run (text "nft") args h in (o.error, h')

  -- `nftDeleteTable`
  unfoldable pub nft_delete_table : Bytes → H → Option Bytes × H
  unfolding nft_not_found_err nft_table_name
  nft_delete_table iface h =
      let (r, h') =
        run_nft (text "delete" ∷ text "table" ∷ text "inet" ∷ nft_table_name iface ∷ []) h in
      elim r [ none ↦ (none, h') | some e ↦ (if nft_not_found_err e then none else some e, h') ]

  -- The commands in order, up to the first that fails.
  unfoldable pub run_steps : List Step → H → Option Bytes × H
  unfolding fails
  run_steps [] h = (none, h)
  run_steps (s ∷ ss) h =
      let (r, h') = run_nft s.args h in
      elim r [
        | none ↦ run_steps ss h'
        | some e ↦ elim (fails s.strictness e) [
          | true ↦ (some (s.what ++ e), h')
          | false ↦ run_steps ss h'
        ]
      ]

  unfoldable pub table_listed : Bytes → Bytes → Bytes → Option Bytes × H → Option Bytes × H
  unfolding run_steps
  table_listed iface table e (some e2, h) =
      (some (text "nft add table " ++ table ++ text ": " ++ e), h)
  table_listed iface table e (none, h) = run_steps (table_steps iface table) h

  unfoldable pub table_added : Bytes → Bytes → Option Bytes × H → Option Bytes × H
  unfolding run_steps table_listed nft_exists_err
  table_added iface table (none, h) = run_steps (table_steps iface table) h
  table_added iface table (some e, h) =
      if nft_exists_err e
      then run_steps (table_steps iface table) h
      else table_listed iface table e
          (run_nft (text "list" ∷ text "table" ∷ text "inet" ∷ table ∷ []) h)

  -- `nftEnsureTable`, where `ready` is set by the sync if there is no error.
  unfoldable pub nft_ensure_table : Bytes → Bool → H → Option Bytes × H
  unfolding table_added nft_table_name
  nft_ensure_table iface true h = (none, h)
  nft_ensure_table iface false h =
      let table = nft_table_name iface in
      table_added iface table (run_nft (text "add" ∷ text "table" ∷ text "inet" ∷ table ∷ []) h)

  -- A rule of one direction, if it has a limit: its error, prefixed.
  unfoldable pub add_limit : Bytes → Bytes → Bytes → Bytes → Bytes → ℕ → H → List Bytes × H
  unfolding limit_rule nft_comment short_key
  add_limit table chain side key ip bps h =
      let (r, h') = run_nft (limit_rule table chain side ip (nft_comment key) bps) h in
      if is_positive bps
      then (
        elim r [
          | none ↦ []
          | some e ↦ (chain ++ b' ' ∷ short_key key ++ b' ' ∷ ip ++ text ": " ++ e) ∷ []
        ],
        h',
      )
      else ([], h)

  unfoldable pub add_limits : Bytes → Bytes → PeerNft → List Bytes → H → List Bytes × H
  unfolding add_limit
  add_limits table key p [] h = ([], h)
  add_limits table key p (ip ∷ ips) h =
      let (rx, h1) = add_limit table (text "rx") (text "saddr") key ip p.rx_bps h in
      let (tx, h2) = add_limit table (text "tx") (text "daddr") key ip p.tx_bps h1 in
      let (es, h3) = add_limits table key p ips h2 in (rx ++ tx ++ es, h3)

  unfoldable pub add_all_limits : Bytes → List (Bytes × PeerNft) → H → List Bytes × H
  unfolding add_limits
  add_all_limits table [] h = ([], h)
  add_all_limits table ((key, p) ∷ rest) h =
      let (es, h1) = add_limits table key p p.ips h in
      let (es', h2) = add_all_limits table rest h1 in (es ++ es', h2)

  unfoldable pub render_flushed : Bytes → Map PeerNft → Option Bytes × H → Option Bytes × H
  unfolding add_all_limits joined_error order_by bytes_less active_peers
  render_flushed table m (some e, h) = (some e, h)
  render_flushed table m (none, h) =
      let keys = order_by bytes_less (active_keys m) in
      let (es, h') = add_all_limits table (active_peers keys m) h in
      (joined_error (text "nft rules: ") es, h')

  -- `nftRenderIface`
  unfoldable pub nft_render_iface : Bytes → Map PeerNft → H → Option Bytes × H
  unfolding render_flushed run_steps nft_table_name
  nft_render_iface iface m h =
      let table = nft_table_name iface in
      render_flushed table m (
        run_steps
          (flush_chain Strictness.required table (text "rx")
            ∷ flush_chain Strictness.required table (text "tx")
            ∷ [])
          h)

  -- What a sync leaves: its error, the state of the interface and the host.
  abbrev pub NftResult : Type 0
  NftResult = Option Bytes × IfaceNft × H

  -- No peer is limited: the table goes, and its error is ignored.
  unfoldable pub drop_table : Bytes → List Bytes → IfaceNft → H → NftResult
  unfolding nft_delete_table joined_error
  drop_table iface es st h =
      let (e, h') = nft_delete_table iface h in
      (joined_error (text "nft sync: ") es, record st { ready = false }, if st.ready then h' else h)

  unfoldable pub rendered : List Bytes → IfaceNft → Option Bytes × H → NftResult
  unfolding joined_error
  rendered es st (some e, h) = (some e, st, h)
  rendered es st (none, h) = (joined_error (text "nft sync: ") es, st, h)

  unfoldable pub with_table : Bytes → List Bytes → IfaceNft → Option Bytes × H → NftResult
  unfolding rendered nft_render_iface
  with_table iface es st (some e, h) = (some e, st, h)
  with_table iface es st (none, h) =
      rendered es (record st { ready = true }) (nft_render_iface iface st.peers h)

  unfoldable pub enforce_nft : Bytes → List Bytes → IfaceNft → H → NftResult
  unfolding drop_table with_table nft_ensure_table
  enforce_nft iface es st h = elim st.peers [
    | [] ↦ drop_table iface es st h
    | p ∷ ps ↦ with_table iface es st (nft_ensure_table iface st.ready h)
  ]

  -- `sync`, on the state of the interface.
  unfoldable pub sync_iface_nft : Net → Bytes → List DesiredPeer → Bool → IfaceNft → H → NftResult
  unfolding enforce_nft set_peers_nft drop_gone desired_from
  sync_iface_nft net iface peers full st h =
      let kept = drop_gone full (desired_from peers []) st.peers st.peers in
      let (es, m) = set_peers_nft net full peers kept in
      enforce_nft iface es (record st { peers = m }) h

  -- `sync`
  unfoldable pub sync_nft :
      Net → Bytes → List DesiredPeer → Bool → Map IfaceNft → H → Option Bytes × Map IfaceNft × H
  unfolding sync_iface_nft
  sync_nft net iface peers full s h =
      let (e, st, h') = sync_iface_nft net iface peers full (iface_nft iface s) h in
      (e, insert iface st s, h')

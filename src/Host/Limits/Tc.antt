-- ===== src/Host/Limits/Tc.antt =====
-- internal/wgbackend/tc_limits.go: what is run over a Runner to set and clear the limits of a peer.
use wireguardd.Base.{
  includes, if◌then◌else◌, text, format_hex, Map, lookup, is_positive, length, Bytes, ℕ, zero, suc,
  ◌+◌, ◌*◌, Bool, true, false, not, ◌&&◌, ◌||◌, Option, none, some, List, [], ◌∷◌, ◌++◌,
}
use wireguardd.Host.{DesiredPeer}
use wireguardd.Host.Net.{Net, Runner}
use wireguardd.Host.Limits.Commands.{
  qdisc_root, qdisc_ingress, default_class, peer_class, fair_queue, filter_args, del_filter,
  del_qdisc, del_class, class_id_of, invalid_ip,
}
use wireguardd.Host.Limits.{PeerTc, format_tc_rate, format_tc_burst, match_dst, match_src, Minors}

-- `ifaceTCState`
pub record IfaceTc : Type 0 where
  pub root_ready : Bool
  pub ingress_ready : Bool
  pub minors : Minors
  pub peers : Map PeerTc

abbrev pub new_iface_tc : IfaceTc
new_iface_tc = record { root_ready = false; ingress_ready = false; minors = []; peers = [] }

-- `iface`: that of `tcState`
abbrev pub iface_tc : Bytes → Map IfaceTc → IfaceTc
iface_tc name s = elim (lookup name s) [ none ↦ new_iface_tc | some st ↦ st ]

-- What an operation leaves: its error, the state of the interface and the host.
pub record Limited (H : Type 0) : Type 0 where
  pub error : Option Bytes
  pub iface : IfaceTc
  pub host : H

abbrev pub is_limited : DesiredPeer → Bool
is_limited p = is_positive p.bandwidth_rx_bps || is_positive p.bandwidth_tx_bps

abbrev pub prefixed : Bytes → Option Bytes → Option Bytes
prefixed what none = none
prefixed what (some e) = some (what ++ e)

-- What is done next, unless there was an error.
abbrev pub unless_error :
    {H : Type 0} → Option Bytes × H → (H → Option Bytes × H) → Option Bytes × H
unless_error (none, h) next = next h
unless_error (some e, h) next = (some e, h)

abbrev pub has_text : Bytes → Bytes → Bool
unfolding includes
has_text e s = includes e s

module _ {H : Type 0} (run : Runner H) where
  -- `tc` with these arguments: its error.
  abbrev pub tc : List Bytes → H → Option Bytes × H
  tc args h = let (o, h') = run (text "tc") args h in (o.error, h')

  -- A command whose error is ignored.
  abbrev pub tc_quietly : List Bytes → H → H
  tc_quietly args h = let (o, h') = run (text "tc") args h in h'

  unfoldable pub with_default_class : IfaceTc → Option Bytes × H → Limited H
  with_default_class st (some e, h) = record {
    error = some (text "tc default class: " ++ e);
    iface = st;
    host = h;
  }
  with_default_class st (none, h) = record {
    error = none;
    iface = record st { root_ready = true };
    host = h;
  }

  unfoldable pub root_replaced : Bytes → IfaceTc → Bytes → Option Bytes × H → Limited H
  unfolding with_default_class
  root_replaced name st e (some e2, h) = record {
    error = some (text "tc root htb: " ++ e ++ text " (also: " ++ e2 ++ text ")");
    iface = st;
    host = h;
  }
  root_replaced name st e (none, h) = with_default_class st (tc (default_class name) h)

  unfoldable pub root_added : Bytes → IfaceTc → Option Bytes × H → Limited H
  unfolding with_default_class root_replaced
  root_added name st (none, h) = with_default_class st (tc (default_class name) h)
  root_added name st (some e, h) =
      if not (has_text e (text "File exists")) && not (has_text e (text "Exclusivity flag"))
      then root_replaced name st e (tc (qdisc_root (text "replace") name) h)
      else with_default_class st (tc (default_class name) h)

  -- `ensureRootHTB`
  unfoldable pub ensure_root_htb : Bytes → IfaceTc → H → Limited H
  unfolding root_added
  ensure_root_htb name st h =
      if st.root_ready
      then record { error = none; iface = st; host = tc_quietly (default_class name) h }
      else root_added name st (tc (qdisc_root (text "add") name) h)

  abbrev pub with_ingress : IfaceTc → H → Limited H
  with_ingress st h = record { error = none; iface = record st { ingress_ready = true }; host = h }

  unfoldable pub ingress_replaced : IfaceTc → Bytes → Option Bytes × H → Limited H
  ingress_replaced st e (none, h) = with_ingress st h
  ingress_replaced st e (some e2, h) =
      if has_text e2 (text "File exists")
      then with_ingress st h
      else record { error = some (text "tc ingress: " ++ e); iface = st; host = h }

  unfoldable pub ingress_added : Bytes → IfaceTc → Option Bytes × H → Limited H
  unfolding ingress_replaced
  ingress_added name st (none, h) = with_ingress st h
  ingress_added name st (some e, h) =
      if not (has_text e (text "File exists")) && not (has_text e (text "Exclusivity"))
      then ingress_replaced st e (tc (qdisc_ingress (text "replace") name) h)
      else with_ingress st h

  -- `ensureIngress`
  unfoldable pub ensure_ingress : Bytes → IfaceTc → H → Limited H
  unfolding ingress_added
  ensure_ingress name st h =
      if st.ingress_ready
      then record { error = none; iface = st; host = h }
      else ingress_added name st (tc (qdisc_ingress (text "add") name) h)

  -- The filters of `clearPeerTC`, of both parents, from a preference on.
  unfoldable pub clear_filters : ℕ → Bytes → ℕ → H → H
  clear_filters zero name pref h = h
  clear_filters (suc n) name pref h = clear_filters n name (pref + 1) (
      tc_quietly (del_filter name (text "ffff:") pref)
        (tc_quietly (del_filter name (text "1:") pref) h))

  -- `clearPeerTC`, which has no error.
  unfoldable pub clear_peer_tc : Bytes → PeerTc → H → H
  unfolding clear_filters
  clear_peer_tc name st h = tc_quietly (del_class name (class_id_of st.minor)) (
      tc_quietly (del_qdisc name (class_id_of st.minor))
        (clear_filters (length st.ips * 2 + 8) name st.minor h))

  module _ (net : Net) where
    abbrev pub with_match :
        Bytes → Bytes → Bytes → ℕ → List Bytes → Option (Bytes × List Bytes) → H → Option Bytes × H
    with_match name ip parent pref rest none h = (some (invalid_ip ip), h)
    with_match name ip parent pref rest (some (proto, args)) h =
        tc (filter_args name proto parent pref ++ args ++ rest) h

    -- `addEgressFilter`
    unfoldable pub add_egress_filter : Bytes → Bytes → Bytes → ℕ → H → Option Bytes × H
    unfolding match_dst
    add_egress_filter name ip class_id pref h =
        with_match name ip (text "1:") pref (text "flowid" ∷ class_id ∷ []) (match_dst net ip) h

    abbrev pub police : Bytes → Bytes → List Bytes
    police rate burst =
        text "action" ∷ text "police" ∷ text "rate" ∷ rate ∷ text "burst" ∷ burst ∷ text "drop" ∷ []

    -- `addIngressPolice`
    unfoldable pub add_ingress_police : Bytes → Bytes → Bytes → Bytes → ℕ → H → Option Bytes × H
    unfolding match_src
    add_ingress_police name ip rate burst pref h =
        with_match name ip (text "ffff:") pref (police rate burst) (match_src net ip) h

    unfoldable pub add_egress_filters : Bytes → List Bytes → Bytes → ℕ → H → Option Bytes × H
    unfolding add_egress_filter
    add_egress_filters name [] class_id pref h = (none, h)
    add_egress_filters name (ip ∷ ips) class_id pref h =
        let (e, h') = add_egress_filter name ip class_id pref h in
        unless_error (prefixed (text "tx filter " ++ ip ++ text ": ") e, h')
          (λ g. add_egress_filters name ips class_id (pref + 1) g)

    unfoldable pub add_ingress_polices :
        Bytes → List Bytes → Bytes → Bytes → ℕ → H → Option Bytes × H
    unfolding add_ingress_police
    add_ingress_polices name [] rate burst pref h = (none, h)
    add_ingress_polices name (ip ∷ ips) rate burst pref h =
        let (e, h') = add_ingress_police name ip rate burst pref h in
        unless_error (prefixed (text "rx police " ++ ip ++ text ": ") e, h')
          (λ g. add_ingress_polices name ips rate burst (pref + 1) g)

    -- The class of what is sent, its fair queue, whose error is ignored, and its filters.
    unfoldable pub apply_tx : Bytes → PeerTc → H → Option Bytes × H
    unfolding add_egress_filters format_hex format_tc_rate format_tc_burst
    apply_tx name st h =
        let class_id = class_id_of st.minor in
        let (e, h1) =
          tc (peer_class name class_id (format_tc_rate st.tx_bps) (format_tc_burst st.tx_bps)) h in
        unless_error (prefixed (text "tx class: ") e, h1)
          (λ h2.
            add_egress_filters name st.ips class_id st.minor
              (tc_quietly (fair_queue name class_id (format_hex st.minor ++ text ":")) h2))

    unfoldable pub apply_rx : Bytes → PeerTc → ℕ → H → Option Bytes × H
    unfolding add_ingress_polices format_tc_rate format_tc_burst
    apply_rx name st pref h =
        add_ingress_polices name st.ips (format_tc_rate st.rx_bps) (format_tc_burst st.rx_bps) pref
          h

    -- `applyPeerTC`: what is sent and received have filters of successive preferences.
    unfoldable pub apply_peer_tc : Bytes → PeerTc → H → Option Bytes × H
    unfolding apply_tx apply_rx
    apply_peer_tc name st h =
        let sends = is_positive st.tx_bps in
        let pref = if sends then st.minor + length st.ips else st.minor in
        unless_error (if sends then apply_tx name st h else (none, h))
          (λ h1. if is_positive st.rx_bps then apply_rx name st pref h1 else (none, h1))

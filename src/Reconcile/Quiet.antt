-- ===== src/Reconcile/Quiet.antt =====
-- The parts of a cycle that ask nothing of the host: enforcement, events and sampling.
use wireguardd.Base.{
  if◌then◌else◌, Bool-cases, is_blank, lookup, insert, Bytes, ℕ, ◌≡◌, refl, ◌∙◌, inl, inr, Bool,
  true, false, not, ◌&&◌, ◌||◌, Option, none, some, List, [], ◌∷◌,
}
use wireguardd.Db.{Interface, Peer}
use wireguardd.Host.{LivePeer, Device, Backend}
use wireguardd.Policy.{auto_suspend_reason}
use wireguardd.Reconcile.{Config, Env, World, sampling}
use wireguardd.Reconcile.Desired.{record_event, enforce_peer, enforce_peers}
use wireguardd.Stats.{peer_key}
use wireguardd.Reconcile.Sampling.{
  live_peer, reading_of, sampled_peer, note_connection, sample_peer, sample_peers, sample_device,
  sample_interface,
}

module _ {S : Type 0} where
  -- No call was made, the interfaces that count as managed are the same, and so is the host.
  abbrev pub Keeps : World S → World S → Type 0
  Keeps w w' = ((w'.calls ≡ w.calls) × (w'.hook_state ≡ w.hook_state)) × (w'.host ≡ w.host)

  Keeps-trans : (u v w : World S) → Keeps u v → Keeps v w → Keeps u w
  Keeps-trans u v w ((a, b), e) ((c, d), f) = ((c ∙ a, d ∙ b), f ∙ e)

  pub if-Keeps : (b : Bool) (u v w : World S) → Keeps u v → Keeps u w → Keeps u (if b then v else w)
  if-Keeps true u v w h k = h
  if-Keeps false u v w h k = k

  module _ (cfg : Config) (env : Env) where
    note_connection-Keeps :
        (iface key : Bytes) (connected : Bool) (was : Option Bool) (w : World S)
        → Keeps w (note_connection env iface key connected was w)
    unfolding note_connection record_event
    note_connection-Keeps iface key connected none w = ((refl, refl), refl)
    note_connection-Keeps iface key connected (some was) w =
        if-Keeps ((was && not connected) || (not was && connected)) w _ w ((refl, refl), refl)
          ((refl, refl), refl)

    sample_peer-Keeps :
        (i : Interface) (live : List LivePeer) (now : ℕ) (p : Peer) (w : World S)
        → let (_, w') = sample_peer cfg env i live now p w in Keeps w w'
    unfolding sample_peer
    sample_peer-Keeps i live now p w =
        let key = peer_key i.name p.public_key in
        let r = reading_of p (live_peer p.public_key live) in
        let (connected, _) = sampled_peer cfg env now r (lookup key w.prev_sample) p in
        note_connection-Keeps i.name p.public_key connected (lookup key w.prev_peer_conn)
          (record w { prev_sample = insert key r.seen w.prev_sample })

    sample_peers-Keeps :
        (i : Interface) (live : List LivePeer) (now : ℕ) (ps : List Peer) (w : World S)
        → let (_, w') = sample_peers cfg env i live now ps w in Keeps w w'
    unfolding sample_peers
    sample_peers-Keeps i live now [] w = ((refl, refl), refl)
    sample_peers-Keeps i live now (p ∷ ps) w =
        let (_, w') = sample_peer cfg env i live now p w in
        let (_, w'') = sample_peers cfg env i live now ps w' in
        Keeps-trans w w' w'' (sample_peer-Keeps i live now p w)
          (sample_peers-Keeps i live now ps w')

    sample_device-Keeps :
        (i : Interface) (peers : List Peer) (dev : Option Device) (w : World S)
        → Keeps w (sample_device cfg env i peers dev w)
    unfolding sample_device
    sample_device-Keeps i peers none w = ((refl, refl), refl)
    sample_device-Keeps i peers (some dev) w =
        sample_peers-Keeps i dev.peers (env.now (sampling i.name)) peers w

    pub sample_interface-Keeps :
        (B : Backend S) (i : Interface) (peers : List Peer) (w : World S)
        → Keeps w (sample_interface B cfg env i peers w)
    unfolding sample_interface
    sample_interface-Keeps B i peers w = sample_device-Keeps i peers (B.device w.host i.name) w

  module _ (env : Env) (name : Bytes) (now : ℕ) where
    enforce_peer-Keeps :
        (p : Peer) (w : World S) → let (_, w') = enforce_peer env name now p w in Keeps w w'
    unfolding enforce_peer record_event
    enforce_peer-Keeps p w =
        elim (Bool-cases (is_blank (auto_suspend_reason env.parse_nano env.parse_seconds p now))) [
          | inl e ↦ rw e ((refl, refl), refl)
          | inr e ↦ rw e ((refl, refl), refl)
        ]

    pub enforce_peers-Keeps :
        (ps : List Peer) (w : World S) → let (_, w') = enforce_peers env name now ps w in Keeps w w'
    unfolding enforce_peers
    enforce_peers-Keeps [] w = ((refl, refl), refl)
    enforce_peers-Keeps (p ∷ ps) w =
        let (_, w') = enforce_peer env name now p w in
        let (_, w'') = enforce_peers env name now ps w' in
        Keeps-trans w w' w'' (enforce_peer-Keeps p w) (enforce_peers-Keeps ps w')

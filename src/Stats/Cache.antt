-- ===== src/Stats/Cache.antt =====
-- The cache tells peers apart by interface and key.
use wireguardd.Base.{
  if◌then◌else◌, Bool-cases, has_byte, lookup-insert, lookup-insert_other, lookup-retain, contains,
  Bytes, bytes_eq, bytes_eq→eq, ◌≡◌, refl, ◌⊎◌, inl, inr, false, none, some, List, [], ◌∷◌, arith,
}
use wireguardd.Stats.{PeerStats, Seen, peer_key, set_peer, get_peer, retain_keys}

-- The first "/" of a key ends the interface's name.
peer_key-injective :
    (i j a b : Bytes)
    → has_byte b'/' i ≡ false
    → has_byte b'/' j ≡ false
    → peer_key i a ≡ peer_key j b
    → (i ≡ j) × (a ≡ b)
unfolding has_byte peer_key
peer_key-injective [] [] a b h k e = (refl, cc)
peer_key-injective [] (y ∷ j) a b h k e = absurd (ground arith)
peer_key-injective (x ∷ i) [] a b h k e = absurd (ground arith)
peer_key-injective (x ∷ i) (y ∷ j) a b h k e =
    let (p, q) = peer_key-injective i j a b (ground arith) (ground arith) cc in (cc, q)

-- A peer that is stored is read back, what is stored of every other peer stays, and after `Retain`
-- exactly the kept ones are left; interface names must have no slash.
pub get_peer-set_peer :
    (s : PeerStats) (c : Seen) (iface key : Bytes) (ifaces keys : List Bytes)
    → has_byte b'/' s.interface ≡ false
    → has_byte b'/' iface ≡ false
    → (get_peer s.interface s.public_key (set_peer s c) ≡ some s)
      × (((s.interface ≡ iface) × (s.public_key ≡ key))
          ⊎ (get_peer iface key (set_peer s c) ≡ get_peer iface key c))
      × (get_peer iface key (retain_keys ifaces keys c)
          ≡ (if contains (peer_key iface key) keys then get_peer iface key c else none))
unfolding get_peer set_peer retain_keys
get_peer-set_peer s c iface key ifaces keys h k = (
  lookup-insert (peer_key s.interface s.public_key) s c.peers,
  elim (Bool-cases (bytes_eq (peer_key s.interface s.public_key) (peer_key iface key))) [
    | inl e ↦ inl (
        peer_key-injective s.interface iface s.public_key key h k
          (bytes_eq→eq (peer_key s.interface s.public_key) (peer_key iface key) e))
    | inr e ↦
        inr
          (lookup-insert_other (peer_key s.interface s.public_key) (peer_key iface key) s c.peers e)
  ],
  lookup-retain (λ k. contains k keys) (peer_key iface key) c.peers,
)

-- ===== src/Db/Tables.antt =====
-- internal/db: the statements that a reconcile cycle runs, on tables as lists of rows. The SQL is that
-- of interfaces.go, peers.go, events.go and samples.go; which statements the database refuses is a
-- parameter. Rows of peers carry the name of their interface, as the join does.
use wireguardd.Base.{
  ltb, ◌==◌, if◌then◌else◌, text, is_blank, Bytes, bytes_eq, ℕ, Bool, true, false, ◌&&◌, ◌||◌,
  Option, none, some, List, [], ◌∷◌, ◌++◌,
}
use wireguardd.Db.{Interface, Peer, Event, TrafficSample}

pub record Tables : Type 0 where
  pub interfaces : List Interface
  pub peers : List Peer
  pub events : List Event
  pub samples : List TrafficSample

-- The statements that fail.
pub record Faults : Type 0 where
  pub listing_interfaces : Bool
  pub listing_peers : Bytes → Bool
  pub listing_all_peers : Bool
  pub suspending : ℕ → Bool
  pub updating_stats : ℕ → Bool
  pub inserting_event : Event → Bool
  pub inserting_samples : List TrafficSample → Bool
  pub purging : Bool

-- `a < b` in the order of SQLite on text.
unfoldable pub bytes_less : Bytes → Bytes → Bool
bytes_less xs [] = false
bytes_less [] (y ∷ ys) = true
bytes_less (x ∷ xs) (y ∷ ys) = ltb x y || ((x == y) && bytes_less xs ys)

module _ {A : Type 0} (before : A → A → Bool) where
  unfoldable pub insert_row : A → List A → List A
  insert_row x [] = x ∷ []
  insert_row x (y ∷ ys) = let rest = insert_row x ys in if before x y then x ∷ y ∷ ys else y ∷ rest

  -- `ORDER BY`
  unfoldable pub order_by : List A → List A
  unfolding insert_row
  order_by [] = []
  order_by (x ∷ xs) = insert_row x (order_by xs)

interface_before : Interface → Interface → Bool
unfolding bytes_less
interface_before a b = bytes_less a.name b.name

peer_before : Peer → Peer → Bool
unfolding bytes_less
peer_before a b =
    bytes_less a.name b.name || (bytes_eq a.name b.name && bytes_less a.public_key b.public_key)

-- `ListInterfaces`: `none` is an error.
unfoldable pub list_interfaces : Faults → Tables → Option (List Interface)
unfolding order_by interface_before
list_interfaces f t =
    if f.listing_interfaces then none else some (order_by interface_before t.interfaces)

peers_of : Bytes → List Peer → List Peer
peers_of name [] = []
peers_of name (p ∷ ps) =
    let rest = peers_of name ps in if bytes_eq p.interface_name name then p ∷ rest else rest

unfoldable pub list_peers_by_interface : Faults → Bytes → Tables → Option (List Peer)
unfolding order_by peer_before peers_of
list_peers_by_interface f name t =
    if f.listing_peers name then none else some (order_by peer_before (peers_of name t.peers))

all_before : Peer → Peer → Bool
unfolding bytes_less peer_before
all_before a b =
    bytes_less a.interface_name b.interface_name
    || (bytes_eq a.interface_name b.interface_name && peer_before a b)

unfoldable pub list_all_peers : Faults → Tables → Option (List Peer)
unfolding order_by all_before
list_all_peers f t = if f.listing_all_peers then none else some (order_by all_before t.peers)

suspend_rows : ℕ → Bool → List Peer → List Peer
suspend_rows id v [] = []
suspend_rows id v (p ∷ ps) =
    let rest = suspend_rows id v ps in (if p.id == id then record p { suspended = v } else p) ∷ rest

unfoldable pub set_peer_suspended : Faults → ℕ → Bool → Tables → Tables
unfolding suspend_rows
set_peer_suspended f id v t =
    if f.suspending id then t else record t { peers = suspend_rows id v t.peers }

-- `AddEvent`, with its default for `meta`.
unfoldable pub add_event : Faults → Event → Tables → Tables
add_event f e t =
    let e' = if is_blank e.meta then record e { meta = text "{}" } else e in
    if f.inserting_event e' then t else record t { events = t.events ++ e' ∷ [] }

stats_rows : Peer → List Peer → List Peer
stats_rows u [] = []
stats_rows u (p ∷ ps) =
    let rest = stats_rows u ps in
    (if p.id == u.id
      then record p {
        first_handshake_at = u.first_handshake_at;
        last_handshake_at = u.last_handshake_at;
        connected_since = u.connected_since;
        last_endpoint = u.last_endpoint;
        last_rx_bytes = u.last_rx_bytes;
        last_tx_bytes = u.last_tx_bytes;
      }
      else p)
    ∷ rest

unfoldable pub update_peer_stats : Faults → Peer → Tables → Tables
unfolding stats_rows
update_peer_stats f u t =
    if f.updating_stats u.id then t else record t { peers = stats_rows u t.peers }

unfoldable pub insert_samples : Faults → List TrafficSample → Tables → Tables
insert_samples f ss t = if f.inserting_samples ss then t else record t { samples = t.samples ++ ss }

kept_samples : Bytes → List TrafficSample → List TrafficSample
unfolding bytes_less
kept_samples cutoff [] = []
kept_samples cutoff (s ∷ ss) =
    let rest = kept_samples cutoff ss in if bytes_less s.sampled_at cutoff then rest else s ∷ rest

kept_events : Bytes → List Event → List Event
unfolding bytes_less
kept_events cutoff [] = []
kept_events cutoff (e ∷ es) =
    let rest = kept_events cutoff es in if bytes_less e.ts cutoff then rest else e ∷ rest

-- `PurgeSamples` and `PurgeEvents`: all batches together.
unfoldable pub purge_samples : Faults → Bytes → Tables → Tables
unfolding kept_samples
purge_samples f cutoff t =
    if f.purging then t else record t { samples = kept_samples cutoff t.samples }

unfoldable pub purge_events : Faults → Bytes → Tables → Tables
unfolding kept_events
purge_events f cutoff t = if f.purging then t else record t { events = kept_events cutoff t.events }

-- ===== src/Host/Routes/Exact.antt =====
-- Which routes an interface wants.
use wireguardd.Base.{
  if◌then◌else◌, Bool-cases, if-cases, text, format_int, contains, is_positive, Bytes, bytes_eq,
  bytes_eq→eq, ℕ, ◌≡◌, refl, sym, ap, ◌∙◌, ◌≢◌, inl, inr, Bool, true, false, not, ◌&&◌, ◌||◌,
  Option, none, some, List, [], ◌∷◌, arith,
}
use wireguardd.Db.Tables.{insert_row, order_by, bytes_less}
use wireguardd.Host.{DesiredInterface}
use wireguardd.Host.Net.{Net}
use wireguardd.Host.Routes.{
  TableMode, RouteKey, normalize_table_mode, route_eq, has_key, add_key, insert_unique,
  unique_strings, classify_cidr, addr_host_family, allowed_of, mark_of, table_num, Wanted,
  nothing_wanted, want_classified, want_prefixes, want_from, want_addresses, want_table_rules,
  sorted_prefixes, wanted_in,
}
use wireguardd.Host.Routes.Sync.{wanted, wanted_for}
use wireguardd.Host.Routes.Keys.{route_eq-IsEq}
use wireguardd.Host.Routes.Peers.{is_reached, contains-allowed_of}

-- Sorting and dropping repetitions keep what is in a list.
contains-insert_row :
    (before : Bytes → Bytes → Bool) (x y : Bytes) (ys : List Bytes)
    → contains x (insert_row before y ys) ≡ (bytes_eq y x || contains x ys)
unfolding insert_row
contains-insert_row before x y [] = ground arith
contains-insert_row before x y (z ∷ zs) = ground (arith, contains-insert_row before x y zs)

contains-order_by :
    (before : Bytes → Bytes → Bool) (x : Bytes) (ys : List Bytes)
    → contains x (order_by before ys) ≡ contains x ys
unfolding order_by
contains-order_by before x [] = refl
contains-order_by before x (y ∷ ys) =
    contains-insert_row before x y (order_by before ys)
    ∙ ap (λ b. bytes_eq y x || b) (contains-order_by before x ys)

contains-insert_unique :
    (x : Bytes) (seen ys : List Bytes)
    → contains x (insert_unique seen ys) ≡ (contains x ys && not (contains x seen))
contains-insert_unique x seen [] = refl
contains-insert_unique x seen (y ∷ ys) = elim (Bool-cases (contains y seen)) [
  | inl h ↦ rw h (
      contains-insert_unique x seen ys
      ∙ seen_before (bytes_eq y x) (contains x ys) (contains x seen)
          (λ e. ap (λ z. contains z seen) (sym (bytes_eq→eq y x e)) ∙ h))
  | inr h ↦ rw h (
      ap (λ b. bytes_eq y x || b) (contains-insert_unique x (y ∷ seen) ys)
      ∙ new_one (bytes_eq y x) (contains x ys) (contains x seen)
          (λ e. ap (λ z. contains z seen) (sym (bytes_eq→eq y x e)) ∙ h))
]
  where
    seen_before : (e b c : Bool) → (e ≡ true → c ≡ true) → (b && not c) ≡ ((e || b) && not c)
    seen_before e b c h = ground arith

    new_one :
        (e b c : Bool) → (e ≡ true → c ≡ false) → (e || (b && not (e || c))) ≡ ((e || b) && not c)
    new_one e b c h = ground arith

contains-sorted_prefixes :
    (net : Net) (d : DesiredInterface) (x : Bytes)
    → contains x (sorted_prefixes net d) ≡ contains x (allowed_of net d.peers)
unfolding sorted_prefixes unique_strings
contains-sorted_prefixes net d x =
    contains-insert_unique x [] (order_by bytes_less (allowed_of net d.peers))
    ∙ and_true (contains x (order_by bytes_less (allowed_of net d.peers)))
    ∙ contains-order_by bytes_less x (allowed_of net d.peers)
  where
    and_true : (b : Bool) → (b && true) ≡ b
    and_true true = refl
    and_true false = refl

-- The table that a prefix is routed in.
abbrev pub table_for : TableMode → DesiredInterface → Bool → Bytes
unfolding format_int mark_of
table_for TableMode.auto d is_default = if is_default then format_int (mark_of d) else text "main"
table_for mode d is_default = format_int (table_num d)

-- Whether a route is that of its destination: the destination reads as a prefix, and the family and
-- the table are those of the prefix.
abbrev pub fits_prefix : TableMode → DesiredInterface → RouteKey → Option (Bytes × Bool) → Bool
fits_prefix mode d k none = false
fits_prefix mode d k (some (proto, is_default)) =
    bytes_eq (table_for mode d is_default) k.table && bytes_eq proto k.proto

-- The interface is on.
abbrev pub is_on : TableMode → DesiredInterface → Bool
is_on TableMode.off d = false
is_on mode d = d.enabled

has_key-add_key :
    (k j : RouteKey) (ks : List RouteKey)
    → has_key route_eq j (add_key route_eq k ks) ≡ (route_eq k j || has_key route_eq j ks)
has_key-add_key k j ks = elim (Bool-cases (has_key route_eq k ks)) [
  | inl h ↦ rw h (
      there (route_eq k j) _
        (λ e. ap (λ x. has_key route_eq x ks) (sym (route_eq-IsEq.sound k j e)) ∙ h))
  | inr h ↦ rw h refl
]
  where
    there : (e b : Bool) → (e ≡ true → b ≡ true) → b ≡ (e || b)
    there true b h = h refl
    there false b h = refl

abbrev wants : TableMode → DesiredInterface → Bytes → RouteKey → Option (Bytes × Bool) → Bool
wants mode d cidr k o = bytes_eq cidr k.dst && fits_prefix mode d k o

and_assoc : (a b c : Bool) → (a && b && c) ≡ (a && (b && c))
and_assoc true b c = refl
and_assoc false b c = refl

has_key-want_route :
    (cidr table proto : Bytes) (ks : List RouteKey) (k : RouteKey)
    → has_key route_eq k (add_key route_eq (record { dst = cidr; table = table; proto = proto }) ks)
      ≡ ((bytes_eq cidr k.dst && (bytes_eq table k.table && bytes_eq proto k.proto))
          || has_key route_eq k ks)
has_key-want_route cidr table proto ks k =
    has_key-add_key (record { dst = cidr; table = table; proto = proto }) k ks
    ∙ ap (λ b. b || has_key route_eq k ks)
        (and_assoc (bytes_eq cidr k.dst) (bytes_eq table k.table) (bytes_eq proto k.proto))

auto_off : TableMode.auto ≢ TableMode.off
auto_off e = cc

number_off : TableMode.number ≢ TableMode.off
number_off e = cc

has_key-want_classified :
    (mode : TableMode) (d : DesiredInterface) (cidr : Bytes) (o : Option (Bytes × Bool))
    (w : Wanted) (k : RouteKey)
    → mode ≢ TableMode.off
    → has_key route_eq k (want_classified mode d cidr o w).routes
      ≡ (wants mode d cidr k o || has_key route_eq k w.routes)
unfolding want_classified table_for
has_key-want_classified mode d cidr none w k h = ground arith
has_key-want_classified TableMode.auto d cidr (some (proto, true)) w k h =
    has_key-want_route cidr (format_int (mark_of d)) proto w.routes k
has_key-want_classified TableMode.auto d cidr (some (proto, false)) w k h =
    has_key-want_route cidr (text "main") proto w.routes k
has_key-want_classified TableMode.number d cidr (some (proto, b)) w k h =
    has_key-want_route cidr (format_int (table_num d)) proto w.routes k
has_key-want_classified TableMode.off d cidr (some (proto, b)) w k h = absurd (h refl)

has_key-want_prefixes :
    (net : Net) (mode : TableMode) (d : DesiredInterface) (cs : List Bytes) (w : Wanted)
    (k : RouteKey)
    → mode ≢ TableMode.off
    → has_key route_eq k (want_prefixes net mode d cs w).routes ≡ (
        (contains k.dst cs && fits_prefix mode d k (classify_cidr net k.dst))
        || has_key route_eq k w.routes)
unfolding want_prefixes
has_key-want_prefixes net mode d [] w k h = refl
has_key-want_prefixes net mode d (c ∷ cs) w k h =
    has_key-want_prefixes net mode d cs (want_classified mode d c (classify_cidr net c) w) k h
    ∙ ap (λ b. (contains k.dst cs && fits_prefix mode d k (classify_cidr net k.dst)) || b)
        (has_key-want_classified mode d c (classify_cidr net c) w k h)
    ∙ merge (bytes_eq c k.dst) (contains k.dst cs) (fits_prefix mode d k (classify_cidr net k.dst))
        _ (has_key route_eq k w.routes)
        (λ e. ap (λ x. fits_prefix mode d k (classify_cidr net x)) (bytes_eq→eq c k.dst e))
  where
    merge :
        (e c f g w : Bool)
        → (e ≡ true → g ≡ f)
        → ((c && f) || ((e && g) || w)) ≡ (((e || c) && f) || w)
    merge true c f g w h = with_same c f g w (h refl)
      where
        with_same : (c f g w : Bool) → g ≡ f → ((c && f) || (g || w)) ≡ (f || w)
        with_same true true g w h = refl
        with_same true false g w h = rw h refl
        with_same false f g w h = rw h refl
    merge false c f g w h = refl

-- The rules of a table leave the routes.
routes-want_from :
    (table : ℕ) (o : Option (Bytes × Bytes)) (w : Wanted) → (want_from table o w).routes ≡ w.routes
unfolding want_from
routes-want_from table none w = refl
routes-want_from table (some (host, fam)) w = refl

routes-want_addresses :
    (net : Net) (table : ℕ) (as' : List Bytes) (w : Wanted)
    → (want_addresses net table as' w).routes ≡ w.routes
unfolding want_addresses
routes-want_addresses net table [] w = refl
routes-want_addresses net table (a ∷ as') w =
    routes-want_addresses net table as' (want_from table (addr_host_family net a) w)
    ∙ routes-want_from table (addr_host_family net a) w

routes-want_table_rules :
    (net : Net) (mode : TableMode) (d : DesiredInterface) (w : Wanted)
    → (want_table_rules net mode d w).routes ≡ w.routes
unfolding want_table_rules
routes-want_table_rules net TableMode.off d w = refl
routes-want_table_rules net TableMode.auto d w = refl
routes-want_table_rules net TableMode.number d w =
    if-cases {A = Wanted} (λ v. v.routes ≡ w.routes) (is_positive (table_num d)) _ _
      (λ e. routes-want_addresses net (table_num d) d.addresses w) (λ e. refl)

has_key-wanted_in :
    (net : Net) (mode : TableMode) (d : DesiredInterface) (k : RouteKey)
    → mode ≢ TableMode.off
    → has_key route_eq k (wanted_in net mode d).routes
      ≡ (contains k.dst (allowed_of net d.peers) && fits_prefix mode d k (classify_cidr net k.dst))
unfolding wanted_in
has_key-wanted_in net mode d k h =
    ap (has_key route_eq k) (routes-want_table_rules net mode d _)
    ∙ has_key-want_prefixes net mode d (sorted_prefixes net d) nothing_wanted k h
    ∙ or_false _
    ∙ ap (λ b. b && fits_prefix mode d k (classify_cidr net k.dst))
        (contains-sorted_prefixes net d k.dst)
  where
    or_false : (b : Bool) → (b || false) ≡ b
    or_false true = refl
    or_false false = refl

-- A route is wanted exactly if the interface is on, its destination is among the allowed addresses
-- of a peer that is not suspended, and its family and table are those of that destination: the main
-- table, or for a default route in auto mode the table of the mark, or in number mode the table
-- asked for.
pub wanted-routes :
    (net : Net) (d : DesiredInterface) (k : RouteKey)
    → has_key route_eq k (wanted net d).routes ≡ (
        is_on (normalize_table_mode d.table_mode) d
        && (is_reached net k.dst d.peers
            && fits_prefix (normalize_table_mode d.table_mode) d k (classify_cidr net k.dst)))
unfolding wanted wanted_for
wanted-routes net d k =
    by_mode (normalize_table_mode d.table_mode)
    ∙ ap
        (λ b.
          is_on (normalize_table_mode d.table_mode) d
          && (b && fits_prefix (normalize_table_mode d.table_mode) d k (classify_cidr net k.dst)))
        (contains-allowed_of net k.dst d.peers)
  where
    on :
        (mode : TableMode) (b : Bool)
        → mode ≢ TableMode.off
        → has_key route_eq k (if b then wanted_in net mode d else nothing_wanted).routes ≡ (
            b
            && (contains k.dst (allowed_of net d.peers)
                && fits_prefix mode d k (classify_cidr net k.dst)))
    on mode true h = has_key-wanted_in net mode d k h
    on mode false h = refl

    by_mode :
        (m : TableMode)
        → has_key route_eq k (wanted_for net m d).routes ≡ (
            is_on m d
            && (contains k.dst (allowed_of net d.peers)
                && fits_prefix m d k (classify_cidr net k.dst)))
    by_mode TableMode.off = refl
    by_mode TableMode.auto = on TableMode.auto d.enabled (λ e. auto_off e)
    by_mode TableMode.number = on TableMode.number d.enabled (λ e. number_off e)

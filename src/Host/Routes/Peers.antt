-- ===== src/Host/Routes/Peers.antt =====
-- Which destinations the peers that are not suspended are reached by.
use wireguardd.Base.{
  ◌++◌, if◌then◌else◌, contains, Bytes, bytes_eq, ◌≡◌, refl, ap, ◌∙◌, Bool, true, false, not, ◌&&◌,
  ◌||◌, Option, none, some, List, [], ◌∷◌, arith,
}
use wireguardd.Host.{DesiredPeer}
use wireguardd.Host.Net.{Net}
use wireguardd.Host.Routes.{allowed_prefix, allowed_prefixes, cons_some, allowed_of}

-- An address that is a destination, and a peer that is not suspended and reaches it.
module _ (net : Net) (dst : Bytes) where
  abbrev pub is_dst : Option Bytes → Bool
  is_dst none = false
  is_dst (some a) = bytes_eq a dst

  unfoldable pub reached_by : List Bytes → Bool
  unfolding allowed_prefix
  reached_by [] = false
  reached_by (a ∷ as') = is_dst (allowed_prefix net a) || reached_by as'

  unfoldable pub is_reached : List DesiredPeer → Bool
  unfolding reached_by
  is_reached [] = false
  is_reached (p ∷ ps) = (not p.suspended && reached_by p.allowed_ips) || is_reached ps

  contains-allowed_prefixes :
      (as' : List Bytes) → contains dst (allowed_prefixes net as') ≡ reached_by as'
  unfolding reached_by allowed_prefixes
  contains-allowed_prefixes [] = refl
  contains-allowed_prefixes (a ∷ as') =
      of_prefix (allowed_prefix net a)
      ∙ ap (λ b. is_dst (allowed_prefix net a) || b) (contains-allowed_prefixes as')
    where
      of_prefix :
          (o : Option Bytes)
          → contains dst (cons_some o (allowed_prefixes net as'))
            ≡ (is_dst o || contains dst (allowed_prefixes net as'))
      of_prefix none = refl
      of_prefix (some b) = refl

  contains-append :
      (xs ys : List Bytes) → contains dst (xs ++ ys) ≡ (contains dst xs || contains dst ys)
  contains-append [] ys = refl
  contains-append (x ∷ xs) ys = ground (arith, contains-append xs ys)

  pub contains-allowed_of :
      (ps : List DesiredPeer) → contains dst (allowed_of net ps) ≡ is_reached ps
  unfolding is_reached allowed_of
  contains-allowed_of [] = refl
  contains-allowed_of (p ∷ ps) = by_state p.suspended (contains-allowed_of ps)
    where
      by_state :
          (b : Bool)
          → contains dst (allowed_of net ps) ≡ is_reached ps
          → contains dst (
              if b
              then allowed_of net ps
              else allowed_prefixes net p.allowed_ips ++ allowed_of net ps)
            ≡ ((not b && reached_by p.allowed_ips) || is_reached ps)
      by_state true e = e
      by_state false e =
          contains-append (allowed_prefixes net p.allowed_ips) (allowed_of net ps)
          ∙ ap (λ b. b || contains dst (allowed_of net ps))
              (contains-allowed_prefixes p.allowed_ips)
          ∙ ap (λ b. reached_by p.allowed_ips || b) e

-- ===== src/Host/Resolve/Choice.antt =====
-- What ResolveBackend may return.
use wireguardd.Base.{
  if◌then◌else◌, if-cases, text, contains, Bytes, bytes_eq, ◌≡◌, refl, sym, ap, ◌∙◌, Bool, true,
  false, not, ◌&&◌, false≢true, Option, none, some,
}
use mathlib.Core.Path.{subst}
use mathlib.Core.Option.{some-injective, none-ne-some}
use wireguardd.Host.Names.{
  normalize_backend, normalize_protocol, is_amnezia_backend, canonical, normalize_backend-canonical,
}
use wireguardd.Host.Resolve.{
  BackendCaps, if_present, checked, explicit, automatic, chosen_backend, resolve_backend,
}

same_some : {a b : Bytes} → some a ≡ some b → a ≡ b
same_some {a} {b} e = some-injective a b e

-- A backend that is chosen for a protocol and a request, both normalised: it has a name of its own,
-- serves AWG where that is the protocol, and is the one that is asked for, if one is.
pub record IsChosen (proto req : Option Bytes) (b : Bytes) : Type 0 where
  pub known : contains b canonical ≡ true
  pub concrete : bytes_eq b (text "auto") ≡ false
  pub serves_awg : proto ≡ some (text "awg") → is_amnezia_backend b ≡ true
  pub as_asked : (r : Bytes) → req ≡ some r → bytes_eq r (text "auto") ≡ false → b ≡ r

abbrev AllChosen : Option Bytes → Option Bytes → Option Bytes → Type 0
AllChosen proto req o = (b : Bytes) → o ≡ some b → IsChosen proto req b

automatic-IsChosen :
    (proto req : Bytes) (caps : BackendCaps)
    → bytes_eq req (text "auto") ≡ true
    → IsChosen (some proto) (some req) (automatic proto caps)
unfolding is_amnezia_backend normalize_backend
automatic-IsChosen proto req caps h =
    if-cases (IsChosen (some proto) (some req)) (bytes_eq proto (text "awg")) _ _
      (λ e.
        if-cases (IsChosen (some proto) (some req)) caps.kernel_amnezia _ _
          (λ k. awg _ refl refl refl)
          (λ k.
            if-cases (IsChosen (some proto) (some req)) caps.userspace_amnezia _ _
              (λ k. awg _ refl refl refl) (λ k. awg _ refl refl refl)))
      (λ e.
        if-cases (IsChosen (some proto) (some req)) caps.kernel_wg _ _ (λ k. plain _ e refl refl)
          (λ k.
            if-cases (IsChosen (some proto) (some req)) caps.userspace_wg _ _
              (λ k. plain _ e refl refl) (λ k. plain _ e refl refl)))
  where
    asked : (b r : Bytes) → some req ≡ some r → bytes_eq r (text "auto") ≡ false → b ≡ r
    asked b r e k =
        absurd (false≢true (sym k ∙ ap (λ x. bytes_eq x (text "auto")) (sym (same_some e)) ∙ h))

    awg :
        (b : Bytes)
        → contains b canonical ≡ true
        → bytes_eq b (text "auto") ≡ false
        → is_amnezia_backend b ≡ true
        → IsChosen (some proto) (some req) b
    awg b k c a = record { known = k; concrete = c; serves_awg = λ e. a; as_asked = asked b }

    plain :
        (b : Bytes)
        → bytes_eq proto (text "awg") ≡ false
        → contains b canonical ≡ true
        → bytes_eq b (text "auto") ≡ false
        → IsChosen (some proto) (some req) b
    plain b n k c = record {
      known = k;
      concrete = c;
      serves_awg =
          λ e. absurd (false≢true (sym n ∙ ap (λ x. bytes_eq x (text "awg")) (same_some e) ∙ refl));
      as_asked = asked b;
    }

-- What an explicit choice gives is what was asked for.
checked_same : (req b : Bytes) (caps : BackendCaps) → checked req caps ≡ some b → b ≡ req
checked_same req b caps =
    if-cases (λ o. o ≡ some b → b ≡ req) (bytes_eq req (text "userspace")) _ _
      (λ e. present caps.userspace_wg)
      (λ e.
        if-cases (λ o. o ≡ some b → b ≡ req) (bytes_eq req (text "amnezia_go")) _ _
          (λ e. present caps.userspace_amnezia)
          (λ e.
            if-cases (λ o. o ≡ some b → b ≡ req) (bytes_eq req (text "swift")) _ _
              (λ e. present caps.swift) (λ e k. sym (same_some k))))
  where
    present : (p : Bool) → if_present p req ≡ some b → b ≡ req
    present true k = sym (same_some k)
    present false k = absurd (none-ne-some b k)

explicit-IsChosen :
    (proto req b : Bytes) (caps : BackendCaps)
    → contains req canonical ≡ true
    → bytes_eq req (text "auto") ≡ false
    → explicit proto req caps ≡ some b
    → IsChosen (some proto) (some req) b
unfolding explicit
explicit-IsChosen proto req b caps k c =
    if-cases Result (bytes_eq proto (text "awg") && not (is_amnezia_backend req)) _ _
      (λ e h. absurd (none-ne-some b h))
      (λ e.
        if-cases Result (bytes_eq proto (text "wg") && is_amnezia_backend req) _ _
          (λ f h. same e (sym (same_some h))) (λ f h. same e (checked_same req b caps h)))
  where
    Result : Option Bytes → Type 0
    Result o = o ≡ some b → IsChosen (some proto) (some req) b

    amnezia : (x y : Bool) → (x && not y) ≡ false → x ≡ true → y ≡ true
    amnezia true true e h = refl
    amnezia true false e h = absurd (false≢true (sym e))
    amnezia false y e h = absurd (false≢true h)

    same :
        (bytes_eq proto (text "awg") && not (is_amnezia_backend req)) ≡ false
        → b ≡ req
        → IsChosen (some proto) (some req) b
    same e h = subst (IsChosen (some proto) (some req)) (sym h) (record {
      known = k;
      concrete = c;
      serves_awg = λ p. amnezia _ _ e (ap (λ x. bytes_eq x (text "awg")) (same_some p) ∙ refl);
      as_asked = λ r p n. same_some p;
    })

-- Whatever is returned is a backend with a name of its own, never auto; on the AWG protocol it
-- serves AWG; and it is the backend that was asked for, whenever one was: there is no fallback.
pub resolve_backend-IsChosen :
    (protocol requested : Bytes) (caps : BackendCaps) (b : Bytes)
    → resolve_backend protocol requested caps ≡ some b
    → IsChosen (normalize_protocol protocol) (normalize_backend requested) b
unfolding resolve_backend
resolve_backend-IsChosen protocol requested caps b h =
    of_options (normalize_protocol protocol) (normalize_backend requested)
      (normalize_backend-canonical requested) h
  where
    by_auto :
        (proto req : Bytes)
        → contains req canonical ≡ true
        → (if bytes_eq req (text "auto")
            then some (automatic proto caps)
            else explicit proto req caps)
          ≡ some b
        → IsChosen (some proto) (some req) b
    by_auto proto req k =
        if-cases (λ o. o ≡ some b → IsChosen (some proto) (some req) b) (bytes_eq req (text "auto"))
          _ _
          (λ e h.
            subst (IsChosen (some proto) (some req)) (same_some h)
              (automatic-IsChosen proto req caps e))
          (λ e h. explicit-IsChosen proto req b caps k e h)

    of_options :
        (proto req : Option Bytes)
        → ((r : Bytes) → req ≡ some r → contains r canonical ≡ true)
        → chosen_backend proto req caps ≡ some b
        → IsChosen proto req b
    of_options none req k h = absurd (none-ne-some b h)
    of_options (some proto) none k h = absurd (none-ne-some b h)
    of_options (some proto) (some req) k h = by_auto proto req (k req refl) h

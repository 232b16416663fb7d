-- ===== src/Host/Names.antt =====
-- internal/wgbackend/amnezia.go: the names of backends and protocols.
use wireguardd.Base.{
  if◌then◌else◌, All, text, trim_space, to_lower, is_blank, contains, Bytes, bytes_eq, bytes_eq→eq,
  ◌≡◌, refl, sym, ◌≢◌, ◌⊎◌, inl, inr, Bool, true, false, ◌||◌, false≢true, Option, none, some, List,
  [], ◌∷◌,
}

-- The aliases of a `switch`, with what each returns.
abbrev switch : Bytes → List (List Bytes × Bytes) → Option Bytes
switch s [] = none
switch s ((names, result) ∷ cases) =
    let rest = switch s cases in if contains s names then some result else rest

abbrev pub canonical : List Bytes
canonical =
    text "auto"
    ∷ text "kernel"
    ∷ text "userspace"
    ∷ text "amnezia_kernel"
    ∷ text "amnezia_go"
    ∷ text "swift"
    ∷ []

abbrev backend_aliases : List (List Bytes × Bytes)
backend_aliases =
    (text "wg" ∷ text "wireguard" ∷ text "wireguard-kernel" ∷ [], text "kernel")
    ∷ (text "wireguard-go" ∷ text "wg-go" ∷ text "go" ∷ [], text "userspace")
    ∷ (
      text "amnezia"
          ∷ text "amneziawg"
          ∷ text "awg"
          ∷ text "amnezia-kernel"
          ∷ text "amneziawg-kernel"
          ∷ [],
      text "amnezia_kernel",
    )
    ∷ (text "amnezia-go" ∷ text "amneziawg-go" ∷ text "awg-go" ∷ [], text "amnezia_go")
    ∷ (text "swiftwg" ∷ text "swift-go" ∷ [], text "swift")
    ∷ []

abbrev backend_of : Bytes → Option Bytes
backend_of s =
    if is_blank s
    then some (text "auto")
    else if contains s canonical
    then some s
    else switch s backend_aliases

-- `NormalizeBackend`: `none` is an error.
unfoldable pub normalize_backend : Bytes → Option Bytes
unfolding trim_space to_lower
normalize_backend s = backend_of (to_lower (trim_space s))

abbrev protocol_aliases : List (List Bytes × Bytes)
protocol_aliases =
    (text "wg" ∷ text "wireguard" ∷ text "plain" ∷ [], text "wg")
    ∷ (text "awg" ∷ text "amnezia" ∷ text "amneziawg" ∷ [], text "awg")
    ∷ []

abbrev protocol_of : Bytes → Option Bytes
protocol_of s = if is_blank s then some (text "wg") else switch s protocol_aliases

-- `NormalizeProtocol`
unfoldable pub normalize_protocol : Bytes → Option Bytes
unfolding trim_space to_lower
normalize_protocol s = protocol_of (to_lower (trim_space s))

-- `b == name` on the first result of `NormalizeBackend`, which is empty on an error.
abbrev pub backend_is : Option Bytes → Bytes → Bool
backend_is none name = false
backend_is (some b) name = bytes_eq b name

-- `IsAmneziaBackend`
unfoldable pub is_amnezia_backend : Bytes → Bool
unfolding normalize_backend
is_amnezia_backend s =
    backend_is (normalize_backend s) (text "amnezia_kernel")
    || backend_is (normalize_backend s) (text "amnezia_go")
    || backend_is (normalize_backend s) (text "swift")

-- `NormalizeBackend(s)` gives the swift backend.
unfoldable pub is_swift_backend : Bytes → Bool
unfolding normalize_backend
is_swift_backend s = backend_is (normalize_backend s) (text "swift")

or-cases : (a b : Bool) → (a || b) ≡ true → (a ≡ true) ⊎ (b ≡ true)
or-cases true b h = inl refl
or-cases false b h = inr h

-- What holds of every element of a list holds of what the list contains.
contains-All :
    (P : Bytes → Type 0) (k : Bytes) (js : List Bytes) → All P js → contains k js ≡ true → P k
contains-All P k [] h e = absurd (false≢true e)
contains-All P k (j ∷ js) (p, ps) e = elim (or-cases (bytes_eq j k) (contains k js) e) [
  | inl a ↦ rw (sym (bytes_eq→eq j k a)) p
  | inr a ↦ contains-All P k js ps a
]

canonical-normal : (s : Bytes) → contains s canonical ≡ true → normalize_backend s ≡ some s
canonical-normal s =
    contains-All (λ b. normalize_backend b ≡ some b) s canonical
      (unfold normalize_backend trim_space to_lower in
        (refl, (refl, (refl, (refl, (refl, (refl, tt)))))))

none≢some : (b : Bytes) → none ≢ some b
none≢some b e = cc

-- Which side of a test gave a result.
chosen :
    (c : Bool) (x b : Bytes) (rest : Option Bytes)
    → (if c then some x else rest) ≡ some b
    → ((c ≡ true) × (x ≡ b)) ⊎ ((c ≡ false) × (rest ≡ some b))
chosen true x b rest e = inl (refl, cc)
chosen false x b rest e = inr (refl, e)

-- What holds of every result of a switch holds of what it returns.
switch-All :
    (P : Bytes → Type 0) (s b : Bytes) (cases : List (List Bytes × Bytes))
    → All (λ c. let (names, result) = c in P result) cases
    → switch s cases ≡ some b
    → P b
switch-All P s b [] h e = absurd (none≢some b e)
switch-All P s b ((names, result) ∷ cases) (p, ps) e =
    elim (chosen (contains s names) result b (switch s cases) e) [
      | inl (_, a) ↦ rw (sym a) p
      | inr (_, a) ↦ switch-All P s b cases ps a
    ]

backend_of-contains : (s b : Bytes) → backend_of s ≡ some b → contains b canonical ≡ true
backend_of-contains s b e = elim (chosen (is_blank s) (text "auto") b _ e) [
  | inl (_, a) ↦ rw (sym a) refl
  | inr (_, a) ↦ elim (chosen (contains s canonical) s b (switch s backend_aliases) a) [
    | inl (h, k) ↦ rw (sym k) h
    | inr (_, k) ↦
        switch-All (λ c. contains c canonical ≡ true) s b backend_aliases
          (refl, (refl, (refl, (refl, (refl, tt))))) k
  ]
]

-- A name that normalisation accepts is normalised to a name that normalisation keeps.
pub normalize_backend-normal :
    (s b : Bytes) → normalize_backend s ≡ some b → normalize_backend b ≡ some b
unfolding normalize_backend
normalize_backend-normal s b h =
    canonical-normal b (backend_of-contains (to_lower (trim_space s)) b h)

-- Whatever normalisation returns is one of the names.
pub normalize_backend-canonical :
    (s b : Bytes) → normalize_backend s ≡ some b → contains b canonical ≡ true
unfolding normalize_backend
normalize_backend-canonical s b h = backend_of-contains (to_lower (trim_space s)) b h

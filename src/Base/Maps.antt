-- ===== src/Base/Maps.antt =====
-- Go maps with string keys, as association lists. The order of the list is the order of a `range`.
use mathlib.Core.Path.{◌≡◌, sym}
use mathlib.Core.Bool.{Bool, false, ◌||◌}
use mathlib.Core.Logic.{inl, inr}
use mathlib.Core.Option.{Option, none, some}
use mathlib.Core.List.{List, [], ◌∷◌}
use native.Mathlib.Omega.{arith}
use wireguardd.Base.Tests.{if◌then◌else◌, Bool-cases}
use wireguardd.Base.Octets.{Bytes, bytes_eq, bytes_eq→eq, bytes_eq_refl}

abbrev pub Map {ℓ} : Type ℓ → Type ℓ
Map A = List (Bytes × A)

module _ {ℓ} {A : Type ℓ} where
  -- `m[k]` with its `ok`
  abbrev pub lookup : Bytes → Map A → Option A
  lookup k [] = none
  lookup k ((j, v) ∷ m) = let rest = lookup k m in if bytes_eq j k then some v else rest

  -- `m[k] = v`
  abbrev pub insert : Bytes → A → Map A → Map A
  insert k v [] = (k, v) ∷ []
  insert k v ((j, u) ∷ m) =
      let rest = insert k v m in if bytes_eq j k then (j, v) ∷ m else (j, u) ∷ rest

  -- `delete(m, k)`
  abbrev pub remove : Bytes → Map A → Map A
  remove k [] = []
  remove k ((j, u) ∷ m) = let rest = remove k m in if bytes_eq j k then rest else (j, u) ∷ rest

  -- Keeps the keys that a test accepts.
  abbrev pub retain : (Bytes → Bool) → Map A → Map A
  retain f [] = []
  retain f ((j, u) ∷ m) = let rest = retain f m in if f j then (j, u) ∷ rest else rest

  pub lookup-insert : (k : Bytes) (v : A) (m : Map A) → lookup k (insert k v m) ≡ some v
  lookup-insert k v [] = ground (arith, bytes_eq_refl k)
  lookup-insert k v ((j, u) ∷ m) =
      ground (arith, bytes_eq_refl k, bytes_eq→eq j k, lookup-insert k v m)

  pub lookup-insert_other :
      (k l : Bytes) (v : A) (m : Map A)
      → bytes_eq k l ≡ false
      → lookup l (insert k v m) ≡ lookup l m
  lookup-insert_other k l v [] h = ground arith
  lookup-insert_other k l v ((j, u) ∷ m) h =
      ground (arith, bytes_eq→eq j k, lookup-insert_other k l v m h)

  pub insert-insert : (k : Bytes) (v w : A) (m : Map A) → insert k v (insert k w m) ≡ insert k v m
  insert-insert k v w [] = ground (arith, bytes_eq_refl k)
  insert-insert k v w ((j, u) ∷ m) =
      ground (arith, bytes_eq_refl k, bytes_eq→eq j k, insert-insert k v w m)

  -- What a map holds after an assignment, at any key.
  pub lookup-insert_at :
      (k l : Bytes) (v : A) (m : Map A)
      → lookup l (insert k v m) ≡ (if bytes_eq k l then some v else lookup l m)
  lookup-insert_at k l v m = elim (Bool-cases (bytes_eq k l)) [
    | inl e ↦ rw (sym (bytes_eq→eq k l e), bytes_eq_refl k) (lookup-insert k v m)
    | inr e ↦ rw e (lookup-insert_other k l v m e)
  ]

  pub lookup-retain :
      (f : Bytes → Bool) (k : Bytes) (m : Map A)
      → lookup k (retain f m) ≡ (if f k then lookup k m else none)
  lookup-retain f k [] = elim (Bool-cases (f k)) [ inl e ↦ ground arith | inr e ↦ ground arith ]
  lookup-retain f k ((j, u) ∷ m) = ground (arith, bytes_eq→eq j k, lookup-retain f k m)

-- `slices.Contains`, or the test of a set of strings
abbrev pub contains : Bytes → List Bytes → Bool
contains k [] = false
contains k (j ∷ js) = bytes_eq j k || contains k js

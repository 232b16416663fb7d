-- ===== src/Snmp/Mib/Search.antt =====
-- `sort.Search` finds the boundary of a monotone test.
use wireguardd.Base.{
  ltb, Bool-cases, ltb→lt, ltb→ge, ℕ, zero, suc, ◌+◌, ◌/◌, ◌≤◌, ◌<◌, ◌≡◌, sym, ◌∙◌, inl, inr, Bool,
  true, false, false≢true, arith,
}
use wireguardd.Snmp.Mib.{search_loop, sort_search}

-- `r` splits the indices below `n`: the test fails before it and passes from it on.
pub record IsSplit (f : ℕ → Bool) (n r : ℕ) : Type 0 where
  pub within : r ≤ n
  pub below : (k : ℕ) → k < r → f k ≡ false
  pub above : (k : ℕ) → r ≤ k → k < n → f k ≡ true

abbrev pub IsMonotone : (ℕ → Bool) → ℕ → Type 0
IsMonotone f n = (a b : ℕ) → a ≤ b → b < n → f a ≡ true → f b ≡ true

false_before :
    {f : ℕ → Bool} {n : ℕ} → IsMonotone f n → (a b : ℕ) → a ≤ b → b < n → f b ≡ false → f a ≡ false
false_before {f} mono a b h k e = elim (Bool-cases (f a)) [
  | inl t ↦ absurd (false≢true (sym e ∙ mono a b h k t))
  | inr t ↦ t
]

-- What the loop knows of `i` and `j`.
record Between (f : ℕ → Bool) (n i j : ℕ) : Type 0 where
  ordered : i ≤ j
  within : j ≤ n
  below : (k : ℕ) → k < i → f k ≡ false
  above : (k : ℕ) → j ≤ k → k < n → f k ≡ true

ended : (f : ℕ → Bool) (n i j : ℕ) → Between f n i j → j ≤ i → IsSplit f n i
ended f n i j b h = record {
  within = omega (arith, b.ordered, b.within);
  below = b.below;
  above = λ k p q. b.above k (omega arith) q;
}

halved : (i j fuel : ℕ) → i < j → j ≤ i + suc fuel → (i + j) / 2 ≤ i + fuel
halved i j fuel h k = omega arith

lower :
    (f : ℕ → Bool) (n : ℕ)
    → IsMonotone f n
    → (i j : ℕ) → Between f n i j
    → i < j
    → f ((i + j) / 2) ≡ true
    → Between f n i ((i + j) / 2)
lower f n mono i j b h t = record {
  ordered = omega arith;
  within = omega (arith, b.within);
  below = b.below;
  above = λ k p q. mono ((i + j) / 2) k p q t;
}

upper :
    (f : ℕ → Bool) (n : ℕ)
    → IsMonotone f n
    → (i j : ℕ) → Between f n i j
    → i < j
    → f ((i + j) / 2) ≡ false
    → Between f n ((i + j) / 2 + 1) j
upper f n mono i j b h t = record {
  ordered = omega arith;
  within = b.within;
  below = λ k p. false_before mono k ((i + j) / 2) (omega arith) (omega (arith, b.within)) t;
  above = b.above;
}

search_loop-IsSplit :
    (f : ℕ → Bool) (n : ℕ)
    → IsMonotone f n
    → (fuel i j : ℕ) → j ≤ i + fuel
    → Between f n i j
    → IsSplit f n (search_loop fuel f i j)
unfolding search_loop
search_loop-IsSplit f n mono zero i j h b = ended f n i j b (omega (arith, b.ordered))
search_loop-IsSplit f n mono (suc fuel) i j h b = elim (Bool-cases (ltb i j)) [
  | inl wide ↦ elim (Bool-cases (f ((i + j) / 2))) [
    | inl t ↦
        rw (wide, t)
          (search_loop-IsSplit f n mono fuel i ((i + j) / 2) (halved i j fuel (ltb→lt i j wide) h)
            (lower f n mono i j b (ltb→lt i j wide) t))
    | inr t ↦
        rw (wide, t)
          (search_loop-IsSplit f n mono fuel ((i + j) / 2 + 1) j (omega (arith, ltb→lt i j wide))
            (upper f n mono i j b (ltb→lt i j wide) t))
  ]
  | inr shut ↦ rw shut (ended f n i j b (ltb→ge i j shut))
]

-- With as many rounds as elements the search ends at the boundary.
pub sort_search-IsSplit : (f : ℕ → Bool) (n : ℕ) → IsMonotone f n → IsSplit f n (sort_search n f)
unfolding sort_search
sort_search-IsSplit f n mono = search_loop-IsSplit f n mono n 0 n (omega arith) (record {
  ordered = omega arith;
  within = omega arith;
  below = λ k h. absurd (omega arith);
  above = λ k h l. absurd (omega arith);
})

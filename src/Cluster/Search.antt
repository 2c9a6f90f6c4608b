-- ===== src/Cluster/Search.antt =====
-- `sort.Search` as core/distributed_cache.go calls it: the first index at which a test that does not
-- turn false again holds.
use ryan_cache.Prelude.{
  ℕ, zero, suc, ◌+◌, ◌-◌, ◌/◌, ◌≤◌, ◌<◌, ◌≡◌, inl, inr, Bool, true, false, Bool-cases, arith, ltb,
  if◌then◌else◌,
}

-- `for i < j { h := (i + j) / 2; if !f(h) { i = h + 1 } else { j = h } }`, on fuel.
unfoldable pub search_loop : ℕ → (ℕ → Bool) → ℕ → ℕ → ℕ
search_loop zero f i j = i
search_loop (suc fuel) f i j =
    let h = (i + j) / 2 in
    let right = search_loop fuel f (h + 1) j in
    let left = search_loop fuel f i h in if ltb i j then (if f h then left else right) else i

-- `sort.Search(n, f)`; every round shortens the range, so `n` rounds suffice.
unfoldable pub sort_search : ℕ → (ℕ → Bool) → ℕ
unfolding search_loop
sort_search n f = search_loop n f 0 n

-- The test does not turn false again below `n`.
abbrev pub IsMonotone : ℕ → (ℕ → Bool) → Type 0
IsMonotone n f = (i j : ℕ) → i ≤ j → j < n → f i ≡ true → f j ≡ true

-- `r` splits the range: false before it, true from it on.
pub record Splits (n : ℕ) (f : ℕ → Bool) (r : ℕ) : Type 0 where
  pub inside : r ≤ n
  pub before : (i : ℕ) → i < r → f i ≡ false
  pub after : (i : ℕ) → r ≤ i → i < n → f i ≡ true

module _ (n : ℕ) (f : ℕ → Bool) (mono : IsMonotone n f) where
  not_yet : (h i : ℕ) → f h ≡ false → i ≤ h → h < n → f i ≡ false
  not_yet h i e le lt = elim (Bool-cases (f i)) [
    | inl t ↦ absurd (cc (mono i h le lt t))
    | inr b ↦ b
  ]

  search_loop-Splits :
      (fuel i j : ℕ)
      → j - i ≤ fuel
      → i ≤ j
      → j ≤ n
      → ((k : ℕ) → k < i → f k ≡ false)
      → ((k : ℕ) → j ≤ k → k < n → f k ≡ true)
      → Splits n f (search_loop fuel f i j)
  unfolding search_loop
  search_loop-Splits zero i j enough le top lo hi = record {
    inside = omega arith;
    before = lo;
    after = λ k p q. hi k (omega arith) q;
  }
  search_loop-Splits (suc fuel) i j enough le top lo hi = elim (Bool-cases (ltb i j)) [
    | inr e ↦
        rw e (record { inside = omega arith; before = lo; after = λ k p q. hi k (ground arith) q })
    | inl e ↦ elim (Bool-cases (f ((i + j) / 2))) [
      | inl t ↦
          rw (e, t)
            (search_loop-Splits fuel i ((i + j) / 2) (ground arith) (ground arith) (ground arith) lo
              (λ k p q. mono ((i + j) / 2) k p q t))
      | inr b ↦
          rw (e, b)
            (search_loop-Splits fuel ((i + j) / 2 + 1) j (ground arith) (ground arith) top
              (λ k p. not_yet ((i + j) / 2) k b (omega arith) (ground arith)) hi)
    ]
  ]

  -- The search ends, and at the first index that passes the test.
  pub sort_search-Splits : Splits n f (sort_search n f)
  unfolding sort_search
  sort_search-Splits =
      search_loop-Splits n 0 n (omega arith) (omega arith) (omega arith)
        (λ k p. absurd (omega arith)) (λ k p q. absurd (omega arith))

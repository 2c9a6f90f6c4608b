-- ===== src/Problems/Bloom.antt =====
-- The Bloom filter of tutorial/03-problems/penetration.go. `sum32` is the 32-bit FNV-1a hash of
-- hash/fnv.
use ryan_cache.Prelude.{
  ℕ, zero, suc, ◌+◌, ◌%◌, String, Bool, true, false, List, [], ◌∷◌, Result, ok, panic, ◌>>=◌, itoa,
  concat, index_range, divide_by_zero, ◌==◌, if◌then◌else◌,
}

pub record BloomFilter : Type 0 where
  pub bit_array : List Bool
  pub size : ℕ
  pub hash_funcs : ℕ

-- `make([]bool, size)`
unfoldable pub zeros : ℕ → List Bool
zeros zero = []
zeros (suc n) = false ∷ zeros n

-- `NewBloomFilter`
unfoldable pub new_bloom_filter : ℕ → ℕ → BloomFilter
unfolding zeros
new_bloom_filter size hash_funcs = record {
  bit_array = zeros size;
  size = size;
  hash_funcs = hash_funcs;
}

-- `bits[i]` and `bits[i] = true`
unfoldable pub bit_at : ℕ → List Bool → Result Bool
bit_at i [] = panic index_range
bit_at zero (b ∷ bits) = ok b
bit_at (suc i) (b ∷ bits) = bit_at i bits

unfoldable pub set_bit : ℕ → List Bool → Result (List Bool)
set_bit i [] = panic index_range
set_bit zero (b ∷ bits) = ok (true ∷ bits)
set_bit (suc i) (b ∷ bits) = do rest ← set_bit i bits; ok (b ∷ rest)

module _ (sum32 : String → ℕ) where
  -- `hash`
  unfoldable pub hash : String → ℕ → BloomFilter → Result ℕ
  hash item seed bf =
      if bf.size == 0 then panic divide_by_zero else ok (sum32 (concat item (itoa seed)) % bf.size)

  -- The loop of `Add`, with the rounds left and `i`.
  unfoldable pub add_from : String → ℕ → ℕ → BloomFilter → Result BloomFilter
  unfolding hash set_bit
  add_from item zero i bf = ok bf
  add_from item (suc rounds) i bf = do
    h ← hash item i bf
    bits ← set_bit h bf.bit_array
    add_from item rounds (i + 1) (record bf { bit_array = bits })

  -- `Add`
  unfoldable pub add : String → BloomFilter → Result BloomFilter
  unfolding add_from
  add item bf = add_from item bf.hash_funcs 0 bf

  -- The loop of `MightContain`
  unfoldable pub check_from : String → ℕ → ℕ → BloomFilter → Result Bool
  unfolding hash bit_at
  check_from item zero i bf = ok true
  check_from item (suc rounds) i bf = do
    h ← hash item i bf
    b ← bit_at h bf.bit_array
    let rest = check_from item rounds (i + 1) bf
    if b then rest else ok false

  -- `MightContain`
  unfoldable pub might_contain : String → BloomFilter → Result Bool
  unfolding check_from
  might_contain item bf = check_from item bf.hash_funcs 0 bf

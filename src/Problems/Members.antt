-- ===== src/Problems/Members.antt =====
-- The Bloom filter of tutorial/03-problems/penetration.go has no false negatives.
use ryan_cache.Prelude.{
  ℕ, zero, suc, ◌+◌, ◌%◌, ◌<◌, ◌≡◌, refl, subst, ◌∙◌, ◌⊎◌, inl, inr, String, Bool, true, List, [],
  ◌∷◌, arith, Result, ok, ◌>>=◌, itoa, concat, length, All,
}
use native.Mathlib.Nat.{mod-lt}
use ryan_cache.Problems.Bloom.{
  BloomFilter, zeros, new_bloom_filter, bit_at, set_bit, hash, add_from, add, check_from,
  might_contain,
}

abbrev IsOn : ℕ → List Bool → Type 0
IsOn i bits = bit_at i bits ≡ ok true

abbrev IsKept : List Bool → List Bool → Type 0
IsKept bits bits1 = (j : ℕ) → IsOn j bits → IsOn j bits1

set_bit_lem :
    (i : ℕ) (bits : List Bool)
    → i < length bits
    → (bits1 : List Bool) × (set_bit i bits ≡ ok bits1)
      × (length bits1 ≡ length bits)
      × IsOn i bits1
      × IsKept bits bits1
unfolding set_bit bit_at
set_bit_lem i [] h = absurd (omega arith)
set_bit_lem zero (b ∷ bits) h = (true ∷ bits, refl, refl, refl, λ j e. kept j e)
  where
    kept : (j : ℕ) → IsOn j (b ∷ bits) → IsOn j (true ∷ bits)
    kept zero e = refl
    kept (suc j) e = e
set_bit_lem (suc i) (b ∷ bits) h =
    let (bits1, ran, same, on, kept) = set_bit_lem i bits (omega arith) in
    (b ∷ bits1, ground (arith, ran), omega (arith, same), on, λ j e. shifted bits1 kept j e)
  where
    shifted :
        (bits1 : List Bool) → IsKept bits bits1 → (j : ℕ) → IsOn j (b ∷ bits) → IsOn j (b ∷ bits1)
    shifted bits1 kept zero e = e
    shifted bits1 kept (suc j) e = kept j e

zeros-length : (n : ℕ) → length (zeros n) ≡ n
unfolding zeros
zeros-length zero = refl
zeros-length (suc n) = omega (arith, zeros-length n)

record IsSized (bf : BloomFilter) : Type 0 where
  positive : 0 < bf.size
  sized : length bf.bit_array ≡ bf.size

abbrev pub Among : String → List String → Type 0
Among x [] = ⊥
Among x (y ∷ items) = (y ≡ x) ⊎ Among x items

module _ (sum32 : String → ℕ) where
  abbrev slot : String → ℕ → ℕ → ℕ
  slot item i size = sum32 (concat item (itoa i)) % size

  -- The bits of an item, from the round `i` on.
  abbrev IsMarked : String → ℕ → ℕ → ℕ → List Bool → Type 0
  IsMarked item zero i size bits = Unit
  IsMarked item (suc rounds) i size bits =
      IsOn (slot item i size) bits × IsMarked item rounds (i + 1) size bits

  IsMarked-IsKept :
      (item : String) (rounds i size : ℕ) (bits bits1 : List Bool)
      → IsKept bits bits1
      → IsMarked item rounds i size bits
      → IsMarked item rounds i size bits1
  IsMarked-IsKept item zero i size bits bits1 kept m = tt
  IsMarked-IsKept item (suc rounds) i size bits bits1 kept m =
      (kept _ m.0, IsMarked-IsKept item rounds (i + 1) size bits bits1 kept m.1)

  hash_lem :
      (item : String) (i : ℕ) (bf : BloomFilter)
      → 0 < bf.size
      → hash sum32 item i bf ≡ ok (slot item i bf.size)
  unfolding hash
  hash_lem item i bf h = ground arith

  add_from_lem :
      (item : String) (rounds i : ℕ) (bf : BloomFilter)
      → IsSized bf
      → (bits : List Bool) × (add_from sum32 item rounds i bf ≡ ok (record bf { bit_array = bits }))
        × (length bits ≡ length bf.bit_array)
        × IsKept bf.bit_array bits
        × IsMarked item rounds i bf.size bits
  unfolding add_from
  add_from_lem item zero i bf w = (bf.bit_array, refl, refl, (λ j e. e), tt)
  add_from_lem item (suc rounds) i bf w =
      let h = slot item i bf.size in
      let below = mod-lt (sum32 (concat item (itoa i))) w.positive in
      let (bits, ran, same, on, kept) =
        set_bit_lem h bf.bit_array (omega (arith, below, w.sized)) in
      let bf1 : BloomFilter = record bf { bit_array = bits } in
      let w1 : IsSized bf1 = record { positive = w.positive; sized = same ∙ w.sized } in
      let (bits1, ran1, same1, kept1, marked) = add_from_lem item rounds (i + 1) bf1 w1 in
      (
        bits1,
        ground (arith, hash_lem item i bf w.positive, ran, ran1),
        same1 ∙ same,
        (λ j e. kept1 j (kept j e)),
        (kept1 h on, marked),
      )

  check_from_lem :
      (item : String) (rounds i : ℕ) (bf : BloomFilter)
      → 0 < bf.size
      → IsMarked item rounds i bf.size bf.bit_array
      → check_from sum32 item rounds i bf ≡ ok true
  unfolding check_from
  check_from_lem item zero i bf h m = refl
  check_from_lem item (suc rounds) i bf h m =
      ground (arith, hash_lem item i bf h, m.0, check_from_lem item rounds (i + 1) bf h m.1)

  -- Items that are added one after the other.
  unfoldable pub add_all : List String → BloomFilter → Result BloomFilter
  unfolding add
  add_all [] bf = ok bf
  add_all (item ∷ items) bf = add sum32 item bf >>= add_all items

  abbrev AllMarked : List String → BloomFilter → Type 0
  AllMarked items bf = All (λ x. IsMarked x bf.hash_funcs 0 bf.size bf.bit_array) items

  -- What was marked stays, and each added item is.
  add_all_lem :
      (items : List String) (bf : BloomFilter)
      → IsSized bf
      → (bits : List Bool) × (add_all items bf ≡ ok (record bf { bit_array = bits }))
        × IsKept bf.bit_array bits
        × AllMarked items (record bf { bit_array = bits })
  unfolding add_all
  add_all_lem [] bf w = (bf.bit_array, refl, (λ j e. e), tt)
  add_all_lem (item ∷ items) bf w =
      let (bits, ran, same, kept, marked) = add_from_lem item bf.hash_funcs 0 bf w in
      let bf1 : BloomFilter = record bf { bit_array = bits } in
      let w1 : IsSized bf1 = record { positive = w.positive; sized = same ∙ w.sized } in
      let (bits1, ran1, kept1, all) = add_all_lem items bf1 w1 in
      (
        bits1,
        ground (arith, ran, ran1),
        (λ j e. kept1 j (kept j e)),
        (IsMarked-IsKept item bf.hash_funcs 0 bf.size bits bits1 kept1 marked, all),
      )

  IsMarked-Among :
      (x : String) (items : List String) (bf : BloomFilter)
      → Among x items
      → AllMarked items bf
      → IsMarked x bf.hash_funcs 0 bf.size bf.bit_array
  IsMarked-Among x [] bf m all = absurd m
  IsMarked-Among x (y ∷ items) bf (inl e) all =
      subst (λ z. IsMarked z bf.hash_funcs 0 bf.size bf.bit_array) e all.0
  IsMarked-Among x (y ∷ items) bf (inr m) all = IsMarked-Among x items bf m all.1

  -- A Bloom filter of at least one bit has no false negatives: with any items added to it, one after
  -- the other, it runs without a fault and answers for each of them that it might be there.
  pub might_contain-add_all :
      (size hash_funcs : ℕ) (items : List String)
      → 0 < size
      → (bf : BloomFilter) × (add_all items (new_bloom_filter size hash_funcs) ≡ ok bf)
        × ((x : String) → Among x items → might_contain sum32 x bf ≡ ok true)
  unfolding new_bloom_filter might_contain
  might_contain-add_all size hash_funcs items h =
      let bf0 = new_bloom_filter size hash_funcs in
      let w : IsSized bf0 = record { positive = h; sized = zeros-length size } in
      let (bits, ran, kept, all) = add_all_lem items bf0 w in
      let bf : BloomFilter = record bf0 { bit_array = bits } in
      (bf, ran, λ x m. check_from_lem x hash_funcs 0 bf h (IsMarked-Among x items bf m all))

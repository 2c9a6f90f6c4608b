-- ===== src/Problems/Tests.antt =====
-- Runs of the Bloom filter and of the cache of empty values of tutorial/03-problems, and each theorem
-- about them at a run.
use ryan_cache.Prelude.{
  ℕ, ◌≡◌, refl, String, String_discrete, true, false, [], ◌∷◌, ok, ◌>>=◌, arith, itoa, itoa_digits,
  if◌then◌else◌,
}
use text.Mathlib.Text.{◌==◌}
use ryan_cache.GoMap.{lookup, insert}
use ryan_cache.Problems.Bloom.{
  BloomFilter, zeros, new_bloom_filter, bit_at, set_bit, hash, add_from, add, check_from,
  might_contain,
}
use ryan_cache.Problems.Members
use ryan_cache.Problems.Members.{add_all, Among}
use ryan_cache.Problems.Null
use ryan_cache.Problems.Null.{NullCache, new_null_cache}

-- A hash with a collision: "b" in the second round falls on the bit of "a" in the first.
abbrev toy_sum : String → ℕ
toy_sum s =
    if s == "a0"
    then 3
    else if s == "a1"
    then 12
    else if s == "b0"
    then 6
    else if s == "b1"
    then 11
    else 5

absent_run :
    (add_all toy_sum ("a" ∷ "b" ∷ []) (new_bloom_filter 8 2) >>= might_contain toy_sum "c")
    ≡ ok false
unfolding add_all add add_from hash set_bit bit_at new_bloom_filter zeros might_contain check_from
    itoa itoa_digits
absent_run = refl

might_contain-add_all_example :
    (bf : BloomFilter) × (add_all toy_sum ("a" ∷ "b" ∷ []) (new_bloom_filter 8 2) ≡ ok bf)
    × ((x : String) → Among x ("a" ∷ "b" ∷ []) → might_contain toy_sum x bf ≡ ok true)
might_contain-add_all_example =
    Members.might_contain-add_all toy_sum 8 2 ("a" ∷ "b" ∷ []) (omega arith)

-- A key without a value, within its time and after it.
null_run :
    (Null.get 8 "a" (Null.set_null 5 "a" 3 new_null_cache) ≡ ("", true, true))
    × (Null.get 9 "a" (Null.set_null 5 "a" 3 new_null_cache) ≡ ("", false, false))
unfolding Null.get Null.set_null lookup insert String_discrete
null_run = (refl, refl)

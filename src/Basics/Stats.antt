-- ===== src/Basics/Stats.antt =====
-- `StatsCache` of tutorial/01-basics/simple_cache.go: a simple cache that counts its reads.
use ryan_cache.Prelude.{
  ℕ, suc, ◌+◌, ◌≡◌, String, List, [], ◌∷◌, Option, none, some, arith, length, inl, inr,
  Option-cases,
}
use ryan_cache.Basics.Simple
use ryan_cache.Basics.Simple.{SimpleCache, new_simple_cache}

pub record Counts : Type 0 where
  pub hits : ℕ
  pub misses : ℕ

pub record StatsCache (V : Type 0) : Type 0 where
  pub simple : SimpleCache V
  pub stats : Counts

-- `NewStatsCache`
abbrev pub new_stats_cache : {V : Type 0} → StatsCache V
new_stats_cache = record { simple = new_simple_cache; stats = record { hits = 0; misses = 0 } }

abbrev pub count_hit : Counts → Counts
count_hit s = record s { hits = s.hits + 1 }

abbrev pub count_miss : Counts → Counts
count_miss s = record s { misses = s.misses + 1 }

-- A history of calls.
pub data Call (V : Type 0) : Type 0 where
  gets : String → Call V
  sets : String → V → Call V
  deletes : String → Call V
  resets : Call V

module _ {V : Type 0} where
  -- `Get`
  unfoldable pub get : String → StatsCache V → StatsCache V × Option V
  get key c = elim (Simple.get key c.simple) [
    | none ↦ (record c { stats = count_miss c.stats }, none)
    | some v ↦ (record c { stats = count_hit c.stats }, some v)
  ]

  -- `Set` and `Delete`, of the cache inside
  abbrev pub set : String → V → StatsCache V → StatsCache V
  set key value c = record c { simple = Simple.set key value c.simple }

  abbrev pub delete_key : String → StatsCache V → StatsCache V
  delete_key key c = record c { simple = Simple.delete_key key c.simple }

  -- `ResetStats`
  abbrev pub reset_stats : StatsCache V → StatsCache V
  reset_stats c = record c { stats = record { hits = 0; misses = 0 } }

  unfoldable pub run : List (Call V) → StatsCache V → StatsCache V × List (Option V)
  unfolding get
  run [] c = (c, [])
  run (gets key ∷ calls) c =
      let (c1, found) = get key c in let (c2, answers) = run calls c1 in (c2, found ∷ answers)
  run (sets key value ∷ calls) c = run calls (set key value c)
  run (deletes key ∷ calls) c = run calls (delete_key key c)
  run (resets ∷ calls) c = run calls (reset_stats c)

  -- What the counts should be, by the answers that the reads since the last reset got.
  unfoldable pub found_count : List (Option V) → ℕ
  found_count [] = 0
  found_count (none ∷ answers) = found_count answers
  found_count (some v ∷ answers) = suc (found_count answers)

  -- A history without a reset.
  abbrev pub NoReset : List (Call V) → Type 0
  NoReset [] = Unit
  NoReset (gets key ∷ calls) = NoReset calls
  NoReset (sets key value ∷ calls) = NoReset calls
  NoReset (deletes key ∷ calls) = NoReset calls
  NoReset (resets ∷ calls) = ⊥

  -- Over any history without a reset, the hits grow by the number of reads that found a value, and
  -- hits and misses together by the number of reads.
  pub run-counts :
      (calls : List (Call V)) (c : StatsCache V)
      → NoReset calls
      → ((run calls c).0.stats.hits ≡ c.stats.hits + found_count (run calls c).1)
        × ((run calls c).0.stats.hits + (run calls c).0.stats.misses
            ≡ c.stats.hits + c.stats.misses + length (run calls c).1)
  unfolding run found_count
  run-counts [] c h = (omega arith, omega arith)
  run-counts (gets key ∷ calls) c h =
      let rest = run-counts calls (get key c).0 h in
      elim (Option-cases (Simple.get key c.simple)) [
        | inl e ↦ (ground (arith, e, rest.0), ground (arith, e, rest.1))
        | inr (v, e) ↦ (ground (arith, e, rest.0), ground (arith, e, rest.1))
      ]
  run-counts (sets key value ∷ calls) c h = run-counts calls (set key value c) h
  run-counts (deletes key ∷ calls) c h = run-counts calls (delete_key key c) h
  run-counts (resets ∷ calls) c h = absurd h

-- ===== src/Patterns/Through.antt =====
-- tutorial/02-patterns/write_through.go: a write goes to the cache and to the database. `Set`,
-- `SetWithRollback` and `Delete` hold the lock for their whole body.
use ryan_cache.Prelude.{
  ◌≡◌, ◌≢◌, refl, ap, sym, subst, ◌∙◌, inl, inr, String, String_discrete, List, Option, none, some,
  ite, if_pos, if_neg, arith, Option-cases,
}
use ryan_cache.GoMap.{lookup, lookup-insert, lookup-delete}
use ryan_cache.Patterns.Database
use ryan_cache.Patterns.Database.{Database, new_database}
use ryan_cache.Patterns.Cache
use ryan_cache.Patterns.Cache.{Cache, new_cache}
use ryan_cache.Patterns.Coherent.{
  read_through, Coherent, put_both-Coherent, delete_both-Coherent, read_through_lem, db_map,
  db_map-set, db_map-delete,
}
use ryan_cache.Patterns.Spec.{
  Call, gets, sets, deletes, other, Answer, done, refused, answer_of, Plain, put, expect,
  expect_all, run, Implements,
}
use ryan_cache.Patterns.Spec

pub record WriteThroughCache : Type 0 where
  pub cache : Cache
  pub db : Database

-- `NewWriteThroughCache`
abbrev pub new_write_through_cache : WriteThroughCache
new_write_through_cache = record { cache = new_cache; db = new_database }

-- `Get`
unfoldable pub get : String → WriteThroughCache → WriteThroughCache × Option String
unfolding read_through
get key wt = let (c, found) = read_through key wt.cache wt.db in (record wt { cache = c }, found)

-- `Set`
unfoldable pub set : String → String → WriteThroughCache → WriteThroughCache
set key value wt = record {
  cache = Cache.set key value wt.cache;
  db = Database.set key value wt.db;
}

-- The way back to what the cache held.
unfoldable pub roll_back : String → Option String → Cache → Cache
roll_back key none c = Cache.delete_key key c
roll_back key (some original) c = Cache.set key original c

-- `SetWithRollback`, and whether it succeeded: the write of one key is made to fail.
unfoldable pub set_with_rollback : String → String → WriteThroughCache → WriteThroughCache × Answer
unfolding roll_back
set_with_rollback key value wt =
    let original = Cache.get key wt.cache in
    let c = Cache.set key value wt.cache in
    let failed : WriteThroughCache × Answer =
      (record wt { cache = roll_back key original c }, refused) in
    let written : WriteThroughCache × Answer =
      (record { cache = c; db = Database.set key value wt.db }, done) in
    ite (String_discrete key "fail_key") failed written

-- `Delete`
unfoldable pub delete_key : String → WriteThroughCache → WriteThroughCache
delete_key key wt = record {
  cache = Cache.delete_key key wt.cache;
  db = Database.delete_key key wt.db;
}

-- A call, with the key and the value of `SetWithRollback` as the other one.
unfoldable pub step : Call (String × String) → WriteThroughCache → WriteThroughCache × Answer
unfolding get set delete_key set_with_rollback
step (gets key) wt = let (wt1, found) = get key wt in (wt1, answer_of found)
step (sets key value) wt = (set key value wt, done)
step (deletes key) wt = (delete_key key wt, done)
step (other (key, value)) wt = set_with_rollback key value wt

-- What `SetWithRollback` promises: a write, or an error that changes nothing.
abbrev pub effect : String × String → Plain → Plain × Answer
effect (key, value) m =
    ite (String_discrete key "fail_key") (m, refused) (put key (some value) m, done)

-- The entries after the way back are those before.
roll_back_lem :
    (key value k : String) (c : Cache)
    → Cache.get k (roll_back key (Cache.get key c) (Cache.set key value c)) ≡ Cache.get k c
unfolding roll_back
roll_back_lem key value k c =
    let c1 = Cache.set key value c in
    elim (Option-cases (Cache.get key c)) [
      | inl e ↦ elim (String_discrete key k) [
        | yes p ↦ ground (arith, e, p, lookup-delete String_discrete key k c1.data_of)
        | no p ↦ ground (
          arith,
          e,
          p,
          lookup-delete String_discrete key k c1.data_of,
          lookup-insert String_discrete key k value c.data_of,
        )
      ]
      | inr (v, e) ↦ elim (String_discrete key k) [
        | yes p ↦ ground (arith, e, p, lookup-insert String_discrete key k v c1.data_of)
        | no p ↦ ground (
          arith,
          e,
          p,
          lookup-insert String_discrete key k v c1.data_of,
          lookup-insert String_discrete key k value c.data_of,
        )
      ]
    ]

-- `SetWithRollback` by its test.
abbrev taken_back : String → String → WriteThroughCache → WriteThroughCache
taken_back key value wt = record wt {
  cache = roll_back key (Cache.get key wt.cache) (Cache.set key value wt.cache);
}

rollback_fails :
    (key value : String) (wt : WriteThroughCache)
    → key ≡ "fail_key"
    → set_with_rollback key value wt ≡ (taken_back key value wt, refused)
unfolding set_with_rollback
rollback_fails key value wt p = if_pos (String_discrete key "fail_key") p _ _

rollback_writes :
    (key value : String) (wt : WriteThroughCache)
    → key ≢ "fail_key"
    → set_with_rollback key value wt ≡ (set key value wt, done)
unfolding set_with_rollback set
rollback_writes key value wt p = if_neg (String_discrete key "fail_key") p _ _

rollback-Coherent :
    (key value : String) (wt : WriteThroughCache)
    → Coherent wt.cache wt.db
    → Coherent (set_with_rollback key value wt).0.cache (set_with_rollback key value wt).0.db
unfolding set
rollback-Coherent key value wt w = elim (String_discrete key "fail_key") [
  | yes p ↦
      subst (λ r. Coherent r.0.cache r.0.db) (sym (rollback_fails key value wt p))
        (λ k v h. w k v (sym (roll_back_lem key value k wt.cache) ∙ h))
  | no p ↦
      subst (λ r. Coherent r.0.cache r.0.db) (sym (rollback_writes key value wt p))
        (put_both-Coherent key value wt.cache wt.db w)
]

step-Coherent :
    (c : Call (String × String)) (wt : WriteThroughCache)
    → Coherent wt.cache wt.db
    → Coherent (step c wt).0.cache (step c wt).0.db
unfolding step get set delete_key
step-Coherent (gets key) wt w = (read_through_lem key wt.cache wt.db w).1
step-Coherent (sets key v) wt w = put_both-Coherent key v wt.cache wt.db w
step-Coherent (deletes key) wt w = delete_both-Coherent key wt.cache wt.db w
step-Coherent (other (key, v)) wt w = rollback-Coherent key v wt w

step-answers :
    (c : Call (String × String)) (wt : WriteThroughCache)
    → Coherent wt.cache wt.db
    → (step c wt).1 ≡ (expect effect c (db_map wt.db)).1
unfolding step get set_with_rollback expect
step-answers (gets key) wt w = ap answer_of (read_through_lem key wt.cache wt.db w).0
step-answers (sets key v) wt w = refl
step-answers (deletes key) wt w = refl
step-answers (other (key, v)) wt w = ground arith

rollback-shows :
    (key v : String) (wt : WriteThroughCache)
    → db_map (set_with_rollback key v wt).0.db ≡ (effect (key, v) (db_map wt.db)).0
unfolding set
rollback-shows key v wt = elim (String_discrete key "fail_key") [
  | yes p ↦
      ap (λ r. db_map r.0.db) (rollback_fails key v wt p)
      ∙ ap (λ (q : Plain × Answer). q.0) (sym (if_pos (String_discrete key "fail_key") p _ _))
  | no p ↦
      ap (λ r. db_map r.0.db) (rollback_writes key v wt p)
      ∙ (db_map-set key v wt.db
          ∙ ap (λ (q : Plain × Answer). q.0) (sym (if_neg (String_discrete key "fail_key") p _ _)))
]

step-shows :
    (c : Call (String × String)) (wt : WriteThroughCache)
    → db_map (step c wt).0.db ≡ (expect effect c (db_map wt.db)).0
unfolding step get set delete_key expect
step-shows (gets key) wt = refl
step-shows (sets key v) wt = db_map-set key v wt.db
step-shows (deletes key) wt = db_map-delete key wt.db
step-shows (other (key, v)) wt = rollback-shows key v wt

abbrev implements : Implements effect step
implements = record {
  view = λ wt. db_map wt.db;
  IsValid = λ wt. Coherent wt.cache wt.db;
  keeps = step-Coherent;
  answers = step-answers;
  shows = λ c wt w. step-shows c wt;
}

-- A write-through cache that starts empty, on any database, answers every history of reads, writes,
-- writes with a rollback and deletions as one map does that starts with what the database holds,
-- where a write that is rolled back returns an error and changes nothing; the database holds the map
-- of the end, and the cache nothing else.
pub through-refines :
    (calls : List (Call (String × String))) (db : Database)
    → let wt : WriteThroughCache = record { cache = new_cache; db = db } in
      ((run effect step calls wt).1 ≡ (expect_all effect calls (db_map db)).1)
      × (db_map (run effect step calls wt).0.db ≡ (expect_all effect calls (db_map db)).0)
      × Coherent (run effect step calls wt).0.cache (run effect step calls wt).0.db
unfolding lookup
through-refines calls db =
    Spec.history effect step implements calls (record { cache = new_cache; db = db })
      (λ k v e. cc e)

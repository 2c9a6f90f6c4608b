-- ===== src/Lru/History/Sound.antt =====
-- No history of calls meets a fault, and every answer is the model's.
use ryan_cache.Prelude.{
  ℕ, ◌+◌, ◌<◌, ◌≡◌, refl, ap, subst, sym, ◌∙◌, inl, inr, Bool-cases, Option-cases, String,
  String_discrete, List, [], ◌∷◌, Option, none, some, arith, Result, ok, ◌>>=◌, length,
}
use ryan_cache.GoMap.{GoMap, lookup, insert}
use ryan_cache.Lru.Heap.Defs.{Ptr}
use ryan_cache.Lru.Defs.{
  Time, LruCache, calculate_memory_usage, new_lru_cache_with_cleanup, open_chan,
}
use ryan_cache.Lru.Methods.{set_with_ttl, set_expiry, ttl_delete, ttl_lookup, is_expired}
use ryan_cache.Lru.Model
use ryan_cache.Lru.Model.{View, view, IsValid, HasExpiry}
use ryan_cache.Lru.Model.Room.{make_room-ttl_map}
use ryan_cache.Lru.Model.Valid.{set-IsValid, get-IsValid, delete_key-IsValid, update-IsValid}
use ryan_cache.Lru.Reps.{Reps, Gives, Returns, Reps-update}
use ryan_cache.Lru.Refine.Setting.{set_internal-refines}
use ryan_cache.Lru.Refine.Reading.{get-refines}
use ryan_cache.Lru.Refine.Deletion.{delete_key-refines}
use ryan_cache.Lru.Refine.Creation.{empty_view, new_lru_cache_with_cleanup-Gives}
use ryan_cache.Lru.History.{
  Call, sets, sets_for, gets, deletes, Answer, step, run, expect, expect_all,
}

-- `SetWithTTL` on a cache that has a map of expiry times.
set_with_ttl-refines :
    (now : Time) (k x : String) (ttl : ℕ) (c : LruCache) (xs : List Ptr)
    → Reps c xs
    → IsValid (view c xs)
    → HasExpiry (Model.set k x (view c xs))
    → Gives (set_with_ttl now k x ttl c) (Model.set_for now k x ttl (view c xs))
unfolding set_with_ttl set_expiry Model.set_for Model.remember
set_with_ttl-refines now k x ttl c xs r v (m, e) =
    let (c1, zs, ran, r1, w) = set_internal-refines k x c xs r v in
    let has : c1.ttl_map ≡ some m =
      ap {A = View} {B = Option (GoMap String Time)} (λ u. u.ttl_map) w ∙ e in
    let m' = some (insert String_discrete k (now + ttl) m) in
    (
      record c1 { ttl_map = m' },
      zs,
      rw (ran, has, set_expiry),
      Reps-update c1 zs r1 m' c1.cleanup_stats c1.stats c1.memory_usage,
      rw (e, Model.remember) (ap {A = View} {B = View} (λ u. record u { ttl_map = m' }) w),
    )

-- Setting an entry leaves the expiry times alone.
pub set-ttl_map : (k x : String) (v : View) → (Model.set k x v).ttl_map ≡ v.ttl_map
unfolding Model.set Model.store
set-ttl_map k x v =
    ground (arith, make_room-ttl_map (length v.items) (calculate_memory_usage k x) v)

ttl_delete-some :
    (k : String) (o : Option (GoMap String Time)) (m : GoMap String Time)
    → o ≡ some m
    → (m' : GoMap String Time) × (ttl_delete k o ≡ some m')
unfolding ttl_delete
ttl_delete-some k none m e = absurd (cc)
ttl_delete-some k (some n) m e = (_, refl)

remember-some :
    (k : String) (t : Time) (o : Option (GoMap String Time)) (m : GoMap String Time)
    → o ≡ some m
    → (m' : GoMap String Time) × (Model.remember k t o ≡ some m')
unfolding Model.remember
remember-some k t none m e = absurd (cc)
remember-some k t (some n) m e = (_, refl)

get-HasExpiry :
    (now : Time) (k : String) (v : View) (m : GoMap String Time)
    → v.ttl_map ≡ some m
    → HasExpiry (Model.get now k v).0
unfolding Model.get
get-HasExpiry now k v m e = elim (Option-cases (lookup String_discrete k v.items)) [
  | inl gone ↦ rw (gone, Model.get) (m, e)
  | inr (x, here) ↦ elim (Bool-cases (is_expired now (ttl_lookup k v.ttl_map))) [
    | inl late ↦ rw (here, Model.get, late) (ttl_delete-some k v.ttl_map m e)
    | inr live ↦ rw (here, Model.get, live) (m, e)
  ]
]

delete_key-HasExpiry :
    (k : String) (v : View) (m : GoMap String Time)
    → v.ttl_map ≡ some m
    → HasExpiry (Model.delete_key k v).0
unfolding Model.delete_key
delete_key-HasExpiry k v m e = elim (Option-cases (lookup String_discrete k v.items)) [
  | inl gone ↦ rw (gone, Model.delete_key) (m, e)
  | inr (x, here) ↦ rw (here, Model.delete_key) (ttl_delete-some k v.ttl_map m e)
]

-- Every call keeps the invariant, and the map of expiry times.
abbrev Good : View → Type 0
Good v = IsValid v × HasExpiry v

expect-Good : (call : Call) (v : View) → Good v → Good (expect call v).0
unfolding expect
expect-Good (sets k x) v (h, (m, e)) = (set-IsValid k x v h, (m, set-ttl_map k x v ∙ e))
expect-Good (sets_for now k x ttl) v (h, (m, e)) =
    let w = Model.set k x v in
    (
      update-IsValid w (Model.remember k (now + ttl) w.ttl_map) w.cleanup_stats w.stats
          (set-IsValid k x v h),
      remember-some k (now + ttl) w.ttl_map m (set-ttl_map k x v ∙ e),
    )
expect-Good (gets now k) v (h, (m, e)) = (get-IsValid now k v h, get-HasExpiry now k v m e)
expect-Good (deletes k) v (h, (m, e)) = (delete_key-IsValid k v h, delete_key-HasExpiry k v m e)

-- One call.
step-refines :
    (call : Call) (c : LruCache) (xs : List Ptr)
    → Reps c xs
    → Good (view c xs)
    → Returns (step call c) (expect call (view c xs))
unfolding step expect
step-refines (sets k x) c xs r (h, (m, e)) =
    let (c1, zs, ran, r1, w) = set_internal-refines k x c xs r h in (c1, zs, rw ran, r1, w)
step-refines (sets_for now k x ttl) c xs r (h, (m, e)) =
    let has = set-ttl_map k x (view c xs) ∙ e in
    let (c1, zs, ran, r1, w) = set_with_ttl-refines now k x ttl c xs r h (m, has) in
    (c1, zs, rw ran, r1, w)
step-refines (gets now k) c xs r g =
    let (c1, zs, ran, r1, w) = get-refines now c xs k r in (c1, zs, rw ran, r1, w)
step-refines (deletes k) c xs r (h, (m, e)) =
    let (c1, zs, ran, r1, w) = delete_key-refines c xs k r h in (c1, zs, rw ran, r1, w)

-- A whole history.
pub run-refines :
    (calls : List Call) (c : LruCache) (xs : List Ptr)
    → Reps c xs
    → Good (view c xs)
    → Returns (run calls c) (expect_all calls (view c xs))
unfolding run expect_all
run-refines [] c xs r g = (c, xs, refl, r, refl)
run-refines (call ∷ calls) c xs r g =
    let (c1, zs, ran, r1, w) = step-refines call c xs r g in
    let good : Good (view c1 zs) = subst {A = View} Good (sym w) (expect-Good call (view c xs) g) in
    let (c2, ws, ran2, r2, w2) = run-refines calls c1 zs r1 good in
    (
      c2,
      ws,
      rw (ran, ran2)
          (ap {A = View} {B = Result (LruCache × List Answer)}
            (λ u. ok (c2, (expect call (view c xs)).1 ∷ (expect_all calls u).1)) w),
      r2,
      w2 ∙ ap {A = View} {B = View} (λ u. (expect_all calls u).0) w,
    )

-- The view of a new cache with expiry times.
abbrev pub new_view : ℕ → ℕ → View
new_view capacity interval = record (empty_view capacity) {
  ttl_map = some [];
  cleanup_interval = interval;
  stop_cleanup = open_chan;
}

new_view-Good : (capacity interval : ℕ) → 0 < capacity → Good (new_view capacity interval)
new_view-Good capacity interval h = (
  record { positive = h; bounded = omega arith; distinct = tt; charged = omega arith },
  ([], refl),
)

-- Every history of calls on a new cache with expiry times and a positive capacity runs without a
-- fault, answers as the model does, and leaves a cache that represents the entries of the model.
pub history-refines :
    (capacity interval : ℕ) (calls : List Call)
    → 0 < capacity
    → Returns
        (new_lru_cache_with_cleanup capacity interval >>= run calls)
        (expect_all calls (new_view capacity interval))
history-refines capacity interval calls positive =
    let (c, xs, ran, r, w) = new_lru_cache_with_cleanup-Gives capacity interval positive in
    let good : Good (view c xs) =
      subst {A = View} Good (sym w) (new_view-Good capacity interval positive) in
    rw ran (
      subst {A = View} (λ v. Returns (run calls c) (expect_all calls v)) w
        (run-refines calls c xs r good))

-- ===== src/Lru/Batch.antt =====
-- The loops of core/lrucache.go over many keys, the removal of expired keys, and `Close`. A loop
-- over a map takes the entries that it visits, in the order in which it visits them.
use ryan_cache.Prelude.{
  ℕ, ◌+◌, String, String_discrete, List, [], ◌∷◌, none, some, Result, ok, panic, ◌>>=◌, nil_channel,
  closed_channel, ltb, if◌then◌else◌,
}
use ryan_cache.GoMap.{GoMap, lookup, insert}
use ryan_cache.Lru.Heap.Defs.{Ptr, deref}
use ryan_cache.Lru.Defs.{Time, LruCache, nil_chan, open_chan, closed_chan}
use ryan_cache.Lru.Methods.{
  ttl_lookup, ttl_delete, is_expired, unlink_charged, set_internal, count_request, count_hit,
  count_miss, hit, delete_key,
}

-- The body of the loop of `cleanupExpiredkeys`, for an entry of `ttlMap` that has expired.
unfoldable pub clean_key : String → LruCache → Result LruCache
unfolding unlink_charged ttl_delete
clean_key key c = do
  c1 ← elim (lookup String_discrete key c.cache) [
    | none ↦ ok c
    | some node ↦ unlink_charged key node c
  ]
  ok (record c1 { ttl_map = ttl_delete key c1.ttl_map })

-- The loop: the state, and `cleanedCount`.
unfoldable pub clean_keys : Time → List (String × Time) → ℕ → LruCache → Result (LruCache × ℕ)
unfolding clean_key
clean_keys now [] cleaned c = ok (c, cleaned)
clean_keys now ((key, expire) ∷ visited) cleaned c =
    let rest = clean_key key c >>= clean_keys now visited (cleaned + 1) in
    let skip = clean_keys now visited cleaned c in if ltb expire now then rest else skip

-- `cleanupExpiredkeys`, over the entries of `ttlMap`.
unfoldable pub cleanup_expired_keys : Time → List (String × Time) → LruCache → Result LruCache
unfolding clean_keys
cleanup_expired_keys now visited c = do
  (c1, cleaned) ← clean_keys now visited 0 c
  ok (record c1 {
    cleanup_stats = record {
      cleaned_keys = c1.cleanup_stats.cleaned_keys + cleaned;
      cleanup_runs = c1.cleanup_stats.cleanup_runs + 1;
      last_cleanup = now;
    };
  })

-- `Close`: to close a nil channel, or one that is closed, is a fault.
unfoldable pub close : LruCache → Result LruCache
close c = elim c.stop_cleanup [
  | nil_chan ↦ panic nil_channel
  | open_chan ↦ ok (record c { stop_cleanup = closed_chan })
  | closed_chan ↦ panic closed_channel
]

-- `SetMulti`, over the entries of its map.
unfoldable pub set_multi : List (String × String) → LruCache → Result LruCache
unfolding set_internal
set_multi [] c = ok c
set_multi ((key, value) ∷ entries) c = do c1 ← set_internal key value c; set_multi entries c1

-- The loop of `GetMulti`, with the map of results.
unfoldable pub get_keys :
    List String → GoMap String String → LruCache → Result (LruCache × GoMap String String)
unfolding hit
get_keys [] results c = ok (c, results)
get_keys (key ∷ keys) results c =
    let c0 = count_request c in
    elim (lookup String_discrete key c0.cache) [
      | none ↦ get_keys keys results (count_miss c0)
      | some node ↦ do
        (c1, reply) ← hit node (count_hit c0)
        get_keys keys (insert String_discrete key reply.0 results) c1
    ]

-- `GetMulti`
unfoldable pub get_multi : List String → LruCache → Result (LruCache × GoMap String String)
unfolding get_keys
get_multi keys c = get_keys keys [] c

-- `DeleteMulti` and its `deletedCount`. A round does what `Delete` does, in another order.
unfoldable pub delete_multi : List String → ℕ → LruCache → Result (LruCache × ℕ)
unfolding delete_key
delete_multi [] deleted c = ok (c, deleted)
delete_multi (key ∷ keys) deleted c = do
  (c1, found) ← delete_key key c
  delete_multi keys (if found then deleted + 1 else deleted) c1

-- The loop of `GetAllData`, with the map of results; `now key` is the time read at that key.
unfoldable pub collect :
    (String → Time)
    → List (String × Ptr)
    → GoMap String String
    → LruCache
    → Result (GoMap String String)
unfolding is_expired ttl_lookup deref
collect now [] results c = ok results
collect now ((key, node) ∷ visited) results c = do
  value ← deref node (c.heap.value node)
  let results1 = insert String_discrete key value results
  collect now visited
      (if is_expired (now key) (ttl_lookup key c.ttl_map) then results else results1) c

-- `GetAllData`, over the entries of the hash table.
unfoldable pub get_all_data :
    (String → Time) → List (String × Ptr) → LruCache → Result (GoMap String String)
unfolding collect
get_all_data now visited c = collect now visited [] c

-- ===== src/Lru/Methods.antt =====
-- The methods of core/lrucache.go. Each returns the new state beside its result, or the fault that
-- stops the program. `now` is the time that the method reads; a loop over a map takes the entries
-- that it visits, in the order in which it visits them.
use ryan_cache.Prelude.{
  ℕ, zero, suc, ◌+◌, String, String_discrete, Bool, true, false, ◌&&◌, ◌||◌, Option, none, some,
  Result, ok, panic, ◌>>=◌, nil_map, out_of_fuel, subtract, ltb, leb, ◌==◌, if◌then◌else◌,
}
use ryan_cache.GoMap.{GoMap, lookup, insert, delete}
use ryan_cache.Lru.Heap.Defs.{
  Ptr, deref, set_value, new_node, add_to_head, remove_node, move_to_head, remove_tail,
}
use ryan_cache.Lru.Defs.{Time, LruCache, calculate_memory_usage}

-- What `Get` returns.
abbrev pub Reply : Type 0
Reply = String × Bool

-- Reads and deletions on a map that may be nil.
unfoldable pub ttl_lookup : String → Option (GoMap String Time) → Option Time
ttl_lookup key none = none
ttl_lookup key (some m) = lookup String_discrete key m

unfoldable pub ttl_delete : String → Option (GoMap String Time) → Option (GoMap String Time)
ttl_delete key none = none
ttl_delete key (some m) = some (delete String_discrete key m)

-- `now.After(expireTime)` for a key that has an expiry time.
unfoldable pub is_expired : Time → Option Time → Bool
is_expired now none = false
is_expired now (some expire) = ltb expire now

-- The steps by which every deletion of `node` under `key` leaves the list, the map and the count.
unfoldable pub unlink : String → Ptr → LruCache → Result LruCache
unfolding remove_node subtract
unlink key node c = do
  h ← remove_node node c.heap
  size ← subtract c.size 1
  ok (record c { heap = h; cache = delete String_discrete key c.cache; size = size })

-- `unlink`, with the memory of the entry taken back first.
unfoldable pub unlink_charged : String → Ptr → LruCache → Result LruCache
unfolding deref subtract unlink
unlink_charged key node c = do
  value ← deref node (c.heap.value node)
  usage ← subtract c.memory_usage (calculate_memory_usage key value)
  unlink key node (record c { memory_usage = usage })

-- The condition of the eviction loop.
unfoldable pub must_evict : ℕ → LruCache → Bool
must_evict new_memory c =
    (ltb 0 c.memory_limit && ltb c.memory_limit (c.memory_usage + new_memory) && ltb 0 c.size)
    || leb c.capacity c.size

-- The body of the eviction loop.
unfoldable pub evict_tail : LruCache → Result LruCache
unfolding remove_tail subtract
evict_tail c = do
  (last, h) ← remove_tail c.tail c.heap
  usage ← subtract c.memory_usage (calculate_memory_usage (h.key last) (h.value last))
  size ← subtract c.size 1
  ok (record c {
    heap = h;
    memory_usage = usage;
    cache = delete String_discrete (h.key last) c.cache;
    size = size;
  })

-- The eviction loop, on fuel.
unfoldable pub evict : ℕ → ℕ → LruCache → Result LruCache
evict zero new_memory c = panic out_of_fuel
evict (suc fuel) new_memory c =
    let rest = evict_tail c >>= evict fuel new_memory in
    if must_evict new_memory c then (if c.size == 0 then ok c else rest) else ok c

-- The branch of `SetInternal` for a key that is present.
unfoldable pub overwrite : String → String → Ptr → LruCache → Result LruCache
unfolding deref subtract set_value move_to_head
overwrite key value node c = do
  old ← deref node (c.heap.value node)
  usage ← subtract c.memory_usage (calculate_memory_usage key old)
  h1 ← set_value node value c.heap
  h2 ← move_to_head c.head node h1
  ok (record c { heap = h2; memory_usage = usage + calculate_memory_usage key value })

-- The end of the other branch: the new node goes to the front.
unfoldable pub link_new : String → String → LruCache → Result LruCache
unfolding new_node add_to_head
link_new key value c = do
  let (node, h1) = new_node key value c.heap
  h2 ← add_to_head c.head node h1
  ok (record c {
    heap = h2;
    cache = insert String_discrete key node c.cache;
    memory_usage = c.memory_usage + calculate_memory_usage key value;
    size = c.size + 1;
  })

-- `SetInternal`; the loop evicts at most `size` entries.
unfoldable pub set_internal : String → String → LruCache → Result LruCache
unfolding overwrite evict link_new
set_internal key value c =
    let new_memory = calculate_memory_usage key value in
    if ltb 0 c.memory_limit && ltb c.memory_limit new_memory
    then ok c
    else elim (lookup String_discrete key c.cache) [
      | some node ↦ overwrite key value node c
      | none ↦ evict (suc c.size) new_memory c >>= link_new key value
    ]

-- `Set`
abbrev pub set : String → String → LruCache → Result LruCache
set = set_internal

-- The assignment `ttlMap[key] = t`.
unfoldable pub set_expiry : String → Time → LruCache → Result LruCache
set_expiry key expire c = elim c.ttl_map [
  | none ↦ panic nil_map
  | some m ↦ ok (record c { ttl_map = some (insert String_discrete key expire m) })
]

-- `SetWithTTL`
unfoldable pub set_with_ttl : Time → String → String → ℕ → LruCache → Result LruCache
unfolding set_internal set_expiry
set_with_ttl now key value ttl c = set_internal key value c >>= set_expiry key (now + ttl)

abbrev pub count_request : LruCache → LruCache
count_request c = record c {
  stats = record (c.stats) { total_requests = c.stats.total_requests + 1 };
}

abbrev pub count_hit : LruCache → LruCache
count_hit c = record c { stats = record (c.stats) { hits = c.stats.hits + 1 } }

abbrev pub count_miss : LruCache → LruCache
count_miss c = record c { stats = record (c.stats) { misses = c.stats.misses + 1 } }

-- The end of `Get` and of a round of `GetMulti`: a hit moves to the front.
unfoldable pub hit : Ptr → LruCache → Result (LruCache × Reply)
unfolding move_to_head deref
hit node c = do
  h ← move_to_head c.head node c.heap
  value ← deref node (h.value node)
  ok (record c { heap = h }, (value, true))

-- The branch of `Get` for a key that has expired. The memory of the entry is not taken back.
unfoldable pub drop_expired : String → Ptr → LruCache → Result LruCache
unfolding unlink ttl_delete
drop_expired key node c = do
  c1 ← unlink key node c
  ok (record c1 { ttl_map = ttl_delete key c1.ttl_map })

-- `Get`
unfoldable pub get : Time → String → LruCache → Result (LruCache × Reply)
unfolding hit drop_expired ttl_lookup is_expired
get now key c =
    let c0 = count_request c in
    elim (lookup String_discrete key c0.cache) [
      | none ↦ ok (count_miss c0, ("", false))
      | some node ↦
          if is_expired now (ttl_lookup key c0.ttl_map)
          then (do c1 ← drop_expired key node c0; ok (count_miss c1, ("", false)))
          else hit node (count_hit c0)
    ]

-- `Delete`
unfoldable pub delete_key : String → LruCache → Result (LruCache × Bool)
unfolding unlink_charged ttl_delete
delete_key key c = elim (lookup String_discrete key c.cache) [
  | none ↦ ok (c, false)
  | some node ↦ do
    c1 ← unlink_charged key node c
    ok (record c1 { ttl_map = ttl_delete key c1.ttl_map }, true)
]

-- ===== src/Lru/Heap/Defs.antt =====
-- The nodes and the pointer operations of core/lrucache.go. A `*LRUNode` is an address; the fields
-- of the nodes are four functions of the address, so that an assignment to one field of one node
-- leaves every other field of every node alone. Address 0 is `nil`: to follow it is a fault.
use ryan_cache.Prelude.{
  ℕ, suc, String, ◌==◌, if◌then◌else◌, Result, ok, panic, ◌>>=◌, nil_deref, ite, ℕ_discrete,
}

abbrev pub Ptr : Type 0
Ptr = ℕ

abbrev pub nil : Ptr
nil = 0

pub record Heap : Type 0 where
  pub key : Ptr → String
  pub value : Ptr → String
  pub prev : Ptr → Ptr
  pub next : Ptr → Ptr
  pub fresh : Ptr

-- One assignment through a pointer.
unfoldable pub update {ℓ} : {A : Type ℓ} → (Ptr → A) → Ptr → A → Ptr → A
update f p a q = ite (ℕ_discrete p q) a (f q)

-- `x.f` at a pointer that may be nil.
unfoldable pub deref {ℓ} : {A : Type ℓ} → Ptr → A → Result A
deref p a = if p == nil then panic nil_deref else ok a

unfoldable pub set_prev : Ptr → Ptr → Heap → Result Heap
unfolding deref
set_prev p q h = deref p (record h { prev = update h.prev p q })

unfoldable pub set_next : Ptr → Ptr → Heap → Result Heap
unfolding deref
set_next p q h = deref p (record h { next = update h.next p q })

unfoldable pub set_value : Ptr → String → Heap → Result Heap
unfolding deref
set_value p v h = deref p (record h { value = update h.value p v })

-- `&LRUNode{key: k, value: v}`: the address, and the heap with the node.
unfoldable pub new_node : String → String → Heap → Ptr × Heap
new_node k v h = (
  h.fresh,
  record h {
    key = update h.key h.fresh k;
    value = update h.value h.fresh v;
    prev = update h.prev h.fresh nil;
    next = update h.next h.fresh nil;
    fresh = suc h.fresh;
  },
)

-- `addToHead`, with the list's head sentinel as an argument.
unfoldable pub add_to_head : Ptr → Ptr → Heap → Result Heap
unfolding set_prev set_next
add_to_head head node h = do
  h1 ← set_prev node head h
  n ← deref head (h1.next head)
  h2 ← set_next node n h1
  m ← deref head (h2.next head)
  h3 ← set_prev m node h2
  set_next head node h3

-- `removeNode`
unfoldable pub remove_node : Ptr → Heap → Result Heap
unfolding set_prev set_next
remove_node node h = do
  p ← deref node (h.prev node)
  n ← deref node (h.next node)
  h1 ← set_next p n h
  n1 ← deref node (h1.next node)
  p1 ← deref node (h1.prev node)
  set_prev n1 p1 h1

-- `moveToHead`
unfoldable pub move_to_head : Ptr → Ptr → Heap → Result Heap
unfolding add_to_head remove_node
move_to_head head node h = do h1 ← remove_node node h; add_to_head head node h1

-- `removeTail`, with the tail sentinel as an argument: the removed node and the heap.
unfoldable pub remove_tail : Ptr → Heap → Result (Ptr × Heap)
unfolding remove_node
remove_tail tail h = do node ← deref tail (h.prev tail); h1 ← remove_node node h; ok (node, h1)

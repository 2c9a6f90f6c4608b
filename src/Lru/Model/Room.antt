-- ===== src/Lru/Model/Room.antt =====
-- What `make_room` keeps and what it achieves.
use ryan_cache.Prelude.{
  ℕ, zero, suc, ◌-◌, ◌≤◌, ◌<◌, ◌≡◌, refl, inl, inr, false, Bool-cases, String, arith, Fresh, length,
}
use ryan_cache.GoMap.{keys}
use ryan_cache.Lru.Model.{View, IsValid, but_last, last_weight, is_over, make_room}
use ryan_cache.Lru.Model.Memory.{total-but_last, length-but_last, but_last-Fresh, but_last-Distinct}

-- One round.
abbrev pub dropped : View → View
dropped v = record v {
  items = but_last v.items;
  memory_usage = v.memory_usage - last_weight v.items;
}

-- What holds of a view and of the view without its last entry holds after any number of rounds.
pub make_room_inv {ℓ} :
    (P : View → Type ℓ)
    → ((v : View) → P v → P (dropped v))
    → (n new_memory : ℕ) (v : View) → P v
    → P (make_room n new_memory v)
unfolding make_room
make_room_inv P keep zero new_memory v p = p
make_room_inv P keep (suc n) new_memory v p = elim (Bool-cases (is_over new_memory v)) [
  | inl e ↦ rw (e, make_room) (make_room_inv P keep n new_memory (dropped v) (keep v p))
  | inr e ↦ rw (e, make_room) p
]

pub make_room-Fresh :
    (k : String) (n new_memory : ℕ) (v : View)
    → Fresh k (keys v.items)
    → Fresh k (keys (make_room n new_memory v).items)
make_room-Fresh k n new_memory v f =
    make_room_inv (λ w. Fresh k (keys w.items)) (λ w h. but_last-Fresh k w.items h) n new_memory v f

pub make_room-IsValid :
    (n new_memory : ℕ) (v : View) → IsValid v → IsValid (make_room n new_memory v)
make_room-IsValid = make_room_inv IsValid dropped-IsValid
  where
    dropped-IsValid : (v : View) → IsValid v → IsValid (dropped v)
    dropped-IsValid v h = record {
      positive = h.positive;
      bounded = omega (arith, h.bounded, length-but_last v.items);
      distinct = but_last-Distinct v.items h.distinct;
      charged = omega (arith, h.charged, total-but_last v.items);
    }

-- The fields that the loop leaves alone.
pub make_room_same :
    (n new_memory : ℕ) (v : View)
    → ((make_room n new_memory v).capacity ≡ v.capacity)
      × ((make_room n new_memory v).memory_limit ≡ v.memory_limit)
make_room_same n new_memory v =
    make_room_inv (λ w. (w.capacity ≡ v.capacity) × (w.memory_limit ≡ v.memory_limit)) (λ w h. h) n
      new_memory v (refl, refl)

-- After as many rounds as there are entries, the loop's condition is false.
pub make_room-fits :
    (n new_memory : ℕ) (v : View)
    → 0 < v.capacity
    → length v.items ≤ n
    → is_over new_memory (make_room n new_memory v) ≡ false
unfolding make_room
make_room-fits zero new_memory v positive few = over_empty new_memory v positive (omega arith)
  where
    over_empty :
        (new_memory : ℕ) (v : View)
        → 0 < v.capacity
        → length v.items ≡ 0
        → is_over new_memory v ≡ false
    over_empty new_memory v h e = unfold is_over in (ground arith)
make_room-fits (suc n) new_memory v positive few = elim (Bool-cases (is_over new_memory v)) [
  | inl e ↦
      rw (e, make_room)
        (make_room-fits n new_memory (dropped v) positive
          (omega (arith, few, length-but_last v.items)))
  | inr e ↦ rw (e, make_room) e
]

pub make_room-ttl_map :
    (n new_memory : ℕ) (v : View) → (make_room n new_memory v).ttl_map ≡ v.ttl_map
make_room-ttl_map n new_memory v =
    make_room_inv (λ w. w.ttl_map ≡ v.ttl_map) (λ w h. h) n new_memory v refl

-- ===== src/Lru/Model/Shortest.antt =====
-- The eviction loop of core/lrucache.go removes the shortest run of least recently used entries that
-- makes room.
use ryan_cache.Prelude.{
  ℕ, zero, suc, ◌+◌, ◌-◌, ◌<◌, ◌≡◌, ap, ap₂, subst, sym, ◌∙◌, inl, inr, true, false, Bool-cases,
  String, [], ◌∷◌, ◌++◌, arith, snoc-cases, append-nil, append_assoc,
}
use ryan_cache.GoMap.{GoMap}
use ryan_cache.Lru.Model.{View, total, but_last, last_weight, is_over, make_room}
use ryan_cache.Lru.Model.Memory.{but_last-append, last_weight-append}
use ryan_cache.Lru.Model.Room.{dropped}

abbrev pub Entries : Type 0
Entries = GoMap String String

-- The view with the entries `kept`, after the entries `gone` gave their memory back.
abbrev pub cut : View → Entries → Entries → View
cut v kept gone = record v { items = kept; memory_usage = v.memory_usage - total gone }

-- With the first of the entries `gone` still there, the new entry does not fit.
abbrev pub IsNeeded : ℕ → View → Entries → Entries → Type 0
IsNeeded new_memory v kept [] = Unit
IsNeeded new_memory v kept (e ∷ later) = is_over new_memory (cut v (kept ++ e ∷ []) later) ≡ true

-- `gone` is the shortest end of the entries that makes room.
abbrev pub IsShortest : ℕ → View → Entries → Entries → Type 0
IsShortest new_memory v kept gone = (v.items ≡ kept ++ gone) × IsNeeded new_memory v kept gone

total-append : (xs ys : Entries) → total (xs ++ ys) ≡ total xs + total ys
total-append [] ys = omega arith
total-append (e ∷ xs) ys = omega (arith, total-append xs ys)

none_gone : (new_memory : ℕ) (v : View) → IsShortest new_memory v v.items []
none_gone new_memory v = (sym (append-nil v.items), tt)

cut-nil : (v : View) → v ≡ cut v v.items []
cut-nil v = ground arith

module _ (new_memory : ℕ) (v : View) (ys : Entries) (a : String × String)
    (e : v.items ≡ ys ++ a ∷ []) where
  dropped-cut : dropped v ≡ cut v ys (a ∷ [])
  dropped-cut =
      ap₂ {A = Entries} {B = ℕ} {C = View}
        (λ i n. record v { items = i; memory_usage = v.memory_usage - n })
        (ap but_last e ∙ but_last-append ys a)
        (ap last_weight e ∙ last_weight-append ys a ∙ omega arith)

  -- One more entry that goes.
  one_more :
      (kept gone : Entries)
      → is_over new_memory v ≡ true
      → IsShortest new_memory (cut v ys (a ∷ [])) kept gone
      → IsShortest new_memory v kept (gone ++ a ∷ [])
  one_more kept [] over (split, h) =
      let all = e ∙ ap (λ i. i ++ a ∷ []) (split ∙ append-nil kept) in
      (
        all,
        ap (is_over new_memory)
              (sym (cut-nil v ∙ ap {A = Entries} {B = View} (λ i. cut v i []) all))
            ∙ over,
      )
  one_more kept (g ∷ gone) over (split, h) = (
    e ∙ ap (λ i. i ++ a ∷ []) split ∙ append_assoc kept (g ∷ gone) (a ∷ []),
    ap {A = ℕ} (λ n. is_over new_memory (record v { items = kept ++ g ∷ []; memory_usage = n }))
          (omega (arith, total-append gone (a ∷ [])))
        ∙ h,
  )

  cut-cut : (kept gone : Entries) → cut (cut v ys (a ∷ [])) kept gone ≡ cut v kept (gone ++ a ∷ [])
  cut-cut kept gone =
      ap {A = ℕ} {B = View} (λ n. record v { items = kept; memory_usage = n })
        (omega (arith, total-append gone (a ∷ [])))

is_over_empty :
    (new_memory : ℕ) (v : View) → 0 < v.capacity → v.items ≡ [] → is_over new_memory v ≡ false
unfolding is_over
is_over_empty new_memory v h e = ground arith

-- `make_room` keeps the entries before the shortest end that makes room.
pub make_room-IsShortest :
    (n new_memory : ℕ) (v : View)
    → 0 < v.capacity
    → (kept : Entries) × (gone : Entries) × (make_room n new_memory v ≡ cut v kept gone)
      × IsShortest new_memory v kept gone
unfolding make_room
make_room-IsShortest zero new_memory v h = (v.items, [], cut-nil v, none_gone new_memory v)
make_room-IsShortest (suc n) new_memory v h = elim (Bool-cases (is_over new_memory v)) [
  | inr e ↦ (v.items, [], rw (e, make_room) (cut-nil v), none_gone new_memory v)
  | inl over ↦ elim (snoc-cases v.items) [
    | inl e ↦ absurd (cc (is_over_empty new_memory v h e))
    | inr (ys, a, e) ↦
        let (kept, gone, r, s) = make_room-IsShortest n new_memory (dropped v) h in
        let d = dropped-cut new_memory v ys a e in
        (
          kept,
          gone ++ a ∷ [],
          rw (over, make_room)
              (r
                ∙ ap {A = View} {B = View} (λ w. cut w kept gone) d
                ∙ cut-cut new_memory v ys a e kept gone),
          one_more new_memory v ys a e kept gone over
              (subst {A = View} (λ w. IsShortest new_memory w kept gone) d s),
        )
  ]
]

-- ===== src/Node/Local.antt =====
-- The entries of a local cache, and what a deletion does to them.
use ryan_cache.Prelude.{
  ◌≡◌, sym, ap, subst, ◌∙◌, String, String_discrete, Bool, Option, none, ite, arith, ok, inl, inr,
  Option-cases,
}
use ryan_cache.GoMap.{lookup, lookup-delete}
use ryan_cache.Lru.Defs.{LruCache}
use ryan_cache.Lru.Methods
use ryan_cache.Lru.Model
use ryan_cache.Lru.Model.{View, view, IsValid}
use ryan_cache.Lru.Refine.Deletion.{delete_key-refines}
use ryan_cache.Lru.Model.Valid.{delete_key-IsValid}
use ryan_cache.Cluster.Service.{IsPlain}
use ryan_cache.Cluster.Plain.{IsBare, delete_key-IsBare}

-- What a plain cache holds under a key.
abbrev pub held : (c : LruCache) → IsPlain c → String → Option String
held c p k = lookup String_discrete k (view c p.nodes).items

lookup-model :
    (k j : String) (v : View)
    → lookup String_discrete j (Model.delete_key k v).0.items
      ≡ ite (String_discrete k j) none (lookup String_discrete j v.items)
unfolding Model.delete_key
lookup-model k j v = elim (Option-cases (lookup String_discrete k v.items)) [
  | inl e ↦ ground (arith, e)
  | inr (x, e) ↦ ground (arith, e, lookup-delete String_discrete k j v.items)
]

-- A deletion ends, leaves a plain cache, and takes out its key alone.
pub delete_key-held :
    (k : String) (c : LruCache) (p : IsPlain c)
    → (c1 : LruCache) × (found : Bool) × (p1 : IsPlain c1) × (Methods.delete_key k c
        ≡ ok (c1, found))
      × ((j : String) → held c1 p1 j ≡ ite (String_discrete k j) none (held c p j))
delete_key-held k c p =
    let (c1, ys, ran, r, w) = delete_key-refines c p.nodes k p.reps p.valid in
    let bare =
      subst {A = View} IsBare (sym w)
        (delete_key-IsBare k (view c p.nodes) (p.no_expiry, p.no_limit)) in
    (
      c1,
      _,
      record {
        nodes = ys;
        reps = r;
        valid = subst {A = View} IsValid (sym w) (delete_key-IsValid k _ p.valid);
        no_expiry = bare.0;
        no_limit = bare.1;
      },
      ran,
      λ j.
          ap {A = View} (λ u. lookup String_discrete j u.items) w
          ∙ lookup-model k j (view c p.nodes),
    )

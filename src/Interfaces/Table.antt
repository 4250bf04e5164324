-- ===== src/Interfaces/Table.antt =====
-- interfaces.c: what allocating and freeing an interface does to the table.
use greybus_zephyr.Base.{
  ℕ, zero, suc, ◌^◌, ◌<◌, ◌≡◌, ◌≢◌, ◌∙◌, refl, sym, ap, false, Option, none, some, List, [], ◌∷◌,
  arith, get_elem?, set, get_elem?-set_self, get_elem?-set_ne, pos, ==_iff, length, Option-cases,
  inl, inr,
}
use greybus_zephyr.Interfaces.{
  Interface, Registry, to_id, update, new_interface_id, gb_interface_add, gb_interface_remove,
  gb_interface_alloc, gb_interface_dealloc, gb_interface_get,
}
use greybus_zephyr.Interfaces.Ids.{new_interface_id-LowestFree}

pub get_elem?→lt {ℓ} :
    {A : Type ℓ} (xs : List A) (i : ℕ) (a : A) → get_elem? xs i ≡ some a → i < length xs
get_elem?→lt [] i a h = cc
get_elem?→lt (x ∷ xs) zero a h = omega arith
get_elem?→lt (x ∷ xs) (suc i) a h = omega (arith, get_elem?→lt xs i a h)

set-set_back {ℓ} :
    {A : Type ℓ} (xs : List A) (i : ℕ) (a b : A)
    → get_elem? xs i ≡ some b
    → set (set xs i a) i b ≡ xs
set-set_back [] i a b h = refl
set-set_back (x ∷ xs) zero a b h = cc
set-set_back (x ∷ xs) (suc i) a b h = ap (◌∷◌ x) (set-set_back xs i a b h)

update_self : (heap : ℕ → Option Interface) (p : ℕ) (v : Option Interface) → update heap p v p ≡ v
update_self heap p v = rw ((==_iff p p).1 refl)

-- After an interface is freed its pointer leads nowhere.
pub gb_interface_dealloc-dangling :
    (p : ℕ) (r r' : Registry) → gb_interface_dealloc p r ≡ some r' → r'.heap p ≡ none
unfolding gb_interface_dealloc
gb_interface_dealloc-dangling p r r' e = elim (Option-cases (r.heap p)) [
  | inl dead ↦ cc (rw (dead, gb_interface_dealloc) at e)
  | inr (intf, alive) ↦ elim (Option-cases (gb_interface_remove intf.id r)) [
    | inl out ↦ cc (rw (alive, out, gb_interface_dealloc) at e)
    | inr (removed, done) ↦
        let after : record removed { heap = update removed.heap p none } ≡ r' =
          cc (rw (alive, done, gb_interface_dealloc) at e) in
        ap (λ (x : Registry). x.heap p) (sym after) ∙ update_self removed.heap p none
  ]
]

module _ (r : Registry) (p id : ℕ) (created : Interface) (next : new_interface_id false r ≡ pos id)
    (small : id < 2 ^ 8) where
  id_kept : to_id id ≡ id
  id_kept = omega (arith, small)

  slot_free : get_elem? r.intfs id ≡ some none
  slot_free = (rw next at (new_interface_id-LowestFree r)).1

  slot_lt : id < length r.intfs
  slot_lt = get_elem?→lt r.intfs id none slot_free

  abbrev named : Interface
  named = record created { id = id }

  -- The registry with the new interface in it.
  abbrev pub with_interface : Registry
  with_interface = record r { heap = update r.heap p (some named); intfs = set r.intfs id (some p) }

  add_lem :
      gb_interface_add false p (record r { heap = update r.heap p (some named) })
      ≡ some (pos 0, with_interface)
  unfolding gb_interface_add
  add_lem = rw (update_self r.heap p (some named), slot_free)

  gb_interface_alloc_lem :
      gb_interface_alloc false (some p) created r ≡ some (some p, with_interface)
  unfolding gb_interface_alloc
  gb_interface_alloc_lem = rw (next, id_kept, gb_interface_alloc) (rw add_lem)

  remove_lem :
      gb_interface_remove id with_interface ≡ some (record with_interface { intfs = r.intfs })
  unfolding gb_interface_remove
  remove_lem = rw (
    id_kept,
    get_elem?-set_self r.intfs id (some p) slot_lt,
    set-set_back r.intfs id (some p) none slot_free,
  )

  -- With the mutex free, memory, and a new id below 2^8, which a uint8_t holds:
  -- gb_interface_alloc enters the interface under that id, gb_interface_get finds it there, and
  -- what it finds under every other id is as it was.
  pub gb_interface_alloc-get :
      (r' : Registry) × (gb_interface_alloc false (some p) created r ≡ some (some p, r'))
      × (gb_interface_get id r' ≡ some (some p))
      × (r'.heap p ≡ some (record created { id = id }))
      × ((j : ℕ) → to_id j ≢ id → gb_interface_get j r' ≡ gb_interface_get j r)
  unfolding gb_interface_get
  gb_interface_alloc-get = (
    with_interface,
    gb_interface_alloc_lem,
    rw id_kept (get_elem?-set_self r.intfs id (some p) slot_lt),
    update_self r.heap p (some named),
    λ j ne. get_elem?-set_ne r.intfs (some p) (λ e. ne (sym e)),
  )

  -- With the mutex free, memory, and a new id below 2^8: freeing an interface that was just
  -- allocated gives back the table as it was, and leaves its pointer leading nowhere.
  pub gb_interface_dealloc-alloc :
      (r' : Registry) × (r'' : Registry) × (gb_interface_alloc false (some p) created r
        ≡ some (some p, r'))
      × (gb_interface_dealloc p r' ≡ some r'')
      × (r''.intfs ≡ r.intfs)
      × (r''.heap p ≡ none)
  unfolding gb_interface_dealloc
  gb_interface_dealloc-alloc = (
    with_interface,
    record r { heap = update (update r.heap p (some named)) p none },
    gb_interface_alloc_lem,
    rw (update_self r.heap p (some named)) (rw remove_lem),
    refl,
    update_self (update r.heap p (some named)) p none,
  )

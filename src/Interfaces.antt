-- ===== src/Interfaces.antt =====
-- subsys/greybus/interfaces.c: the table of interfaces. A pointer is a number, `heap` is the memory that
-- it points to, and `none` as a result is undefined behaviour: an index out of the table, or a
-- pointer to freed memory. `busy` says that another thread holds the mutex; the mutex is reentrant,
-- so that a thread that holds it can take it again.
pub mod Ids
pub mod Table
mod Tests
use greybus_zephyr.Base.{
  ℕ, suc, ◌+◌, ◌%◌, ◌^◌, Bool, true, false, Option, none, some, List, [], ◌∷◌, ◌==◌, if◌then◌else◌,
  get_elem?, set, drop, ℤ, pos, negsuc, neg, ebusy, ealready, eoverflow, ◌>>=◌,
}

-- `struct gb_interface`, whose id is a uint8_t; of the two optional callbacks it matters whether they are there.
pub record Interface : Type 0 where
  pub id : ℕ
  pub has_create_connection : Bool
  pub has_destroy_connection : Bool

pub record Registry : Type 0 where
  pub heap : ℕ → Option Interface
  pub intfs : List (Option ℕ)

abbrev pub svc_inf_id : ℕ
svc_inf_id = 0

abbrev pub ap_inf_id : ℕ
ap_inf_id = 1

abbrev pub intf_start_id : ℕ
intf_start_id = 2

-- What is left of a number in a uint8_t: the field `id`, and the parameter of a function that takes an id.
abbrev pub to_id : ℕ → ℕ
to_id n = n % 2 ^ 8

-- A store to memory.
abbrev pub update : (ℕ → Option Interface) → ℕ → Option Interface → ℕ → Option Interface
update heap p v q = if q == p then v else heap q

-- The scan of `new_interface_id` over the slots from `i` on.
pub first_free : ℕ → List (Option ℕ) → ℤ
first_free i [] = neg eoverflow
first_free i (slot ∷ slots) =
    let rest = first_free (i + 1) slots in elim slot [ none ↦ pos i | some _ ↦ rest ]

pub new_interface_id : Bool → Registry → ℤ
unfolding first_free
new_interface_id busy r =
    if busy then neg ebusy else first_free intf_start_id (drop intf_start_id r.intfs)

unfoldable pub gb_interface_add : Bool → ℕ → Registry → Option (ℤ × Registry)
gb_interface_add busy p r = if busy then some (neg ebusy, r) else (do
  intf ← r.heap p
  slot ← get_elem? r.intfs intf.id
  elim slot [
    | some _ ↦ some (neg ealready, r)
    | none ↦ some (pos 0, record r { intfs = set r.intfs intf.id (some p) })
  ])

-- The call waits for the mutex.
unfoldable pub gb_interface_remove : ℕ → Registry → Option Registry
gb_interface_remove id r = do
  _ ← get_elem? r.intfs (to_id id)
  some (record r { intfs = set r.intfs (to_id id) none })

-- `fresh` is what `gb_alloc` returns, and `created` the callbacks that were given. The result of
-- `gb_interface_add` is not looked at.
pub gb_interface_alloc : Bool → Option ℕ → Interface → Registry → Option (Option ℕ × Registry)
gb_interface_alloc busy fresh created r =
    if busy then some (none, r) else elim (new_interface_id false r) [
      | negsuc _ ↦ some (none, r)
      | pos id ↦ elim fresh [
        | none ↦ some (none, r)
        | some p ↦
            let stored = record r {
              heap = update r.heap p (some (record created { id = to_id id }));
            } in
            (do (_, added) ← gb_interface_add false p stored; some (some p, added))
      ]
    ]

unfoldable pub gb_interface_dealloc : ℕ → Registry → Option Registry
gb_interface_dealloc p r = do
  intf ← r.heap p
  removed ← gb_interface_remove intf.id r
  some (record removed { heap = update removed.heap p none })

unfoldable pub gb_interface_get : ℕ → Registry → Option (Option ℕ)
gb_interface_get id r = get_elem? r.intfs (to_id id)

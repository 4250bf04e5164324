-- ===== src/Interfaces/Tests.antt =====
-- The table of interfaces with the SVC's and the AP's in it.
use greybus_zephyr.Base.{ℕ, ◌≡◌, ◌≢◌, refl, arith, none, some, [], ◌∷◌, false, true, pos}
use greybus_zephyr.Interfaces.{
  Interface, Registry, to_id, first_free, new_interface_id, gb_interface_alloc,
  gb_interface_dealloc, gb_interface_get,
}
use greybus_zephyr.Interfaces.Ids.{LowestFree, new_interface_id-LowestFree}
use greybus_zephyr.Interfaces.Table.{gb_interface_alloc-get, gb_interface_dealloc-alloc}

abbrev intf : Interface
intf = record { id = 0; has_create_connection = true; has_destroy_connection = false }

abbrev registry : Registry
registry = record { heap = λ p. none; intfs = some 10 ∷ some 11 ∷ some 12 ∷ none ∷ [] }

next_is : new_interface_id false registry ≡ pos 3
unfolding new_interface_id first_free
next_is = refl

new_interface_id-LowestFree_example : LowestFree registry.intfs (new_interface_id false registry)
new_interface_id-LowestFree_example = new_interface_id-LowestFree registry

gb_interface_alloc-get_example :
    (r' : Registry) × (gb_interface_alloc false (some 13) intf registry ≡ some (some 13, r'))
    × (gb_interface_get 3 r' ≡ some (some 13))
    × (r'.heap 13 ≡ some (record intf { id = 3 }))
    × ((j : ℕ) → to_id j ≢ 3 → gb_interface_get j r' ≡ gb_interface_get j registry)
gb_interface_alloc-get_example = gb_interface_alloc-get registry 13 3 intf next_is (omega arith)

gb_interface_dealloc-alloc_example :
    (r' : Registry) × (r'' : Registry) × (gb_interface_alloc false (some 13) intf registry
      ≡ some (some 13, r'))
    × (gb_interface_dealloc 13 r' ≡ some r'')
    × (r''.intfs ≡ registry.intfs)
    × (r''.heap 13 ≡ none)
gb_interface_dealloc-alloc_example =
    gb_interface_dealloc-alloc registry 13 3 intf next_is (omega arith)

-- ===== src/Apbridge/Tests.antt =====
-- A bridge with the AP and one node.
use greybus_zephyr.Base.{
  ap, ◌∙◌, ◌<◌, ◌^◌, get_elem?, ℕ, ◌≡◌, refl, Option, none, some, [], ◌∷◌, false, arith, ◌==◌,
  if◌then◌else◌, ℤ, pos, neg, einval,
}
use greybus_zephyr.Messages.{Message}
use greybus_zephyr.Samples.{message}
use greybus_zephyr.Interfaces.{
  to_id, Interface, Registry, ap_inf_id, gb_interface_get, gb_interface_remove,
  gb_interface_dealloc,
}
use greybus_zephyr.Apbridge.{
  vacant, Bridge, node_ap_add, node_ap_remove, find_node, node_to_ap_cport, connection_ends,
  connect, gb_apbridge_connection_create, gb_apbridge_connection_destroy, gb_apbridge_send,
}
use greybus_zephyr.Apbridge.Delivery.{
  IsNamed, logged, gb_apbridge_send-to_node, gb_apbridge_send-to_ap,
}
use greybus_zephyr.Apbridge.Lifetime.{KeepsMapIfFailed, gb_apbridge_connection_create-failed}

-- The AP's interface lies at 11, the node's at 12.
abbrev memory : ℕ → Option Interface
memory p =
    if p == 11
    then some (record { id = 1; has_create_connection = false; has_destroy_connection = false })
    else if p == 12
    then some (record { id = 2; has_create_connection = false; has_destroy_connection = false })
    else none

abbrev registry : Registry
registry = record { heap = memory; intfs = none ∷ some 11 ∷ some 12 ∷ [] }

slot_is :
    (id p : ℕ)
    → get_elem? registry.intfs id ≡ some (some p)
    → (intf : Interface) × (memory p ≡ some intf) × (intf.id ≡ id)
slot_is ℕ.zero p e = absurd (cc e)
slot_is (ℕ.suc ℕ.zero) p e =
    let p_is : p ≡ 11 = cc e in
    (
      record { id = 1; has_create_connection = false; has_destroy_connection = false },
      rw p_is refl,
      refl,
    )
slot_is (ℕ.suc (ℕ.suc ℕ.zero)) p e =
    let p_is : p ≡ 12 = cc e in
    (
      record { id = 2; has_create_connection = false; has_destroy_connection = false },
      rw p_is refl,
      refl,
    )
slot_is (ℕ.suc (ℕ.suc (ℕ.suc id))) p e = absurd (cc e)

registry-named :
    (id p : ℕ)
    → id < 2 ^ 8
    → gb_interface_get id registry ≡ some (some p)
    → (intf : Interface) × (memory p ≡ some intf) × (intf.id ≡ id)
unfolding gb_interface_get
registry-named id p h e =
    let kept : id ≡ to_id id = omega (arith, h) in
    slot_is id p (ap (get_elem? registry.intfs) kept ∙ e)

registry-IsNamed : IsNamed registry
registry-IsNamed = record { named = registry-named }

-- Nothing is connected, and then the AP's cport 1 with the node's cport 5.
abbrev apart : Bridge
apart = record { node_ap_map = vacant ∷ vacant ∷ []; registry = registry; log = [] }

abbrev joined : Bridge
joined = record {
  node_ap_map = vacant ∷ record { node_intf = some 12; node_cport = 5 } ∷ [];
  registry = registry;
  log = [];
}

abbrev on_create : ℕ → ℕ → ℤ
on_create p cport = pos 0

abbrev on_write : ℕ → Message → ℕ → ℤ
on_write p msg cport = pos 0

created_lem : gb_apbridge_connection_create on_create 1 1 2 5 apart ≡ some (pos 0, joined)
unfolding gb_apbridge_connection_create connection_ends gb_interface_get connect node_ap_add
created_lem = refl

gb_apbridge_send-to_node_example :
    (p : ℕ) × (gb_interface_get 2 registry ≡ some (some p))
    × (gb_apbridge_send on_write ap_inf_id 1 (message 2 []) joined
        ≡ some (on_write p (message 2 []) 5, logged joined p (message 2 []) 5))
unfolding connection_ends
gb_apbridge_send-to_node_example =
    gb_apbridge_send-to_node on_write on_create 1 1 2 5 2 5 1 0 apart joined (message 2 []) refl
      created_lem

no_node : node_to_ap_cport 2 5 apart ≡ some (neg einval)
unfolding node_to_ap_cport find_node
no_node = refl

gb_apbridge_send-to_ap_example :
    gb_apbridge_send on_write 2 5 (message 2 []) joined
    ≡ some (on_write 11 (message 2 []) 1, logged joined 11 (message 2 []) 1)
unfolding connection_ends gb_interface_get
gb_apbridge_send-to_ap_example =
    gb_apbridge_send-to_ap on_write on_create 1 1 2 5 2 5 1 0 apart joined (message 2 []) 11 refl
      created_lem registry-IsNamed (omega arith) refl no_node

gb_apbridge_connection_create-failed_example :
    KeepsMapIfFailed joined (gb_apbridge_connection_create on_create 1 1 2 5 joined)
gb_apbridge_connection_create-failed_example =
    gb_apbridge_connection_create-failed on_create 1 1 2 5 joined

destroyed_lem : gb_apbridge_connection_destroy 1 1 2 5 joined ≡ some (pos 0, apart)
unfolding gb_apbridge_connection_destroy connection_ends gb_interface_get node_ap_remove
destroyed_lem = refl

-- The registry once the node is freed.
abbrev without_node : Registry
without_node = record {
  heap = λ q. if q == 12 then none else memory q;
  intfs = none ∷ some 11 ∷ none ∷ [];
}

freed_lem : gb_interface_dealloc 12 registry ≡ some without_node
unfolding gb_interface_dealloc gb_interface_remove
freed_lem = refl

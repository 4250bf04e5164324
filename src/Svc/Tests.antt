-- ===== src/Svc/Tests.antt =====
-- The SVC with the AP and one node.
use greybus_zephyr.Base.{
  ap, ◌∙◌, ◌<◌, ◌^◌, get_elem?, ℕ, ◌+◌, ◌≡◌, refl, false, Option, none, some, [], ◌∷◌, Bytes, arith,
  ◌==◌, if◌then◌else◌, ℤ, pos,
}
use greybus_zephyr.Messages.{Message}
use greybus_zephyr.Messages.Laws.{reply}
use greybus_zephyr.Samples.{zeroed, zeroed-HasMemory, message}
use greybus_zephyr.Interfaces.{
  to_id, Interface, Registry, svc_inf_id, ap_inf_id, gb_interface_get, gb_interface_add,
}
use greybus_zephyr.Apbridge.{
  Bridge, vacant, node_ap_add, find_node, node_to_ap_cport, connection_ends, connect,
  gb_apbridge_connection_create,
}
use greybus_zephyr.Apbridge.Delivery.{IsNamed, logged}
use greybus_zephyr.Svc.{
  Svc, conn_request, svc_connection_create_handler, gb_svc_intf_write, gb_svc_op_success,
}
use greybus_zephyr.Svc.Requests.{intf_activate}
use greybus_zephyr.Svc.Answers.{
  Linked, gb_svc_intf_write-answers, svc_connection_create_handler-created,
}

-- The interfaces lie at 10, 11 and 12 in memory.
abbrev intf : ℕ → Interface
intf id = record { id = id; has_create_connection = false; has_destroy_connection = false }

abbrev memory : ℕ → Option Interface
memory p =
    if p == 10
    then some (intf 0)
    else if p == 11
    then some (intf 1)
    else if p == 12
    then some (intf 2)
    else none

abbrev registry : Registry
registry = record { heap = memory; intfs = some 10 ∷ some 11 ∷ some 12 ∷ [] }

slot_is :
    (id p : ℕ)
    → get_elem? registry.intfs id ≡ some (some p)
    → (i : Interface) × (memory p ≡ some i) × (i.id ≡ id)
slot_is ℕ.zero p e = let p_is : p ≡ 10 = cc e in (intf 0, rw p_is refl, refl)
slot_is (ℕ.suc ℕ.zero) p e = let p_is : p ≡ 11 = cc e in (intf 1, rw p_is refl, refl)
slot_is (ℕ.suc (ℕ.suc ℕ.zero)) p e = let p_is : p ≡ 12 = cc e in (intf 2, rw p_is refl, refl)
slot_is (ℕ.suc (ℕ.suc (ℕ.suc id))) p e = absurd (cc e)

registry-named :
    (id p : ℕ)
    → id < 2 ^ 8
    → gb_interface_get id registry ≡ some (some p)
    → (i : Interface) × (memory p ≡ some i) × (i.id ≡ id)
unfolding gb_interface_get
registry-named id p h e =
    let kept : id ≡ to_id id = omega (arith, h) in
    slot_is id p (ap (get_elem? registry.intfs) kept ∙ e)

registry-IsNamed : IsNamed registry
registry-IsNamed = record { named = registry-named }

-- The SVC is connected to the AP's cport 0; then the node's cport 5 to the AP's cport 1.
abbrev linked : Bridge
linked = record {
  node_ap_map = record { node_intf = some 10; node_cport = 0 } ∷ vacant ∷ [];
  registry = registry;
  log = [];
}

abbrev with_node : Bridge
with_node = record {
  node_ap_map =
      record { node_intf = some 10; node_cport = 0 }
      ∷ record { node_intf = some 12; node_cport = 5 }
      ∷ [];
  registry = registry;
  log = [];
}

linked-Linked : Linked linked 11 0
unfolding gb_interface_get node_to_ap_cport find_node
linked-Linked = record { intf = intf 1; ap_is = refl; alive = refl; found = refl }

abbrev svc : Svc
svc = record { bridge = linked; counter = 1; svc_init = 0; frees = 0 }

abbrev on_create : ℕ → ℕ → ℤ
on_create p cport = pos 0

abbrev on_write : ℕ → Message → ℕ → ℤ
on_write p msg cport = pos 0

abbrev activate_request : Message
activate_request = message 0x27 (2 ∷ [])

gb_svc_intf_write-answers_example :
    (block : Bytes) × (gb_svc_intf_write zeroed on_create on_write activate_request svc
      ≡ some (
        pos 0,
        record svc {
          bridge = logged svc.bridge 11 (reply block activate_request (0 ∷ 3 ∷ []) 0x00) 0;
          frees = svc.frees + 1;
        },
      ))
gb_svc_intf_write-answers_example =
    gb_svc_intf_write-answers zeroed zeroed-HasMemory on_write 11 0 on_create intf_activate
      activate_request svc refl tt linked-Linked

-- The AP's cport 1 to the node's cport 5.
abbrev node_request : Message
node_request = message 0x07 (1 ∷ 1 ∷ 0 ∷ 2 ∷ 5 ∷ 0 ∷ 0 ∷ 0 ∷ [])

created_lem : gb_apbridge_connection_create on_create 1 1 2 5 linked ≡ some (pos 0, with_node)
unfolding gb_apbridge_connection_create connection_ends gb_interface_get connect node_ap_add
created_lem = refl

svc_connection_create_handler-created_example :
    Linked with_node 11 0
    × (block : Bytes) × (svc_connection_create_handler zeroed on_create on_write node_request svc
        ≡ some (record svc {
          bridge = logged with_node 11 (reply block node_request [] gb_svc_op_success) 0;
        }))
unfolding conn_request connection_ends
svc_connection_create_handler-created_example =
    svc_connection_create_handler-created zeroed zeroed-HasMemory on_write 11 0 on_create 1 1 2 5 2
      5 1 0 node_request svc with_node refl (omega arith) refl (omega arith) registry-IsNamed
      created_lem linked-Linked

-- Before the start, the SVC's interface is not in the table, and nothing is connected.
abbrev unstarted : Svc
unstarted = record {
  bridge = record {
    node_ap_map = vacant ∷ vacant ∷ [];
    registry = record { heap = memory; intfs = none ∷ some 11 ∷ some 12 ∷ [] };
    log = [];
  };
  counter = 1;
  svc_init = 0;
  frees = 0;
}

added_lem : gb_interface_add false 10 unstarted.bridge.registry ≡ some (pos 0, registry)
unfolding gb_interface_add
added_lem = refl

started_lem :
    gb_apbridge_connection_create on_create ap_inf_id 0 svc_inf_id 0
      (record unstarted.bridge { registry = registry })
    ≡ some (pos 0, linked)
unfolding gb_apbridge_connection_create connection_ends gb_interface_get connect node_ap_add
started_lem = refl

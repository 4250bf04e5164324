-- ===== src/Apbridge.antt =====
-- subsys/greybus/apbridge.c: connections between the AP and the nodes, and the routing of messages.
-- The callbacks of an interface are the drivers': `on_create` and `on_write` are their results, and
-- their calls are kept in a log. They are taken not to change the bridge themselves.
-- `none` is undefined behaviour: an index out of an array, or a pointer that is NULL or dangling.
pub mod Delivery
pub mod Routing
pub mod Lifetime
mod Tests
use greybus_zephyr.Base.{
  ℕ, suc, ◌+◌, Bool, true, false, ◌&&◌, Option, none, some, List, [], ◌∷◌, ◌++◌, ◌==◌, leb,
  if◌then◌else◌, get_elem?, set, length, map, ℤ, pos, negsuc, neg, is_neg, einval, ealready,
  eoverflow, ◌>>=◌,
}
use greybus_zephyr.Messages.{Message}
use greybus_zephyr.Interfaces.{Interface, Registry, to_id, ap_inf_id, gb_interface_get}

-- `struct node_ap_item`; NULL is `none`.
pub record Node : Type 0 where
  pub node_intf : Option ℕ
  pub node_cport : ℕ

-- A call of an interface's callback, with the pointer that it was made through.
pub data BusEvent : Type 0 where
  created : ℕ → ℕ → BusEvent
  destroyed : ℕ → ℕ → BusEvent
  wrote : ℕ → Message → ℕ → BusEvent

-- The table `node_ap_map`, the interfaces, and the calls made so far, oldest first.
pub record Bridge : Type 0 where
  pub node_ap_map : List Node
  pub registry : Registry
  pub log : List BusEvent

abbrev pub vacant : Node
vacant = record { node_intf = none; node_cport = 0 }

unfoldable pub node_ap_add : ℕ → ℕ → ℕ → Bridge → ℤ × Bridge
node_ap_add ap_cport node_cport intf b = elim (get_elem? b.node_ap_map ap_cport) [
  | none ↦ (neg eoverflow, b)
  | some item ↦ elim item.node_intf [
    | some _ ↦ (neg ealready, b)
    | none ↦ (
      pos 0,
      record b {
        node_ap_map =
            set b.node_ap_map ap_cport (record { node_intf = some intf; node_cport = node_cport });
      },
    )
  ]
]

pub node_ap_remove : ℕ → Bridge → ℤ × Bridge
node_ap_remove ap_cport b =
    if leb (length b.node_ap_map) ap_cport
    then (neg eoverflow, b)
    else (pos 0, record b { node_ap_map = set b.node_ap_map ap_cport vacant })

-- The loop of `node_to_ap_cport` from index `i` on.
unfoldable pub find_node : (ℕ → Option Interface) → ℕ → ℕ → ℕ → List Node → Option ℤ
find_node heap node_id node_cport i [] = some (neg einval)
find_node heap node_id node_cport i (item ∷ items) =
    let rest = find_node heap node_id node_cport (i + 1) items in
    elim item.node_intf [
      | none ↦ rest
      | some p ↦ (do
        intf ← heap p
        if intf.id == node_id && item.node_cport == node_cport then some (pos i) else rest)
    ]

unfoldable pub node_to_ap_cport : ℕ → ℕ → Bridge → Option ℤ
node_to_ap_cport node_id node_cport b = find_node b.registry.heap node_id node_cport 0 b.node_ap_map

pub gb_apbridge_init : ℤ
gb_apbridge_init = pos 0

pub gb_apbridge_deinit : Bridge → Bridge
gb_apbridge_deinit b = record b { node_ap_map = map (λ _. vacant) b.node_ap_map }

-- The tests that tell the node's end of a connection from the AP's: the node's id and cport, and the
-- AP's cport. The ids are uint8_t.
unfoldable pub connection_ends : ℕ → ℕ → ℕ → ℕ → Option (ℕ × ℕ × ℕ)
connection_ends intf1_id intf1_cport intf2_id intf2_cport =
    if to_id intf1_id == ap_inf_id
    then some (to_id intf2_id, intf2_cport, intf1_cport)
    else if to_id intf2_id == ap_inf_id
    then some (to_id intf1_id, intf1_cport, intf2_cport)
    else none

module _ (on_create : ℕ → ℕ → ℤ) where
  -- The optional callback, then the entry in the table.
  unfoldable pub connect : ℕ → ℕ → ℕ → Bridge → Option (ℤ × Bridge)
  connect ap_cport node_cport p b = do
    intf ← b.registry.heap p
    if intf.has_create_connection
        then (let b' = record b { log = b.log ++ created p node_cport ∷ [] } in
            if is_neg (on_create p node_cport)
            then some (on_create p node_cport, b')
            else some (node_ap_add ap_cport node_cport p b'))
        else some (node_ap_add ap_cport node_cport p b)

  unfoldable pub gb_apbridge_connection_create : ℕ → ℕ → ℕ → ℕ → Bridge → Option (ℤ × Bridge)
  gb_apbridge_connection_create intf1_id intf1_cport intf2_id intf2_cport b =
      elim (connection_ends intf1_id intf1_cport intf2_id intf2_cport) [
        | none ↦ some (neg einval, b)
        | some (node_id, node_cport, ap_cport) ↦ (do
          slot ← gb_interface_get node_id b.registry
          elim slot [ none ↦ some (neg einval, b) | some p ↦ connect ap_cport node_cport p b ])
      ]

-- The result of `node_ap_remove` is not looked at.
pub gb_apbridge_connection_destroy : ℕ → ℕ → ℕ → ℕ → Bridge → Option (ℤ × Bridge)
gb_apbridge_connection_destroy intf1_id intf1_cport intf2_id intf2_cport b =
    elim (connection_ends intf1_id intf1_cport intf2_id intf2_cport) [
      | none ↦ some (neg einval, b)
      | some (node_id, node_cport, ap_cport) ↦ (do
        slot ← gb_interface_get node_id b.registry
        elim slot [
          | none ↦ some (pos 0, (node_ap_remove ap_cport b).1)
          | some p ↦ (do
            intf ← b.registry.heap p
            let b' =
                if intf.has_destroy_connection
                then record b { log = b.log ++ destroyed p node_cport ∷ [] }
                else b
            some (pos 0, (node_ap_remove ap_cport b').1))
        ])
    ]

module _ (on_write : ℕ → Message → ℕ → ℤ) where
  -- `intf->write(intf, msg, target_cport)`
  pub write : Option ℕ → Message → ℕ → Bridge → Option (ℤ × Bridge)
  write none msg cport b = none
  write (some p) msg cport b = do
    _ ← b.registry.heap p
    some (on_write p msg cport, record b { log = b.log ++ wrote p msg cport ∷ [] })

  pub gb_apbridge_send : ℕ → ℕ → Message → Bridge → Option (ℤ × Bridge)
  gb_apbridge_send intf_id intf_cport msg b =
      if to_id intf_id == ap_inf_id
      then (do
        item ← get_elem? b.node_ap_map intf_cport
        write item.node_intf msg item.node_cport b)
      else (do
        ret ← node_to_ap_cport (to_id intf_id) intf_cport b
        elim ret [
          | negsuc n ↦ some (negsuc n, b)
          | pos ap_cport ↦ (do ap ← gb_interface_get ap_inf_id b.registry; write ap msg ap_cport b)
        ])

-- ===== src/Apbridge/Delivery.antt =====
-- apbridge.c: messages between the two ends of a connection.
use greybus_zephyr.Base.{
  ℕ, ◌^◌, ◌<◌, ◌≡◌, ◌≢◌, ◌∙◌, ap, false, ◌&&◌, some, List, [], ◌∷◌, ◌++◌, arith, ◌==◌, get_elem?,
  get_elem?-set_self, ℤ, pos, neg, einval, ne→==,
}
use greybus_zephyr.Messages.{Message}
use greybus_zephyr.Interfaces.{Interface, Registry, to_id, ap_inf_id, gb_interface_get}
use greybus_zephyr.Interfaces.Table.{get_elem?→lt}
use greybus_zephyr.Apbridge.{
  BusEvent, wrote, Bridge, node_to_ap_cport, connection_ends, gb_apbridge_connection_create, write,
  gb_apbridge_send,
}
use greybus_zephyr.Apbridge.Routing.{
  entry, Added, create-Connected, find_node-set, find_node-set_other,
}

-- Every pointer in the table leads to an interface with the id of its slot.
pub record IsNamed (r : Registry) : Type 0 where
  pub named :
      (id p : ℕ)
      → id < 2 ^ 8
      → gb_interface_get id r ≡ some (some p)
      → (intf : Interface) × (r.heap p ≡ some intf) × (intf.id ≡ id)

-- The node's id is that of a slot.
pub connection_ends-lt :
    (i1 c1 i2 c2 node_id node_cport ap_cport : ℕ)
    → connection_ends i1 c1 i2 c2 ≡ some (node_id, node_cport, ap_cport)
    → node_id < 2 ^ 8
unfolding connection_ends
connection_ends-lt i1 c1 i2 c2 node_id node_cport ap_cport e = ground (arith, e)

-- The bridge after one more call of a write callback.
abbrev pub logged : Bridge → ℕ → Message → ℕ → Bridge
logged b p msg cport = record b { log = b.log ++ wrote p msg cport ∷ [] }

-- The entry that a connection fills is the one that its node is found at.
node_to_ap_cport-Added :
    (node_id node_cport ap_cport p : ℕ) (intf : Interface) (log : List BusEvent) (b b' : Bridge)
    → b.registry.heap p ≡ some intf
    → intf.id ≡ node_id
    → node_to_ap_cport node_id node_cport b ≡ some (neg einval)
    → Added ap_cport node_cport p (record b { log = log }) b'
    → node_to_ap_cport node_id node_cport b' ≡ some (pos ap_cport)
unfolding node_to_ap_cport
node_to_ap_cport-Added node_id node_cport ap_cport p intf log b b' alive id_is free a =
    ap (λ (x : Bridge). node_to_ap_cport node_id node_cport x) a.becomes
    ∙ find_node-set b.registry.heap node_id node_cport p intf alive id_is b.node_ap_map 0 ap_cport
        a.item free a.slot a.was_vacant
    ∙ ap (λ t. some (pos t)) (omega arith)

-- The connection of one node leaves the index of another's.
pub node_to_ap_cport-other :
    (node_id node_cport ap_cport p other_cport k : ℕ) (intf : Interface) (log : List BusEvent)
    (b b' : Bridge)
    → b.registry.heap p ≡ some intf
    → (intf.id == node_id && other_cport == node_cport) ≡ false
    → node_to_ap_cport node_id node_cport b ≡ some (pos k)
    → Added ap_cport other_cport p (record b { log = log }) b'
    → node_to_ap_cport node_id node_cport b' ≡ some (pos k)
unfolding node_to_ap_cport
node_to_ap_cport-other node_id node_cport ap_cport p other_cport k intf log b b' alive other found
      a =
    ap (λ (x : Bridge). node_to_ap_cport node_id node_cport x) a.becomes
    ∙ find_node-set_other b.registry.heap node_id node_cport p other_cport intf alive b.node_ap_map
        0 ap_cport k a.item other found a.slot a.was_vacant

module _ (on_write : ℕ → Message → ℕ → ℤ) where
  write-alive :
      (p : ℕ) (msg : Message) (cport : ℕ) (b : Bridge) {intf : Interface}
      → b.registry.heap p ≡ some intf
      → write on_write (some p) msg cport b ≡ some (on_write p msg cport, logged b p msg cport)
  unfolding write
  write-alive p msg cport b alive = rw alive

  -- A message from a node with a connection goes to the AP.
  pub gb_apbridge_send-found :
      (node_id node_cport k a : ℕ) (msg : Message) (b : Bridge) {intf : Interface}
      → node_id < 2 ^ 8
      → node_id ≢ ap_inf_id
      → node_to_ap_cport node_id node_cport b ≡ some (pos k)
      → gb_interface_get ap_inf_id b.registry ≡ some (some a)
      → b.registry.heap a ≡ some intf
      → gb_apbridge_send on_write node_id node_cport msg b
        ≡ some (on_write a msg k, logged b a msg k)
  unfolding gb_apbridge_send
  gb_apbridge_send-found node_id node_cport k a msg b small other found ap_is alive =
      let kept : to_id node_id ≡ node_id = omega (arith, small) in
      rw (kept, ne→== _ _ other, found, ap_is) (write-alive a msg k b alive)

  slot-Added :
      (ap_cport node_cport p : ℕ) (b b' : Bridge)
      → Added ap_cport node_cport p b b'
      → get_elem? b'.node_ap_map ap_cport ≡ some (entry p node_cport)
  slot-Added ap_cport node_cport p b b' a =
      ap (λ x. get_elem? x ap_cport) (ap (λ (x : Bridge). x.node_ap_map) a.becomes)
      ∙ get_elem?-set_self b.node_ap_map ap_cport (entry p node_cport)
          (get_elem?→lt b.node_ap_map ap_cport a.item a.slot)

  module _ (on_create : ℕ → ℕ → ℤ) (i1 c1 i2 c2 node_id node_cport ap_cport n : ℕ)
      (b b' : Bridge) where
    -- After a connection between the AP and a node is made, a message from the AP on its
    -- cport of the connection is written to that node's interface, on the node's cport.
    pub gb_apbridge_send-to_node :
        (msg : Message)
        → connection_ends i1 c1 i2 c2 ≡ some (node_id, node_cport, ap_cport)
        → gb_apbridge_connection_create on_create i1 c1 i2 c2 b ≡ some (pos n, b')
        → (p : ℕ) × (gb_interface_get node_id b.registry ≡ some (some p))
          × (gb_apbridge_send on_write ap_inf_id ap_cport msg b'
              ≡ some (on_write p msg node_cport, logged b' p msg node_cport))
    unfolding gb_apbridge_send
    gb_apbridge_send-to_node msg ends e =
        let c = create-Connected on_create i1 c1 i2 c2 node_id node_cport ap_cport n b b' ends e in
        let slot = slot-Added ap_cport node_cport c.node _ b' c.added in
        let alive : b'.registry.heap c.node ≡ some c.intf =
          ap (λ (x : Bridge). x.registry.heap c.node) c.added.becomes ∙ c.alive in
        (c.node, c.node_is, rw slot (write-alive c.node msg node_cport b' alive))

    -- After a connection between the AP and a node that had none on that cport is made, a
    -- message from the node on its cport is written to the AP's interface, on the AP's cport
    -- of the connection; the table's pointers are taken to lead to interfaces with the ids of
    -- their slots.
    pub gb_apbridge_send-to_ap :
        (msg : Message) (a : ℕ)
        → connection_ends i1 c1 i2 c2 ≡ some (node_id, node_cport, ap_cport)
        → gb_apbridge_connection_create on_create i1 c1 i2 c2 b ≡ some (pos n, b')
        → IsNamed b.registry
        → node_id ≢ ap_inf_id
        → gb_interface_get ap_inf_id b.registry ≡ some (some a)
        → node_to_ap_cport node_id node_cport b ≡ some (neg einval)
        → gb_apbridge_send on_write node_id node_cport msg b'
          ≡ some (on_write a msg ap_cport, logged b' a msg ap_cport)
    gb_apbridge_send-to_ap msg a ends e names other ap_is free =
        let c = create-Connected on_create i1 c1 i2 c2 node_id node_cport ap_cport n b b' ends e in
        let small = connection_ends-lt i1 c1 i2 c2 node_id node_cport ap_cport ends in
        let (intf, alive, id_is) = names.named node_id c.node small c.node_is in
        let (ap_intf, ap_alive, _) = names.named ap_inf_id a (omega arith) ap_is in
        let found =
          node_to_ap_cport-Added node_id node_cport ap_cport c.node intf c.log b b' alive id_is free
            c.added in
        let ap_found : gb_interface_get ap_inf_id b'.registry ≡ some (some a) =
          ap (λ (x : Bridge). gb_interface_get ap_inf_id x.registry) c.added.becomes ∙ ap_is in
        let ap_there : b'.registry.heap a ≡ some ap_intf =
          ap (λ (x : Bridge). x.registry.heap a) c.added.becomes ∙ ap_alive in
        gb_apbridge_send-found node_id node_cport ap_cport a msg b' small other found ap_found
          ap_there

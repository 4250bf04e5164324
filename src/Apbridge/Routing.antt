-- ===== src/Apbridge/Routing.antt =====
-- apbridge.c: a message goes to the other end of its connection.
use greybus_zephyr.Base.{
  ℕ, zero, suc, ◌+◌, ◌≡◌, ◌∙◌, ap, false, ◌&&◌, Option, none, some, List, [], ◌∷◌, ◌++◌, arith,
  ◌==◌, get_elem?, set, ℤ, pos, neg, is_neg, einval, Bool-cases, Option-cases, inl, inr,
}
use greybus_zephyr.Interfaces.{Interface, gb_interface_get}
use greybus_zephyr.Apbridge.{
  Node, BusEvent, created, Bridge, node_ap_add, find_node, connection_ends, connect,
  gb_apbridge_connection_create,
}

-- The entry of a connection.
abbrev pub entry : ℕ → ℕ → Node
entry p node_cport = record { node_intf = some p; node_cport = node_cport }

-- A successful `node_ap_add` has filled a vacant slot, and changed nothing else.
pub record Added (ap_cport node_cport p : ℕ) (b b' : Bridge) : Type 0 where
  pub item : Node
  pub slot : get_elem? b.node_ap_map ap_cport ≡ some item
  pub was_vacant : item.node_intf ≡ none
  pub becomes : b' ≡ record b { node_ap_map = set b.node_ap_map ap_cport (entry p node_cport) }

node_ap_add-Added :
    (ap_cport node_cport p n : ℕ) (b b' : Bridge)
    → node_ap_add ap_cport node_cport p b ≡ (pos n, b')
    → Added ap_cport node_cport p b b'
unfolding node_ap_add
node_ap_add-Added ap_cport node_cport p n b b' e =
    elim (Option-cases (get_elem? b.node_ap_map ap_cport)) [
      | inl out ↦ cc (rw (out, node_ap_add) at e)
      | inr (item, slot) ↦ elim (Option-cases item.node_intf) [
        | inr (q, taken) ↦ cc (rw (slot, taken, node_ap_add) at e)
        | inl free ↦ record {
          item = item;
          slot = slot;
          was_vacant = free;
          becomes = cc (rw (slot, free, node_ap_add) at e);
        }
      ]
    ]

module _ (heap : ℕ → Option Interface) (node_id node_cport p : ℕ) (intf : Interface)
    (alive : heap p ≡ some intf) (named : intf.id ≡ node_id) where
  -- A node that was in no entry is found at the one that is filled for it.
  pub find_node-set :
      (items : List Node) (i ap_cport : ℕ) (item : Node)
      → find_node heap node_id node_cport i items ≡ some (neg einval)
      → get_elem? items ap_cport ≡ some item
      → item.node_intf ≡ none
      → find_node heap node_id node_cport i (set items ap_cport (entry p node_cport))
        ≡ some (pos (i + ap_cport))
  unfolding find_node
  find_node-set [] i ap_cport item miss slot free = cc
  find_node-set (x ∷ items) i zero item miss slot free = ground (arith, alive, named)
  find_node-set (x ∷ items) i (suc k) item miss slot free =
      ground (arith, find_node-set items (i + 1) k item)

module _ (heap : ℕ → Option Interface) (node_id node_cport p other_cport : ℕ) (intf : Interface)
    (alive : heap p ≡ some intf) where
  -- An entry for another end leaves the found index.
  pub find_node-set_other :
      (items : List Node) (i ap_cport k : ℕ) (item : Node)
      → (intf.id == node_id && other_cport == node_cport) ≡ false
      → find_node heap node_id node_cport i items ≡ some (pos k)
      → get_elem? items ap_cport ≡ some item
      → item.node_intf ≡ none
      → find_node heap node_id node_cport i (set items ap_cport (entry p other_cport))
        ≡ some (pos k)
  unfolding find_node
  find_node-set_other [] i ap_cport k item other hit slot free = cc
  find_node-set_other (x ∷ items) i zero k item other hit slot free = ground (arith, alive, other)
  find_node-set_other (x ∷ items) i (suc n) k item other hit slot free =
      ground (arith, find_node-set_other items (i + 1) n k item)

module _ (on_create : ℕ → ℕ → ℤ) where
  connect-Added :
      (ap_cport node_cport p n : ℕ) (b b' : Bridge)
      → connect on_create ap_cport node_cport p b ≡ some (pos n, b')
      → (intf : Interface) × (b.registry.heap p ≡ some intf)
        × (log : List BusEvent) × Added ap_cport node_cport p (record b { log = log }) b'
  unfolding connect
  connect-Added ap_cport node_cport p n b b' e = elim (Option-cases (b.registry.heap p)) [
    | inl dead ↦ cc (rw (dead, connect) at e)
    | inr (intf, alive) ↦ elim (Bool-cases intf.has_create_connection) [
      | inr plain ↦ (
        intf,
        alive,
        b.log,
        node_ap_add-Added ap_cport node_cport p n b b' (cc (rw (alive, plain, connect) at e)),
      )
      | inl optional ↦ elim (Bool-cases (is_neg (on_create p node_cport))) [
        | inl refused ↦ ground (arith, rw (alive, optional, refused, connect) at e, refused)
        | inr allowed ↦
            let log = b.log ++ created p node_cport ∷ [] in
            (
              intf,
              alive,
              log,
              node_ap_add-Added ap_cport node_cport p n (record b { log = log }) b'
                  (cc (rw (alive, optional, allowed, connect) at e)),
            )
      ]
    ]
  ]

  -- What a successful connection has found and done.
  pub record Connected (node_id node_cport ap_cport : ℕ) (b b' : Bridge) : Type 0 where
    pub node : ℕ
    pub intf : Interface
    pub log : List BusEvent
    pub node_is : gb_interface_get node_id b.registry ≡ some (some node)
    pub alive : b.registry.heap node ≡ some intf
    pub added : Added ap_cport node_cport node (record b { log = log }) b'

  pub create-Connected :
      (i1 c1 i2 c2 node_id node_cport ap_cport n : ℕ) (b b' : Bridge)
      → connection_ends i1 c1 i2 c2 ≡ some (node_id, node_cport, ap_cport)
      → gb_apbridge_connection_create on_create i1 c1 i2 c2 b ≡ some (pos n, b')
      → Connected node_id node_cport ap_cport b b'
  unfolding gb_apbridge_connection_create
  create-Connected i1 c1 i2 c2 node_id node_cport ap_cport n b b' ends e =
      elim (Option-cases (gb_interface_get node_id b.registry)) [
        | inl out ↦ cc (rw (ends, out, gb_apbridge_connection_create) at e)
        | inr (slot, found) ↦ elim (Option-cases slot) [
          | inl null ↦ cc (rw (ends, found, null, gb_apbridge_connection_create) at e)
          | inr (p, there) ↦
              let (intf, alive, log, added) =
                connect-Added ap_cport node_cport p n b b'
                  (rw (ends, found, there, gb_apbridge_connection_create) at e) in
              record {
                node = p;
                intf = intf;
                log = log;
                node_is = found ∙ ap some there;
                alive = alive;
                added = added;
              }
        ]
      ]

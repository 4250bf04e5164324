-- ===== src/Apbridge/Lifetime.antt =====
-- apbridge.c with interfaces.c: failed and destroyed connections, and nodes that are freed while they
-- are connected.
use greybus_zephyr.Base.{
  ℕ, ◌<◌, ◌≡◌, ◌≢◌, ◌∙◌, refl, sym, ap, Option, none, some, List, [], ◌∷◌, ◌++◌, arith, get_elem?,
  set, get_elem?-set_self, get_elem?-set_ne, length, ℤ, pos, negsuc, Bool-cases, Option-cases, inl,
  inr,
}
use greybus_zephyr.Messages.{Message}
use greybus_zephyr.Interfaces.{Registry, ap_inf_id, gb_interface_get, gb_interface_dealloc}
use greybus_zephyr.Interfaces.Table.{gb_interface_dealloc-dangling}
use greybus_zephyr.Apbridge.{
  Node, vacant, BusEvent, destroyed, Bridge, node_ap_add, node_ap_remove, connection_ends, connect,
  gb_apbridge_connection_create, gb_apbridge_connection_destroy, write, gb_apbridge_send,
}

-- After a failure the table of connections is as it was.
abbrev pub KeepsMapIfFailed : Bridge → Option (ℤ × Bridge) → Type 0
KeepsMapIfFailed b none = Unit
KeepsMapIfFailed b (some (pos _, b')) = Unit
KeepsMapIfFailed b (some (negsuc _, b')) = b'.node_ap_map ≡ b.node_ap_map

node_ap_add-keeps :
    (ap_cport node_cport p : ℕ) (b : Bridge)
    → KeepsMapIfFailed b (some (node_ap_add ap_cport node_cport p b))
unfolding node_ap_add
node_ap_add-keeps ap_cport node_cport p b = ground arith

module _ (on_create : ℕ → ℕ → ℤ) where
  connect-keeps :
      (ap_cport node_cport p : ℕ) (b : Bridge)
      → KeepsMapIfFailed b (connect on_create ap_cport node_cport p b)
  unfolding connect node_ap_add
  connect-keeps ap_cport node_cport p b = ground arith

  -- A connection that could not be made leaves the table of connections as it was.
  pub gb_apbridge_connection_create-failed :
      (i1 c1 i2 c2 : ℕ) (b : Bridge)
      → KeepsMapIfFailed b (gb_apbridge_connection_create on_create i1 c1 i2 c2 b)
  unfolding gb_apbridge_connection_create
  gb_apbridge_connection_create-failed i1 c1 i2 c2 b =
      elim (Option-cases (connection_ends i1 c1 i2 c2)) [
        | inl no_ap ↦ rw (no_ap, gb_apbridge_connection_create) refl
        | inr ((node_id, node_cport, ap_cport), ends) ↦
            elim (Option-cases (gb_interface_get node_id b.registry)) [
              | inl out ↦ rw (ends, out, gb_apbridge_connection_create) tt
              | inr (slot, found) ↦ elim (Option-cases slot) [
                | inl null ↦ rw (ends, found, null, gb_apbridge_connection_create) refl
                | inr (p, there) ↦
                    rw (ends, found, there, gb_apbridge_connection_create)
                      (connect-keeps ap_cport node_cport p b)
              ]
            ]
      ]

node_ap_remove_lem :
    (ap_cport : ℕ) (b : Bridge)
    → ap_cport < length b.node_ap_map
    → (node_ap_remove ap_cport b).1 ≡ record b { node_ap_map = set b.node_ap_map ap_cport vacant }
unfolding node_ap_remove
node_ap_remove_lem ap_cport b h = ground arith

-- What a destroyed connection leaves: a vacant entry, and a call of the optional callback.
abbrev Vacated : ℕ → Bridge → ℤ → Bridge → Type 0
Vacated ap_cport b ret b' =
    (log : List BusEvent) × (ret ≡ pos 0)
    × (b' ≡ record b { log = log; node_ap_map = set b.node_ap_map ap_cport vacant })

module _ (i1 c1 i2 c2 node_id node_cport ap_cport : ℕ) (b b' : Bridge) (ret : ℤ) where
  destroy-Vacated :
      connection_ends i1 c1 i2 c2 ≡ some (node_id, node_cport, ap_cport)
      → ap_cport < length b.node_ap_map
      → gb_apbridge_connection_destroy i1 c1 i2 c2 b ≡ some (ret, b')
      → Vacated ap_cport b ret b'
  unfolding gb_apbridge_connection_destroy
  destroy-Vacated ends lt e = elim (Option-cases (gb_interface_get node_id b.registry)) [
    | inl out ↦ cc (rw (ends, out, gb_apbridge_connection_destroy) at e)
    | inr (slot, found) ↦ elim (Option-cases slot) [
      | inl null ↦
          let e' = rw (ends, found, null, gb_apbridge_connection_destroy) at e in
          (b.log, cc e', cc (e', node_ap_remove_lem ap_cport b lt))
      | inr (p, there) ↦ elim (Option-cases (b.registry.heap p)) [
        | inl dead ↦ cc (rw (ends, found, there, dead, gb_apbridge_connection_destroy) at e)
        | inr (intf, alive) ↦ elim (Bool-cases intf.has_destroy_connection) [
          | inl optional ↦
              let told = record b { log = b.log ++ destroyed p node_cport ∷ [] } in
              let e' =
                rw (ends, found, there, alive, optional, gb_apbridge_connection_destroy) at e in
              (told.log, cc e', cc (e', node_ap_remove_lem ap_cport told lt))
          | inr plain ↦
              let e' = rw (ends, found, there, alive, plain, gb_apbridge_connection_destroy) at e in
              (b.log, cc e', cc (e', node_ap_remove_lem ap_cport b lt))
        ]
      ]
    ]
  ]

-- Destroying a connection on a cport of the AP within the table returns 0, leaves that entry
-- vacant and every other one as it was.
gb_apbridge_connection_destroy-vacates :
    (i1 c1 i2 c2 node_id node_cport ap_cport : ℕ) (b b' : Bridge) (ret : ℤ)
    → connection_ends i1 c1 i2 c2 ≡ some (node_id, node_cport, ap_cport)
    → ap_cport < length b.node_ap_map
    → gb_apbridge_connection_destroy i1 c1 i2 c2 b ≡ some (ret, b')
    → (ret ≡ pos 0)
      × (get_elem? b'.node_ap_map ap_cport ≡ some vacant)
      × ((j : ℕ) → j ≢ ap_cport → get_elem? b'.node_ap_map j ≡ get_elem? b.node_ap_map j)
gb_apbridge_connection_destroy-vacates i1 c1 i2 c2 node_id node_cport ap_cport b b' ret ends lt e =
    let (log, zero_is, after) =
      destroy-Vacated i1 c1 i2 c2 node_id node_cport ap_cport b b' ret ends lt e in
    (
      zero_is,
      ap (λ (x : Bridge). get_elem? x.node_ap_map ap_cport) after
          ∙ get_elem?-set_self b.node_ap_map ap_cport vacant lt,
      λ j ne.
          ap (λ (x : Bridge). get_elem? x.node_ap_map j) after
          ∙ get_elem?-set_ne b.node_ap_map vacant (λ same. ne (sym same)),
    )

module _ (on_write : ℕ → Message → ℕ → ℤ) where
  -- Through a vacant entry the AP's message is lost to a NULL pointer.
  pub gb_apbridge_send-vacant :
      (ap_cport : ℕ) (msg : Message) (item : Node) (b : Bridge)
      → get_elem? b.node_ap_map ap_cport ≡ some item
      → item.node_intf ≡ none
      → gb_apbridge_send on_write ap_inf_id ap_cport msg b ≡ none
  unfolding gb_apbridge_send write
  gb_apbridge_send-vacant ap_cport msg item b slot free = rw (slot, free)

  -- After a connection is destroyed, a message from the AP on its cport makes the bridge call
  -- through a NULL pointer.
  gb_apbridge_send-destroyed :
      (i1 c1 i2 c2 node_id node_cport ap_cport : ℕ) (msg : Message) (b b' : Bridge) (ret : ℤ)
      → connection_ends i1 c1 i2 c2 ≡ some (node_id, node_cport, ap_cport)
      → ap_cport < length b.node_ap_map
      → gb_apbridge_connection_destroy i1 c1 i2 c2 b ≡ some (ret, b')
      → gb_apbridge_send on_write ap_inf_id ap_cport msg b' ≡ none
  gb_apbridge_send-destroyed i1 c1 i2 c2 node_id node_cport ap_cport msg b b' ret ends lt e =
      let (_, slot, _) =
        gb_apbridge_connection_destroy-vacates i1 c1 i2 c2 node_id node_cport ap_cport b b' ret ends
          lt e in
      gb_apbridge_send-vacant ap_cport msg vacant b' slot refl

  -- After a node's interface is freed while it is connected, a message from the AP on that
  -- cport makes the bridge call through a pointer to freed memory.
  gb_apbridge_send-freed :
      (ap_cport p : ℕ) (msg : Message) (item : Node) (b : Bridge) (r' : Registry)
      → get_elem? b.node_ap_map ap_cport ≡ some item
      → item.node_intf ≡ some p
      → gb_interface_dealloc p b.registry ≡ some r'
      → gb_apbridge_send on_write ap_inf_id ap_cport msg (record b { registry = r' }) ≡ none
  unfolding gb_apbridge_send write
  gb_apbridge_send-freed ap_cport p msg item b r' slot there e =
      rw (slot, there) (rw (gb_interface_dealloc-dangling p b.registry r' e))

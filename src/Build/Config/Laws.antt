-- ===== src/Build/Config/Laws.antt =====
-- A configuration of build.rs and the table it was read from.
use esp_nimble_host.Prelude.{
  ℕ, ◌≡◌, sym, ap, Bool, Option, some, List, [], ◌∷◌, arith, ok, All, All-append, subst, inl, inr,
  Option-cases,
}
use Prim.Native.String.{String}
use esp_nimble_host.Build.Table.{Value, Table, leaf, table, get}
use esp_nimble_host.Build.Table.Laws.{setting}
use esp_nimble_host.Build.Config.Entries.{
  Setting, flag, number, roles_entries, connections_entries, transport_entries, msys_entries,
  gatt_entries, l2cap_entries, storage_entries, security_entries, prefixed, sections, join, entries,
  bind, Reads, InSection, Holds,
}
use esp_nimble_host.Build.Config.{
  struct_field, deny_unknown, SecurityConfig, TransportConfig, read_gatt, u16_field, bool_field,
  L2capConfig, read_storage, MsysConfig, ConnectionsConfig, read_connections, GattConfig,
  read_security, read_transport, read_roles, StorageConfig, read_msys, read_l2cap, RolesConfig,
  NimbleConfig, try_into, Read,
}

module _ {Leaf : Type 0} (as_bool : Leaf → Option Bool) (as_u16 : Leaf → Option ℕ) where
  bool_field-Reads :
      (k : String) (u : Table Leaf) (b : Bool)
      → bool_field as_bool as_u16 k u ≡ ok b
      → InSection as_bool as_u16 u (k, flag b)
  unfolding bool_field setting bind
  bool_field-Reads k u b h = ground arith

  u16_field-Reads :
      (k : String) (u : Table Leaf) (n : ℕ)
      → u16_field as_bool as_u16 k u ≡ ok n
      → InSection as_bool as_u16 u (k, number n)
  unfolding u16_field setting bind
  u16_field-Reads k u n h = ground arith

  read_roles-InSection :
      (u : Table Leaf) (r : RolesConfig)
      → read_roles as_bool as_u16 u ≡ ok r
      → All (InSection as_bool as_u16 u) (roles_entries r)
  unfolding read_roles deny_unknown
  read_roles-InSection u r h = ground (
    arith,
    bool_field-Reads "central" u r.central,
    bool_field-Reads "observer" u r.observer,
    bool_field-Reads "peripheral" u r.peripheral,
    bool_field-Reads "broadcaster" u r.broadcaster,
  )

  read_connections-InSection :
      (u : Table Leaf) (r : ConnectionsConfig)
      → read_connections as_bool as_u16 u ≡ ok r
      → All (InSection as_bool as_u16 u) (connections_entries r)
  unfolding read_connections deny_unknown
  read_connections-InSection u r h =
      ground (arith, u16_field-Reads "max_connections" u r.max_connections)

  read_transport-InSection :
      (u : Table Leaf) (r : TransportConfig)
      → read_transport as_bool as_u16 u ≡ ok r
      → All (InSection as_bool as_u16 u) (transport_entries r)
  unfolding read_transport deny_unknown
  read_transport-InSection u r h = ground (
    arith,
    u16_field-Reads "acl_count" u r.acl_count,
    u16_field-Reads "acl_size" u r.acl_size,
    u16_field-Reads "evt_count" u r.evt_count,
    u16_field-Reads "evt_discardable_count" u r.evt_discardable_count,
    u16_field-Reads "evt_size" u r.evt_size,
  )

  read_msys-InSection :
      (u : Table Leaf) (r : MsysConfig)
      → read_msys as_bool as_u16 u ≡ ok r
      → All (InSection as_bool as_u16 u) (msys_entries r)
  unfolding read_msys deny_unknown
  read_msys-InSection u r h = ground (
    arith,
    u16_field-Reads "block_count" u r.block_count,
    u16_field-Reads "block_size" u r.block_size,
  )

  read_gatt-InSection :
      (u : Table Leaf) (r : GattConfig)
      → read_gatt as_bool as_u16 u ≡ ok r
      → All (InSection as_bool as_u16 u) (gatt_entries r)
  unfolding read_gatt deny_unknown
  read_gatt-InSection u r h = ground (
    arith,
    u16_field-Reads "preferred_mtu" u r.preferred_mtu,
    u16_field-Reads "max_procs" u r.max_procs,
    u16_field-Reads "max_prep_entries" u r.max_prep_entries,
    u16_field-Reads "resume_rate_ms" u r.resume_rate_ms,
  )

  read_l2cap-InSection :
      (u : Table Leaf) (r : L2capConfig)
      → read_l2cap as_bool as_u16 u ≡ ok r
      → All (InSection as_bool as_u16 u) (l2cap_entries r)
  unfolding read_l2cap deny_unknown
  read_l2cap-InSection u r h = ground (
    arith,
    u16_field-Reads "max_channels" u r.max_channels,
    u16_field-Reads "max_sig_procs" u r.max_sig_procs,
  )

  read_storage-InSection :
      (u : Table Leaf) (r : StorageConfig)
      → read_storage as_bool as_u16 u ≡ ok r
      → All (InSection as_bool as_u16 u) (storage_entries r)
  unfolding read_storage deny_unknown
  read_storage-InSection u r h =
      ground (
        arith,
        u16_field-Reads "max_bonds" u r.max_bonds,
        u16_field-Reads "max_cccds" u r.max_cccds,
      )

  read_security-InSection :
      (u : Table Leaf) (r : SecurityConfig)
      → read_security as_bool as_u16 u ≡ ok r
      → All (InSection as_bool as_u16 u) (security_entries r)
  unfolding read_security deny_unknown
  read_security-InSection u r h = ground (
    arith,
    bool_field-Reads "legacy" u r.legacy,
    bool_field-Reads "sc" u r.sc,
    bool_field-Reads "mitm" u r.mitm,
    bool_field-Reads "bonding" u r.bonding,
    u16_field-Reads "max_procs" u r.max_procs,
  )

  setting-section :
      (s k : String) (t u : Table Leaf)
      → get s t ≡ some (table u)
      → setting (s ∷ k ∷ []) (some (table t)) ≡ setting (k ∷ []) (some (table u))
  unfolding setting
  setting-section s k t u g = ap (setting (k ∷ [])) g

  All-prefixed :
      (s : String) (t u : Table Leaf) (es : List (String × Setting))
      → get s t ≡ some (table u)
      → All (InSection as_bool as_u16 u) es
      → All (Holds as_bool as_u16 t) (prefixed s es)
  All-prefixed s t u [] g h = tt
  All-prefixed s t u (e ∷ es) g (h, hs) = (
    subst (Reads as_bool as_u16 e.1) (sym (setting-section s e.0 t u g)) h,
    All-prefixed s t u es g hs,
  )

  section_case :
      {A : Type 0} (read : Table Leaf → Read as_bool as_u16 A) (s : String) (t : Table Leaf) (x : A)
      → struct_field as_bool as_u16 read s t ≡ ok x
      → (v : Value Leaf) → get s t ≡ some v
      → (u : Table Leaf) × (get s t ≡ some (table u)) × (read u ≡ ok x)
  unfolding struct_field
  section_case read s t x h (leaf l) e = absurd (ground arith)
  section_case read s t x h (table u) e = (u, e, ground arith)

  section_of :
      {A : Type 0} (read : Table Leaf → Read as_bool as_u16 A) (s : String) (t : Table Leaf) (x : A)
      → struct_field as_bool as_u16 read s t ≡ ok x
      → (u : Table Leaf) × (get s t ≡ some (table u)) × (read u ≡ ok x)
  unfolding struct_field
  section_of read s t x h = elim (Option-cases (get s t)) [
    | inl e ↦ absurd (ground arith)
    | inr (v, e) ↦ section_case read s t x h v e
  ]

  struct_field-Holds :
      {A : Type 0} (read : Table Leaf → Read as_bool as_u16 A) (list : A → List (String × Setting))
      → ((u : Table Leaf) (x : A) → read u ≡ ok x → All (InSection as_bool as_u16 u) (list x))
      → (s : String) (t : Table Leaf) (x : A) → struct_field as_bool as_u16 read s t ≡ ok x
      → All (Holds as_bool as_u16 t) (prefixed s (list x))
  struct_field-Holds read list each s t x h =
      let (u, g, r) = section_of read s t x h in All-prefixed s t u (list x) g (each u x r)

  try_into-sections :
      (t : Table Leaf) (c : NimbleConfig)
      → try_into as_bool as_u16 t ≡ ok c
      → (struct_field as_bool as_u16 (read_roles as_bool as_u16) "roles" t ≡ ok c.roles)
        × (struct_field as_bool as_u16 (read_connections as_bool as_u16) "connections" t
            ≡ ok c.connections)
        × (struct_field as_bool as_u16 (read_transport as_bool as_u16) "transport" t
            ≡ ok c.transport)
        × (struct_field as_bool as_u16 (read_msys as_bool as_u16) "msys" t ≡ ok c.msys)
        × (struct_field as_bool as_u16 (read_gatt as_bool as_u16) "gatt" t ≡ ok c.gatt)
        × (struct_field as_bool as_u16 (read_l2cap as_bool as_u16) "l2cap" t ≡ ok c.l2cap)
        × (struct_field as_bool as_u16 (read_storage as_bool as_u16) "storage" t ≡ ok c.storage)
        × (struct_field as_bool as_u16 (read_security as_bool as_u16) "security" t ≡ ok c.security)
  unfolding try_into deny_unknown
  try_into-sections t c h = ground arith

  All-join :
      (t : Table Leaf) (l : List (String × List (String × Setting)))
      → All (λ e. All (Holds as_bool as_u16 t) (prefixed e.0 e.1)) l
      → All (Holds as_bool as_u16 t) (join l)
  All-join t [] h = tt
  All-join t ((s, es) ∷ l) (h, hs) =
      All-append (Holds as_bool as_u16 t) (prefixed s es) (join l) h (All-join t l hs)

  -- A configuration that is read from a table has, at the path of each setting, what the table has.
  pub try_into-Holds :
      (t : Table Leaf) (c : NimbleConfig)
      → try_into as_bool as_u16 t ≡ ok c
      → All (Holds as_bool as_u16 t) (entries c)
  try_into-Holds t c h =
      let f = try_into-sections t c h in
      All-join t (sections c) (
        struct_field-Holds (read_roles as_bool as_u16) roles_entries read_roles-InSection "roles" t
            c.roles f.0,
        (
          struct_field-Holds (read_connections as_bool as_u16) connections_entries
              read_connections-InSection "connections" t c.connections f.1,
          (
            struct_field-Holds (read_transport as_bool as_u16) transport_entries
                read_transport-InSection "transport" t c.transport f.2,
            (
              struct_field-Holds (read_msys as_bool as_u16) msys_entries read_msys-InSection "msys"
                  t c.msys f.3,
              (
                struct_field-Holds (read_gatt as_bool as_u16) gatt_entries read_gatt-InSection
                    "gatt" t c.gatt f.4,
                (
                  struct_field-Holds (read_l2cap as_bool as_u16) l2cap_entries read_l2cap-InSection
                      "l2cap" t c.l2cap f.5,
                  (
                    struct_field-Holds (read_storage as_bool as_u16) storage_entries
                        read_storage-InSection "storage" t c.storage f.6,
                    (
                      struct_field-Holds (read_security as_bool as_u16) security_entries
                          read_security-InSection "security" t c.security f.7,
                      tt,
                    ),
                  ),
                ),
              ),
            ),
          ),
        ),
      )

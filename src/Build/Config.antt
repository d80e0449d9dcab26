-- ===== src/Build/Config.antt =====
-- build.rs: the schema of nimble-config.toml and how a table is read by it.
pub mod Entries
pub mod Laws
use esp_nimble_host.Prelude.{
  ℕ, Bool, true, false, ◌&&◌, ◌||◌, Option, none, some, List, [], ◌∷◌, Result, ok, err, ◌>>=◌,
  ok_or, if◌then◌else◌,
}
use Prim.Native.String.{String}
use text.Mathlib.Text.{◌==◌}
use esp_nimble_host.Build.Table.{Value, Table, leaf, table, empty, entry, get}

pub record RolesConfig : Type 0 where
  pub central : Bool
  pub observer : Bool
  pub peripheral : Bool
  pub broadcaster : Bool

pub record ConnectionsConfig : Type 0 where
  pub max_connections : ℕ

pub record TransportConfig : Type 0 where
  pub acl_count : ℕ
  pub acl_size : ℕ
  pub evt_count : ℕ
  pub evt_discardable_count : ℕ
  pub evt_size : ℕ

pub record MsysConfig : Type 0 where
  pub block_count : ℕ
  pub block_size : ℕ

pub record GattConfig : Type 0 where
  pub preferred_mtu : ℕ
  pub max_procs : ℕ
  pub max_prep_entries : ℕ
  pub resume_rate_ms : ℕ

pub record L2capConfig : Type 0 where
  pub max_channels : ℕ
  pub max_sig_procs : ℕ

pub record StorageConfig : Type 0 where
  pub max_bonds : ℕ
  pub max_cccds : ℕ

pub record SecurityConfig : Type 0 where
  pub legacy : Bool
  pub sc : Bool
  pub mitm : Bool
  pub bonding : Bool
  pub max_procs : ℕ

pub record NimbleConfig : Type 0 where
  pub roles : RolesConfig
  pub connections : ConnectionsConfig
  pub transport : TransportConfig
  pub msys : MsysConfig
  pub gatt : GattConfig
  pub l2cap : L2capConfig
  pub storage : StorageConfig
  pub security : SecurityConfig

-- `#[serde(deny_unknown_fields)]`
one_of : List String → String → Bool
one_of [] key = false
one_of (name ∷ names) key = name == key || one_of names key

unfoldable pub known : {Leaf : Type 0} → List String → Table Leaf → Bool
unfolding one_of
known names empty = true
known names (entry key value rest) = one_of names key && known names rest

-- The readers that serde derives from the structs, with the toml crate's reading of a single value
-- as parameters. The text of an error is only printed, and left out.
module _ {Leaf : Type 0} (as_bool : Leaf → Option Bool) (as_u16 : Leaf → Option ℕ) where
  abbrev pub Read : Type 0 → Type 0
  Read A = Result A (Unit {0})

  -- A key that is missing, or holds a table or a value of another type, is an error.
  unfoldable pub bool_field : String → Table Leaf → Read Bool
  bool_field key t = elim (get key t) [ some (leaf l) ↦ ok_or tt (as_bool l) | _ ↦ err tt ]

  unfoldable pub u16_field : String → Table Leaf → Read ℕ
  u16_field key t = elim (get key t) [ some (leaf l) ↦ ok_or tt (as_u16 l) | _ ↦ err tt ]

  unfoldable pub struct_field : {A : Type 0} → (Table Leaf → Read A) → String → Table Leaf → Read A
  struct_field read key t = elim (get key t) [ some (table section) ↦ read section | _ ↦ err tt ]

  unfoldable pub deny_unknown : {A : Type 0} → List String → Table Leaf → Read A → Read A
  deny_unknown names t fields = if known names t then fields else err tt

  unfoldable pub read_roles : Table Leaf → Read RolesConfig
  unfolding deny_unknown
  read_roles t = deny_unknown ("central" ∷ "observer" ∷ "peripheral" ∷ "broadcaster" ∷ []) t do
    central ← bool_field "central" t
    observer ← bool_field "observer" t
    peripheral ← bool_field "peripheral" t
    broadcaster ← bool_field "broadcaster" t
    ok (record {
      central = central;
      observer = observer;
      peripheral = peripheral;
      broadcaster = broadcaster;
    })

  unfoldable pub read_connections : Table Leaf → Read ConnectionsConfig
  unfolding deny_unknown
  read_connections t = deny_unknown ("max_connections" ∷ []) t do
    max_connections ← u16_field "max_connections" t
    ok (record { max_connections = max_connections })

  unfoldable pub read_transport : Table Leaf → Read TransportConfig
  unfolding deny_unknown
  read_transport t =
      deny_unknown
        ("acl_count" ∷ "acl_size" ∷ "evt_count" ∷ "evt_discardable_count" ∷ "evt_size" ∷ []) t
        do
          acl_count ← u16_field "acl_count" t
          acl_size ← u16_field "acl_size" t
          evt_count ← u16_field "evt_count" t
          evt_discardable_count ← u16_field "evt_discardable_count" t
          evt_size ← u16_field "evt_size" t
          ok (record {
            acl_count = acl_count;
            acl_size = acl_size;
            evt_count = evt_count;
            evt_discardable_count = evt_discardable_count;
            evt_size = evt_size;
          })

  unfoldable pub read_msys : Table Leaf → Read MsysConfig
  unfolding deny_unknown
  read_msys t = deny_unknown ("block_count" ∷ "block_size" ∷ []) t do
    block_count ← u16_field "block_count" t
    block_size ← u16_field "block_size" t
    ok (record { block_count = block_count; block_size = block_size })

  unfoldable pub read_gatt : Table Leaf → Read GattConfig
  unfolding deny_unknown
  read_gatt t =
      deny_unknown ("preferred_mtu" ∷ "max_procs" ∷ "max_prep_entries" ∷ "resume_rate_ms" ∷ []) t do
        preferred_mtu ← u16_field "preferred_mtu" t
        max_procs ← u16_field "max_procs" t
        max_prep_entries ← u16_field "max_prep_entries" t
        resume_rate_ms ← u16_field "resume_rate_ms" t
        ok (record {
          preferred_mtu = preferred_mtu;
          max_procs = max_procs;
          max_prep_entries = max_prep_entries;
          resume_rate_ms = resume_rate_ms;
        })

  unfoldable pub read_l2cap : Table Leaf → Read L2capConfig
  unfolding deny_unknown
  read_l2cap t = deny_unknown ("max_channels" ∷ "max_sig_procs" ∷ []) t do
    max_channels ← u16_field "max_channels" t
    max_sig_procs ← u16_field "max_sig_procs" t
    ok (record { max_channels = max_channels; max_sig_procs = max_sig_procs })

  unfoldable pub read_storage : Table Leaf → Read StorageConfig
  unfolding deny_unknown
  read_storage t = deny_unknown ("max_bonds" ∷ "max_cccds" ∷ []) t do
    max_bonds ← u16_field "max_bonds" t
    max_cccds ← u16_field "max_cccds" t
    ok (record { max_bonds = max_bonds; max_cccds = max_cccds })

  unfoldable pub read_security : Table Leaf → Read SecurityConfig
  unfolding deny_unknown
  read_security t = deny_unknown ("legacy" ∷ "sc" ∷ "mitm" ∷ "bonding" ∷ "max_procs" ∷ []) t do
    legacy ← bool_field "legacy" t
    sc ← bool_field "sc" t
    mitm ← bool_field "mitm" t
    bonding ← bool_field "bonding" t
    max_procs ← u16_field "max_procs" t
    ok (record { legacy = legacy; sc = sc; mitm = mitm; bonding = bonding; max_procs = max_procs })

  -- `try_into`
  unfoldable pub try_into : Table Leaf → Read NimbleConfig
  unfolding deny_unknown
  try_into t =
      deny_unknown
        ("roles" ∷ "connections" ∷ "transport" ∷ "msys" ∷ "gatt" ∷ "l2cap" ∷ "storage" ∷ "security"
          ∷ [])
        t
        do
          roles ← struct_field read_roles "roles" t
          connections ← struct_field read_connections "connections" t
          transport ← struct_field read_transport "transport" t
          msys ← struct_field read_msys "msys" t
          gatt ← struct_field read_gatt "gatt" t
          l2cap ← struct_field read_l2cap "l2cap" t
          storage ← struct_field read_storage "storage" t
          security ← struct_field read_security "security" t
          ok (record {
            roles = roles;
            connections = connections;
            transport = transport;
            msys = msys;
            gatt = gatt;
            l2cap = l2cap;
            storage = storage;
            security = security;
          })

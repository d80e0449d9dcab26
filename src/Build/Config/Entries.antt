-- ===== src/Build/Config/Entries.antt =====
-- The settings of a configuration of build.rs, by their paths in the file.
use esp_nimble_host.Prelude.{ℕ, ◌≡◌, Bool, Option, none, some, List, [], ◌∷◌, ◌++◌, map}
use Prim.Native.String.{String}
use esp_nimble_host.Build.Table.{Table, table}
use esp_nimble_host.Build.Table.Laws.{setting}
use esp_nimble_host.Build.Config.{
  SecurityConfig, TransportConfig, L2capConfig, MsysConfig, ConnectionsConfig, GattConfig,
  StorageConfig, RolesConfig, NimbleConfig,
}

pub data Setting : Type 0 where
  flag : Bool → Setting
  number : ℕ → Setting

abbrev pub roles_entries : RolesConfig → List (String × Setting)
roles_entries r =
    ("central", flag r.central)
    ∷ ("observer", flag r.observer)
    ∷ ("peripheral", flag r.peripheral)
    ∷ ("broadcaster", flag r.broadcaster)
    ∷ []

abbrev pub connections_entries : ConnectionsConfig → List (String × Setting)
connections_entries r = ("max_connections", number r.max_connections) ∷ []

abbrev pub transport_entries : TransportConfig → List (String × Setting)
transport_entries r =
    ("acl_count", number r.acl_count)
    ∷ ("acl_size", number r.acl_size)
    ∷ ("evt_count", number r.evt_count)
    ∷ ("evt_discardable_count", number r.evt_discardable_count)
    ∷ ("evt_size", number r.evt_size)
    ∷ []

abbrev pub msys_entries : MsysConfig → List (String × Setting)
msys_entries r = ("block_count", number r.block_count) ∷ ("block_size", number r.block_size) ∷ []

abbrev pub gatt_entries : GattConfig → List (String × Setting)
gatt_entries r =
    ("preferred_mtu", number r.preferred_mtu)
    ∷ ("max_procs", number r.max_procs)
    ∷ ("max_prep_entries", number r.max_prep_entries)
    ∷ ("resume_rate_ms", number r.resume_rate_ms)
    ∷ []

abbrev pub l2cap_entries : L2capConfig → List (String × Setting)
l2cap_entries r =
    ("max_channels", number r.max_channels) ∷ ("max_sig_procs", number r.max_sig_procs) ∷ []

abbrev pub storage_entries : StorageConfig → List (String × Setting)
storage_entries r = ("max_bonds", number r.max_bonds) ∷ ("max_cccds", number r.max_cccds) ∷ []

abbrev pub security_entries : SecurityConfig → List (String × Setting)
security_entries r =
    ("legacy", flag r.legacy)
    ∷ ("sc", flag r.sc)
    ∷ ("mitm", flag r.mitm)
    ∷ ("bonding", flag r.bonding)
    ∷ ("max_procs", number r.max_procs)
    ∷ []

abbrev pub prefixed : String → List (String × Setting) → List (List String × Setting)
prefixed s = map (λ (k, v). (s ∷ k ∷ [], v))

abbrev pub sections : NimbleConfig → List (String × List (String × Setting))
sections c =
    ("roles", roles_entries c.roles)
    ∷ ("connections", connections_entries c.connections)
    ∷ ("transport", transport_entries c.transport)
    ∷ ("msys", msys_entries c.msys)
    ∷ ("gatt", gatt_entries c.gatt)
    ∷ ("l2cap", l2cap_entries c.l2cap)
    ∷ ("storage", storage_entries c.storage)
    ∷ ("security", security_entries c.security)
    ∷ []

abbrev pub join : List (String × List (String × Setting)) → List (List String × Setting)
join [] = []
join ((s, es) ∷ rest) = prefixed s es ++ join rest

-- Every setting of a configuration, with its path in the file.
abbrev pub entries : NimbleConfig → List (List String × Setting)
entries c = join (sections c)

module _ {Leaf : Type 0} (as_bool : Leaf → Option Bool) (as_u16 : Leaf → Option ℕ) where
  unfoldable pub bind {ℓ} : {A B : Type ℓ} → (A → Option B) → Option A → Option B
  bind f none = none
  bind f (some a) = f a

  -- The value in a file is read as this setting.
  abbrev pub Reads : Setting → Option Leaf → Type 0
  Reads (flag b) o = bind as_bool o ≡ some b
  Reads (number n) o = bind as_u16 o ≡ some n

  abbrev pub InSection : Table Leaf → (String × Setting) → Type 0
  InSection u e = Reads e.1 (setting (e.0 ∷ []) (some (table u)))

  abbrev pub Holds : Table Leaf → (List String × Setting) → Type 0
  Holds t e = Reads e.1 (setting e.0 (some (table t)))

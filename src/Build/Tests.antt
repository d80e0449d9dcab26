-- ===== src/Build/Tests.antt =====
-- The configuration of build.rs with the bundled nimble-config.toml and a project's file.
use esp_nimble_host.Build.Main.{cfg_lines, include_dirs, c_files}
use esp_nimble_host.Build.Main.Laws.{elem, sm_needs, sc_needs, IsDefined, c_files-security}
use esp_nimble_host.Build.Header.{as_u8}
use esp_nimble_host.Build.Text.{codes}
use esp_nimble_host.Build.Header.Laws.{generate_syscfg_override-macros, macros}
use esp_nimble_host.Build.Header.{generate_syscfg_override}
use esp_nimble_host.Build.Header.Macros.{definitions, number_of}
use esp_nimble_host.Build.Table.Laws.{IsMap}
use esp_nimble_host.Build.Load.Laws.{
  load_config-Accepted, BuilderLaws, Accepted, load_config-max_connections,
}
use esp_nimble_host.Build.Load.{read_config_table, overlaid, Builder, load_config}
use esp_nimble_host.Prelude.{
  ◌++◌, ◌||◌, List, map, All, inr, subst, ◌∙◌, sym, inl, [], Bool-cases, ◌∷◌, ltb, ◌≤◌, ℕ, ◌≡◌,
  refl, Bool, true, false, Option, none, some, ok, if◌then◌else◌,
}
use Prim.Native.String.{String}
use mathlib.Core.Option.{some-injective}
use text.Mathlib.Text.{◌==◌}
use esp_nimble_host.Build.Table.{merge_tables, insert, get, Table, leaf, table, empty, entry}
use esp_nimble_host.Build.Config.{
  NimbleConfig, try_into, read_roles, read_connections, read_transport, read_msys, read_gatt,
  read_l2cap, read_storage, read_security, struct_field, bool_field, u16_field, known, deny_unknown,
}

data Scalar : Type 0 where
  boolean : Bool → Scalar
  integer : ℕ → Scalar

boolean_of : Scalar → Option Bool
boolean_of (boolean b) = some b
boolean_of (integer n) = none

u16_of : Scalar → Option ℕ
u16_of (boolean b) = none
u16_of (integer n) = if ltb n 65536 then some n else none

-- nimble-config.toml
abbrev default_table : Table Scalar
default_table =
    entry "roles"
      (table (
        entry "central" (leaf (boolean true)) (
          entry "observer" (leaf (boolean true)) (
            entry "peripheral" (leaf (boolean false))
              (entry "broadcaster" (leaf (boolean false)) empty)))))
      (entry "connections" (table (entry "max_connections" (leaf (integer 4)) empty)) (
        entry "transport"
          (table (
            entry "acl_count" (leaf (integer 6)) (
              entry "acl_size" (leaf (integer 251)) (
                entry "evt_count" (leaf (integer 4)) (
                  entry "evt_discardable_count" (leaf (integer 8))
                    (entry "evt_size" (leaf (integer 70)) empty))))))
          (entry "msys"
            (table (
              entry "block_count" (leaf (integer 12))
                (entry "block_size" (leaf (integer 292)) empty)))
            (entry "gatt"
              (table (
                entry "preferred_mtu" (leaf (integer 128)) (
                  entry "max_procs" (leaf (integer 4)) (
                    entry "max_prep_entries" (leaf (integer 0))
                      (entry "resume_rate_ms" (leaf (integer 1000)) empty)))))
              (entry "l2cap"
                (table (
                  entry "max_channels" (leaf (integer 0))
                    (entry "max_sig_procs" (leaf (integer 1)) empty)))
                (entry "storage"
                  (table (
                    entry "max_bonds" (leaf (integer 3))
                      (entry "max_cccds" (leaf (integer 8)) empty)))
                  (entry "security"
                    (table (
                      entry "legacy" (leaf (boolean true)) (
                        entry "sc" (leaf (boolean false)) (
                          entry "mitm" (leaf (boolean true)) (
                            entry "bonding" (leaf (boolean false))
                              (entry "max_procs" (leaf (integer 1)) empty))))))
                    empty)))))))

-- [connections] max_connections = 9
abbrev project_table : Table Scalar
project_table = entry "connections" (table (entry "max_connections" (leaf (integer 9)) empty)) empty

abbrev configured : NimbleConfig
configured = record {
  roles = record { central = true; observer = true; peripheral = false; broadcaster = false };
  connections = record { max_connections = 9 };
  transport = record {
    acl_count = 6;
    acl_size = 251;
    evt_count = 4;
    evt_discardable_count = 8;
    evt_size = 70;
  };
  msys = record { block_count = 12; block_size = 292 };
  gatt = record { preferred_mtu = 128; max_procs = 4; max_prep_entries = 0; resume_rate_ms = 1000 };
  l2cap = record { max_channels = 0; max_sig_procs = 1 };
  storage = record { max_bonds = 3; max_cccds = 8 };
  security = record { legacy = true; sc = false; mitm = true; bonding = false; max_procs = 1 };
}

parse_text : String → Option (Table Scalar)
parse_text s =
    if s == "defaults"
    then some default_table
    else if s == "project"
    then some project_table
    else none

-- A directory stands for the file in it.
abbrev machine : Builder
machine = record {
  Leaf = Scalar;
  as_bool = boolean_of;
  as_u16 = u16_of;
  from_str = parse_text;
  nimble_config_dir = some "/project";
  read_to_string = λ path.
      if path == "/crate"
      then some "defaults"
      else if path == "/project"
      then some "project"
      else none;
  join = λ dir name. dir;
  is_absolute = λ dir. true;
  is_file = λ path. true;
}

machine_loads : load_config machine "/crate" ≡ ok configured
unfolding load_config get insert merge_tables try_into read_roles read_connections read_transport
    read_msys read_gatt read_l2cap read_storage read_security struct_field bool_field u16_field
    known deny_unknown overlaid read_config_table parse_text boolean_of u16_of
machine_loads = refl

load_config-max_connections_example : (1 ≤ 9) × (9 ≤ 70)
load_config-max_connections_example =
    load_config-max_connections machine "/crate" configured machine_loads

default_table-IsMap : IsMap default_table
unfolding get
default_table-IsMap = (
  refl,
  (refl, tt, (refl, tt, (refl, tt, (refl, tt, tt)))),
  (
    refl,
    (refl, tt, tt),
    (
      refl,
      (refl, tt, (refl, tt, (refl, tt, (refl, tt, (refl, tt, tt))))),
      (
        refl,
        (refl, tt, (refl, tt, tt)),
        (
          refl,
          (refl, tt, (refl, tt, (refl, tt, (refl, tt, tt)))),
          (
            refl,
            (refl, tt, (refl, tt, tt)),
            (
              refl,
              (refl, tt, (refl, tt, tt)),
              (refl, (refl, tt, (refl, tt, (refl, tt, (refl, tt, (refl, tt, tt))))), tt),
            ),
          ),
        ),
      ),
    ),
  ),
)

project_table-IsMap : IsMap project_table
unfolding get
project_table-IsMap = (refl, (refl, tt, tt), tt)

parse_text-IsMap : (s : String) (t : Table Scalar) → parse_text s ≡ some t → IsMap t
unfolding parse_text
parse_text-IsMap s t h = elim (Bool-cases (s == "defaults")) [
  | inl d ↦
      let e : default_table ≡ t = some-injective _ _ (sym (rw d refl) ∙ h) in
      subst IsMap e default_table-IsMap
  | inr d ↦ elim (Bool-cases (s == "project")) [
    | inl p ↦
        let e : project_table ≡ t = some-injective _ _ (sym (rw (d, p) refl) ∙ h) in
        subst IsMap e project_table-IsMap
    | inr p ↦ let e : none ≡ some t = sym (rw (d, p) refl) ∙ h in cc
  ]
]

machine-BuilderLaws : BuilderLaws machine "/crate"
machine-BuilderLaws = record { parsed-IsMap = parse_text-IsMap }

load_config-Accepted_example : Accepted machine "/crate" configured (some "/project")
load_config-Accepted_example =
    load_config-Accepted machine "/crate" machine-BuilderLaws configured machine_loads

generate_syscfg_override-macros_example :
    All
      (λ m. map number_of (definitions m.0 (generate_syscfg_override configured)) ≡ some m.1 ∷ [])
      (macros configured)
    × (definitions "MYNEWT_VAL_BLE_L2CAP_MAX_CHANS" (generate_syscfg_override configured)
        ≡ codes "(3*MYNEWT_VAL_BLE_MAX_CONNECTIONS)" ∷ [])
generate_syscfg_override-macros_example = generate_syscfg_override-macros configured

-- Two of the files of nimble/host/src.
abbrev host_files : List String
host_files = "nimble/host/src/ble_gap.c" ∷ "nimble/host/src/ble_sm.c" ∷ []

crypto-host_files : All (λ f. elem f host_files ≡ false) (sm_needs ++ sc_needs)
unfolding elem
crypto-host_files = (refl, (refl, (refl, (refl, (refl, tt)))))

c_files-security_example :
    All (λ f. elem f (c_files host_files configured.security) ≡ configured.security.sc) sc_needs
    × All
        (λ f.
          elem f (c_files host_files configured.security)
          ≡ configured.security.legacy || configured.security.sc)
        sm_needs
    × (elem "ext/tinycrypt/include" (include_dirs "nimble" configured.security)
        ≡ configured.security.legacy || configured.security.sc)
    × (elem "cargo::rustc-cfg=nimble_sm" (cfg_lines configured.security)
        ≡ configured.security.legacy || configured.security.sc)
    × IsDefined configured ("MYNEWT_VAL_BLE_SM_LEGACY", as_u8 configured.security.legacy)
    × IsDefined configured ("MYNEWT_VAL_BLE_SM_SC", as_u8 configured.security.sc)
c_files-security_example = c_files-security configured "nimble" host_files crypto-host_files refl

-- ===== src/Build/Header.antt =====
-- build.rs: the C header that overrides the defaults of NimBLE's syscfg.h.
pub mod Macros
pub mod Laws
use Prim.Native.String.{String}
use esp_nimble_host.Build.Text.{codes}
use esp_nimble_host.Prelude.{
  ℕ, zero, suc, ◌+◌, ◌/◌, ◌%◌, Bool, true, false, List, [], ◌∷◌, ◌++◌, ltb, if◌then◌else◌,
}
use esp_nimble_host.Build.Config.{
  RolesConfig, ConnectionsConfig, TransportConfig, MsysConfig, GattConfig, L2capConfig,
  StorageConfig, SecurityConfig, NimbleConfig,
}

abbrev pub as_u8 : Bool → ℕ
as_u8 true = 1
as_u8 false = 0

-- `{}` of a number: the digits, with the number itself as fuel.
digits : ℕ → ℕ → List ℕ
digits zero n = (48 + n) ∷ []
digits (suc fuel) n =
    let more = digits fuel (n / 10) ++ (48 + n % 10) ∷ [] in
    if ltb n 10 then (48 + n) ∷ [] else more

pub decimal : ℕ → List ℕ
unfolding digits
decimal n = digits n n

-- `#define NAME ({})`
abbrev define : String → ℕ → List ℕ
define name n = codes "#define " ++ (codes name ++ (codes " (" ++ (decimal n ++ codes ")")))

-- Each section of the header as its lines; every `writeln!` ends one.
abbrev pub Lines : Type 0
Lines = List (List ℕ)

pub roles_lines : RolesConfig → Lines
roles_lines r =
    (codes "/* Roles */")
    ∷ (define "MYNEWT_VAL_BLE_ROLE_CENTRAL" (as_u8 r.central))
    ∷ (define "MYNEWT_VAL_BLE_ROLE_OBSERVER" (as_u8 r.observer))
    ∷ (define "MYNEWT_VAL_BLE_ROLE_PERIPHERAL" (as_u8 r.peripheral))
    ∷ (define "MYNEWT_VAL_BLE_ROLE_BROADCASTER" (as_u8 r.broadcaster))
    ∷ []
    ∷ []

pub connections_lines : ConnectionsConfig → Lines
connections_lines r =
    (codes "/* Connections */")
    ∷ (define "MYNEWT_VAL_BLE_MAX_CONNECTIONS" r.max_connections)
    ∷ []
    ∷ []

pub transport_lines : TransportConfig → Lines
transport_lines r =
    (codes "/* Transport buffers */")
    ∷ (define "MYNEWT_VAL_BLE_TRANSPORT_ACL_COUNT" r.acl_count)
    ∷ (define "MYNEWT_VAL_BLE_TRANSPORT_ACL_FROM_HS_COUNT" r.acl_count)
    ∷ (define "MYNEWT_VAL_BLE_TRANSPORT_ACL_FROM_LL_COUNT" r.acl_count)
    ∷ (define "MYNEWT_VAL_BLE_TRANSPORT_ACL_SIZE" r.acl_size)
    ∷ (define "MYNEWT_VAL_BLE_TRANSPORT_EVT_COUNT" r.evt_count)
    ∷ (define "MYNEWT_VAL_BLE_TRANSPORT_EVT_DISCARDABLE_COUNT" r.evt_discardable_count)
    ∷ (define "MYNEWT_VAL_BLE_TRANSPORT_EVT_SIZE" r.evt_size)
    ∷ []
    ∷ []

pub msys_lines : MsysConfig → Lines
msys_lines r =
    (codes "/* System mbuf pool */")
    ∷ (define "MYNEWT_VAL_MSYS_1_BLOCK_COUNT" r.block_count)
    ∷ (define "MYNEWT_VAL_MSYS_1_BLOCK_SIZE" r.block_size)
    ∷ []
    ∷ []

pub gatt_lines : GattConfig → Lines
gatt_lines r =
    (codes "/* ATT / GATT */")
    ∷ (define "MYNEWT_VAL_BLE_ATT_PREFERRED_MTU" r.preferred_mtu)
    ∷ (define "MYNEWT_VAL_BLE_GATT_MAX_PROCS" r.max_procs)
    ∷ (define "MYNEWT_VAL_BLE_ATT_SVR_MAX_PREP_ENTRIES" r.max_prep_entries)
    ∷ (define "MYNEWT_VAL_BLE_GATT_RESUME_RATE" r.resume_rate_ms)
    ∷ []
    ∷ []

pub l2cap_lines : L2capConfig → Lines
l2cap_lines r =
    codes "/* L2CAP */"
    ∷ (if ltb 0 r.max_channels
        then define "MYNEWT_VAL_BLE_L2CAP_MAX_CHANS" r.max_channels
        else codes "#define MYNEWT_VAL_BLE_L2CAP_MAX_CHANS (3*MYNEWT_VAL_BLE_MAX_CONNECTIONS)")
    ∷ define "MYNEWT_VAL_BLE_L2CAP_SIG_MAX_PROCS" r.max_sig_procs
    ∷ []
    ∷ []

pub storage_lines : StorageConfig → Lines
storage_lines r =
    (codes "/* Bonding / Storage */")
    ∷ (define "MYNEWT_VAL_BLE_STORE_MAX_BONDS" r.max_bonds)
    ∷ (define "MYNEWT_VAL_BLE_STORE_MAX_CCCDS" r.max_cccds)
    ∷ []
    ∷ []

pub security_lines : SecurityConfig → Lines
security_lines r =
    (codes "/* Security Manager */")
    ∷ (define "MYNEWT_VAL_BLE_SM_LEGACY" (as_u8 r.legacy))
    ∷ (define "MYNEWT_VAL_BLE_SM_SC" (as_u8 r.sc))
    ∷ (define "MYNEWT_VAL_BLE_SM_MITM" (as_u8 r.mitm))
    ∷ (define "MYNEWT_VAL_BLE_SM_BONDING" (as_u8 r.bonding))
    ∷ (define "MYNEWT_VAL_BLE_SM_MAX_PROCS" r.max_procs)
    ∷ (codes "#define MYNEWT_VAL_BLE_SM_OUR_KEY_DIST (0)")
    ∷ (codes "#define MYNEWT_VAL_BLE_SM_THEIR_KEY_DIST (0)")
    ∷ []
    ∷ []

pub generate_syscfg_override : NimbleConfig → Lines
unfolding roles_lines connections_lines transport_lines msys_lines gatt_lines l2cap_lines
    storage_lines security_lines
generate_syscfg_override config =
    ((codes "/* Generated by esp-nimble-host build.rs from nimble-config.toml */")
      ∷ (codes "#ifndef NIMBLE_CONFIG_OVERRIDE_H")
      ∷ (codes "#define NIMBLE_CONFIG_OVERRIDE_H")
      ∷ []
      ∷ [])
    ++ (roles_lines config.roles
        ++ (connections_lines config.connections
            ++ (transport_lines config.transport
                ++ (msys_lines config.msys
                    ++ (gatt_lines config.gatt
                        ++ (l2cap_lines config.l2cap
                            ++ (storage_lines config.storage
                                ++ (security_lines config.security
                                    ++ (codes "#endif /* NIMBLE_CONFIG_OVERRIDE_H */" ∷ [])))))))))

-- ===== src/Sync/Start.antt =====
-- `HostTransport::init` of src/lib.rs, which registers the callbacks, and these as NimBLE calls them.
use esp_nimble_host.Prelude.{ℕ, ◌%◌, ◌≡◌, refl, inl, Bool, true, false, Option, none, some, ok, err}
use esp_nimble_host.Bindings.{Bindings}
use esp_nimble_host.Error.{NimbleResult}
use esp_nimble_host.ReturnCode.{return_code_to_result}
use esp_nimble_host.ReturnCode.Laws.{return_code_to_result_done}
use esp_nimble_host.Sync.{AtomicWaker, State, resting, on_sync_store, on_sync_wake, on_reset}

-- The two functions that are registered.
pub data Callback : Type 0 where
  sync reset : Callback

-- The fields of NimBLE's `ble_hs_cfg` that are set.
pub record BleHsCfg : Type 0 where
  pub sync_cb : Option Callback
  pub reset_cb : Option Callback
  pub sm_io_cap : ℕ

-- `io_cap` is `BLE_HS_IO_KEYBOARD_ONLY`; `nimble_port_init` is NimBLE's.
init : (io_cap : ℕ) → BleHsCfg → BleHsCfg
init io_cap cfg = record cfg {
  sync_cb = some sync;
  reset_cb = some reset;
  sm_io_cap = io_cap % 256;
}

module _ (A : AtomicWaker) (b : Bindings) (infer_auto : Bool → ℕ × ℕ) where
  -- `infer_auto` is the C function: its return code and the address type that it wrote.
  ble_hs_id_infer_auto : Bool → NimbleResult ℕ
  ble_hs_id_infer_auto privacy =
      let (ret, addr_type) = infer_auto privacy in return_code_to_result b ret addr_type

  on_sync_inferred : NimbleResult ℕ → State A → State A
  on_sync_inferred (err e) s = s
  on_sync_inferred (ok addr_type) s = on_sync_wake A (on_sync_store A (ok addr_type) s)

  -- `on_sync` without another task in between.
  on_sync : State A → State A
  unfolding on_sync_inferred ble_hs_id_infer_auto
  on_sync s = on_sync_inferred (ble_hs_id_infer_auto false) s

  -- NimBLE's call of a callback that may be registered.
  call : Option Callback → State A → State A
  unfolding on_sync
  call none s = s
  call (some sync) s = on_sync s
  call (some reset) s = on_reset A s

  -- After `init` a sync of the controller sets the flag and the address type that NimBLE infers,
  -- and a reset clears the flag.
  init-call :
      (io_cap addr_type : ℕ) (cfg : BleHsCfg) (s : State A)
      → infer_auto false ≡ (0, addr_type)
      → let synced = call (init io_cap cfg).sync_cb s in
        (synced.host_controller_synced ≡ true)
        × (synced.own_addr_type ≡ addr_type)
        × (synced.host ≡ resting)
        × ((call (init io_cap cfg).reset_cb synced).host_controller_synced ≡ false)
  unfolding init call on_sync on_sync_inferred ble_hs_id_infer_auto on_sync_store on_sync_wake
      on_reset
  init-call io_cap addr_type cfg s e =
      rw (e, return_code_to_result_done b 0 addr_type (inl refl)) (refl, refl, refl, refl)

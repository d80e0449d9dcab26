-- ===== src/Peripheral.antt =====
-- src/peripheral.rs: the shared state of a peripheral, and the handles to it.
pub mod Events
pub mod Connect
pub mod Gatt
pub mod Subscriber
mod Tests
use esp_nimble_host.Prelude.{
  ℕ, ◌+◌, ◌-◌, Bool, not, Option, none, some, List, [], ◌==◌, if◌then◌else◌,
}
use esp_nimble_host.Error.{ConnectResult, PairResult}
use esp_nimble_host.Platform.{Platform}
use esp_nimble_host.Data.Address.{BleAddr}
use esp_nimble_host.Service.{Service}

pub data PeripheralEvent : Type 0 where
  mtu_changed conn_params_updated disconnected : ℕ → PeripheralEvent

-- `CONN_HANDLE_NONE`.
abbrev pub conn_handle_none : ℕ
conn_handle_none = 65535

module _ (P : Platform) where
  open P use {Signal, Channel, new_signal, new_channel}

  -- `PeripheralInner`, with the strong count of its `Arc`. The allocation is freed when that is 0.
  pub record PeripheralInner : Type 0 where
    pub addr : BleAddr
    pub conn_handle : ℕ
    pub connect_result : Signal (ConnectResult (Unit {0}))
    pub disconnect_pub : Channel (Unit {0})
    pub services : List (Service P)
    pub subscription_pub : Channel (ℕ × List ℕ)
    pub event_pub : Channel PeripheralEvent
    pub static_passkey : ℕ
    pub pair_result : Signal (PairResult (Unit {0}))
    pub strong : ℕ

  -- `Peripheral::new`: the result is the only handle.
  pub new_peripheral : BleAddr → PeripheralInner
  new_peripheral addr = record {
    addr = addr;
    conn_handle = conn_handle_none;
    connect_result = new_signal (ConnectResult (Unit {0}));
    disconnect_pub = new_channel (Unit {0});
    services = [];
    subscription_pub = new_channel (ℕ × List ℕ);
    event_pub = new_channel PeripheralEvent;
    static_passkey = 0;
    pair_result = new_signal (PairResult (Unit {0}));
    strong = 1;
  }

  -- `PeripheralInner::conn_handle`.
  pub current_handle : PeripheralInner → Option ℕ
  current_handle inner =
      if inner.conn_handle == conn_handle_none then none else some inner.conn_handle

  pub is_connected : PeripheralInner → Bool
  is_connected inner = not (inner.conn_handle == conn_handle_none)

  -- `Arc::clone` and the drop of one strong reference.
  pub clone_arc : PeripheralInner → PeripheralInner
  clone_arc inner = record inner { strong = inner.strong + 1 }

  pub drop_arc : PeripheralInner → PeripheralInner
  drop_arc inner = record inner { strong = inner.strong - 1 }

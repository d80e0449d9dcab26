-- ===== src/Peripheral/Tests.antt =====
-- The theorems on src/peripheral.rs at concrete inputs.
use esp_nimble_host.Peripheral.Connect.Result.{FollowsStatus}
use esp_nimble_host.Prelude.{
  pending, ◌+◌, ◌≡◌, refl, none, some, List, [], ◌∷◌, ◌++◌, arith, ok, err, ready, All,
}
use esp_nimble_host.Error.{ConnectResult, ConnectError, PairError}
use esp_nimble_host.Platform.Concrete.{
  platform, platform-SignalLaws, platform-ChannelLaws, platform-SelectLaws,
}
use esp_nimble_host.Operation.{returned}
use esp_nimble_host.Service.{Service}
use esp_nimble_host.Data.Address.{BleAddr}
use esp_nimble_host.Peripheral.{PeripheralInner, new_peripheral, conn_handle_none}
use esp_nimble_host.Peripheral.Events.{
  deliver_events, GapEvent, connect_event, disconnect_event, enc_change, mtu_event, passkey_action,
  dispatch, gap_event_handler,
}
use esp_nimble_host.Peripheral.Events.Link.{
  dispatch-connect_event, link_of, next_link, established, success, dispatch-next_link, HasOwnCache,
  IsValidEvent,
}
use esp_nimble_host.Peripheral.Connect.{
  begun_inner, connect_begin, connect_poll, disconnect_begin, disconnect_poll, pair_begin,
  pair_poll, run_begun,
}
use esp_nimble_host.Peripheral.Connect.Frame.{IsQuiet}
use esp_nimble_host.Peripheral.Connect.Laws.{connect_result_reported}
use esp_nimble_host.Peripheral.Connect.Ending.{disconnect_completes}
use esp_nimble_host.Peripheral.Connect.Passkey.{injected, pair_with_passkey_injected}
use esp_nimble_host.Peripheral.Connect.Pairing.{
  pair_with_passkey_reported, pair_with_passkey_disconnected,
}
use esp_nimble_host.Peripheral.Connect.References.{
  World, Reachable, created, and_then, connect_accepted, gap_event_handler_alive,
}
use esp_nimble_host.Peripheral.Gatt.{MtuCall, discover_all_services_poll, exchange_mtu}
use esp_nimble_host.Peripheral.Gatt.Laws.{mtu_result, exchange_mtu-result}
use esp_nimble_host.Peripheral.Gatt.Cache.{IsTimely, Life, polled_all, on_event, Life-HasOwnCache}

abbrev device_addr : BleAddr
device_addr = record { type_ = 0; addr = 6 ∷ 5 ∷ 4 ∷ 3 ∷ 2 ∷ 1 ∷ [] }

abbrev heart_rate : Service platform
heart_rate = record {
  uuid = platform.from_u128 6157;
  start_handle = 1;
  end_handle = 9;
  characteristics = [];
}

-- A peripheral without a connection, and one on connection 7 with a cached service.
abbrev idle : PeripheralInner platform
idle = record {
  addr = device_addr;
  conn_handle = 65535;
  connect_result = none;
  disconnect_pub = [];
  services = [];
  subscription_pub = [];
  event_pub = [];
  static_passkey = 0;
  pair_result = none;
  strong = 1;
}

abbrev connected : PeripheralInner platform
connected = record idle { conn_handle = 7; services = heart_rate ∷ []; strong = 2 }

-- A peripheral that was created and for which `connect` was called.
abbrev at_start : World platform
at_start = record { inner = new_peripheral platform device_addr; handles = 1; callbacks = 0 }

abbrev connecting : World platform
connecting = record {
  inner = begun_inner platform (connect_begin platform 0 (new_peripheral platform device_addr));
  handles = 1;
  callbacks = 1;
}

connecting-Reachable : Reachable platform device_addr connecting
connecting-Reachable =
    and_then at_start connecting created (connect_accepted at_start (omega arith))

gap_event_handler_alive_example :
    (gap_event_handler platform (some (connect_event 13 0)) (some connecting.inner)
      ≡ returned
          (dispatch platform (connect_event 13 0) connecting.inner).0
          (dispatch platform (connect_event 13 0) connecting.inner).1)
    × (connecting.inner.strong ≡ 1 + 1)
gap_event_handler_alive_example =
    gap_event_handler_alive platform connecting (connect_event 13 0) connecting-Reachable
      (omega arith)

dispatch-next_link_example :
    link_of platform ((dispatch platform (connect_event 0 7) idle).1).0
    ≡ next_link platform (connect_event 0 7) (link_of platform idle)
unfolding IsValidEvent
dispatch-next_link_example = dispatch-next_link platform (connect_event 0 7) idle (omega arith)

-- A life: a connection, a discovery that finds a service, and the end of the connection.
abbrev linked : PeripheralInner platform
linked = ((dispatch platform (connect_event 0 7) (new_peripheral platform device_addr)).1).0

abbrev discovered : PeripheralInner platform
discovered = (discover_all_services_poll platform (ready (ok (heart_rate ∷ []))) tt linked).1

linked-IsTimely :
    IsTimely platform {A = List (Service platform)} (ready (ok (heart_rate ∷ []))) linked
unfolding IsTimely new_peripheral
linked-IsTimely e =
    omega (arith, e, dispatch-connect_event platform 7 (new_peripheral platform device_addr) refl)

discovered-Life : Life platform discovered
discovered-Life =
    polled_all (ready (ok (heart_rate ∷ []))) tt linked linked-IsTimely (
      on_event (connect_event 0 7) (new_peripheral platform device_addr) (Life.created device_addr))

Life-HasOwnCache_example :
    HasOwnCache platform ((dispatch platform (disconnect_event 7 19) discovered).1).0
Life-HasOwnCache_example =
    Life-HasOwnCache platform platform-SelectLaws
      ((dispatch platform (disconnect_event 7 19) discovered).1).0
      (on_event (disconnect_event 7 19) discovered discovered-Life)

-- An MTU change before the event that the call waits for.
abbrev noise : List (GapEvent platform)
noise = mtu_event 247 ∷ passkey_action 7 2 ∷ []

noise-IsQuiet : All (IsQuiet platform) noise
unfolding IsQuiet
noise-IsQuiet = (tt, (tt, tt))

-- What a call that failed left in its signal.
abbrev stale : PeripheralInner platform
stale = record idle { connect_result = some (err ConnectError.timeout) }

connect_result_reported_example :
    ((inner' : PeripheralInner platform) × (run_begun platform
          (connect_poll platform)
          noise
          (connect_begin platform 0 stale)
        ≡ some (pending, inner')))
    × ((r : ConnectResult (Unit {0})) × (inner' : PeripheralInner platform) × (run_begun platform
            (connect_poll platform)
            (noise ++ connect_event 0 7 ∷ [])
            (connect_begin platform 0 stale)
          ≡ some (ready r, inner'))
        × FollowsStatus platform 0 r
        × (link_of platform inner'
            ≡ established platform (link_of platform stale) 7 (success platform 0)))
connect_result_reported_example =
    connect_result_reported platform platform-SignalLaws platform-ChannelLaws platform-SelectLaws 0
      7 noise stale tt [] refl noise-IsQuiet (omega arith)

disconnect_completes_example :
    (inner' : PeripheralInner platform) × (run_begun platform
        (disconnect_poll platform)
        (noise ++ disconnect_event 7 22 ∷ [])
        (disconnect_begin platform 0 connected)
      ≡ some (ready (ok tt), inner'))
    × (inner'.conn_handle ≡ conn_handle_none)
    × (inner'.services ≡ [])
disconnect_completes_example =
    disconnect_completes platform platform-SignalLaws platform-ChannelLaws platform-SelectLaws 22
      noise connected tt [] (omega arith) (omega arith) refl (λ e. ground arith) noise-IsQuiet

-- What a pairing that failed left in its signal.
abbrev stale_pairing : PeripheralInner platform
stale_pairing = record connected { pair_result = some (err (PairError.pairing_failed 13)) }

pair_with_passkey_reported_example :
    ((inner' : PeripheralInner platform) × (run_begun platform
          (pair_poll platform)
          noise
          (pair_begin platform 123456 0 stale_pairing)
        ≡ some (pending, inner')))
    × ((inner' : PeripheralInner platform) × (run_begun platform
            (pair_poll platform)
            (noise ++ enc_change 0 ∷ [])
            (pair_begin platform 123456 0 stale_pairing)
          ≡ some (ready (ok tt), inner'))
        × (inner'.static_passkey ≡ 123456))
pair_with_passkey_reported_example =
    pair_with_passkey_reported platform platform-SignalLaws platform-ChannelLaws platform-SelectLaws
      123456 0 noise stale_pairing tt [] (omega arith) (omega arith) refl noise-IsQuiet

pair_with_passkey_injected_example :
    (inner' : PeripheralInner platform) × (deliver_events platform noise
        (begun_inner platform (pair_begin platform 123456 0 connected))
      ≡ some inner')
    × (((dispatch platform (passkey_action 7 2) inner').1).1 ≡ injected platform 123456 7 2)
pair_with_passkey_injected_example =
    pair_with_passkey_injected platform platform-SignalLaws platform-ChannelLaws platform-SelectLaws
      123456 7 2 noise connected tt [] (omega arith) (omega arith) refl noise-IsQuiet

pair_with_passkey_disconnected_example :
    (inner' : PeripheralInner platform) × (run_begun platform
        (pair_poll platform)
        (noise ++ disconnect_event 7 8 ∷ [])
        (pair_begin platform 123456 0 connected)
      ≡ some (ready (err PairError.disconnected_while_operation), inner'))
    × (inner'.conn_handle ≡ conn_handle_none)
pair_with_passkey_disconnected_example =
    pair_with_passkey_disconnected platform platform-SignalLaws platform-ChannelLaws
      platform-SelectLaws 123456 8 noise connected tt [] (omega arith) (omega arith) refl
      (λ e. ground arith) noise-IsQuiet

abbrev foreign_call : MtuCall platform
foreign_call = record { conn_handle = 9; error = some 0; mtu = 23 }

abbrev own_call : MtuCall platform
own_call = record { conn_handle = 7; error = some 0; mtu = 247 }

exchange_mtu-result_example :
    exchange_mtu platform connected 0 (foreign_call ∷ own_call ∷ [])
    ≡ some (ready (mtu_result platform 0 247))
exchange_mtu-result_example =
    exchange_mtu-result platform platform-SignalLaws connected 0 247 (foreign_call ∷ [])
      (omega arith) (((λ e. ground arith), omega arith), tt)

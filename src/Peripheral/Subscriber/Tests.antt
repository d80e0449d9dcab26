-- ===== src/Peripheral/Subscriber/Tests.antt =====
-- A subscriber of src/peripheral.rs that outlives the peripheral's other handles.
use esp_nimble_host.Prelude.{◌+◌, ◌-◌, ◌≡◌, some, Poll, [], ◌∷◌, arith}
use esp_nimble_host.Platform.{WaitResult}
use esp_nimble_host.Platform.Concrete.{platform}
use esp_nimble_host.Data.Address.{BleAddr}
use esp_nimble_host.Peripheral.{PeripheralInner, new_peripheral, clone_arc, drop_arc}
use esp_nimble_host.Peripheral.Connect.References.{
  World, Reachable, created, and_then, clone_handle, drop_handle,
}
use esp_nimble_host.Peripheral.Subscriber.{Item, notifications, next_message, drop_owned}
use esp_nimble_host.Peripheral.Subscriber.Laws.{drop_owned_alive}

abbrev keep_slot : (T : Type 0) → platform.Subscriber → platform.Channel T → platform.Channel T
keep_slot T sub c = c

abbrev device_addr : BleAddr
device_addr = record { type_ = 0; addr = 6 ∷ 5 ∷ 4 ∷ 3 ∷ 2 ∷ 1 ∷ [] }

abbrev at_start : World platform
at_start = record { inner = new_peripheral platform device_addr; handles = 1; callbacks = 0 }

abbrev subscribed : World platform
subscribed = record at_start { inner = clone_arc platform at_start.inner; handles = 2 }

-- The subscriber is the only handle that is left.
abbrev alone : World platform
alone = record at_start { inner = drop_arc platform subscribed.inner }

alone-Reachable : Reachable platform device_addr alone
alone-Reachable =
    and_then subscribed alone
      (and_then at_start subscribed created (clone_handle at_start (omega arith)))
      (drop_handle subscribed (omega arith))

drop_owned_alive_example :
    ((r : Poll (WaitResult (Item notifications)) × PeripheralInner platform) × (next_message
          platform keep_slot notifications tt alone.inner
        ≡ some r))
    × (inner' : PeripheralInner platform) × (drop_owned platform keep_slot notifications tt
          alone.inner
        ≡ some inner')
    × (inner'.strong ≡ (alone.handles - 1) + alone.callbacks)
drop_owned_alive_example =
    drop_owned_alive platform keep_slot alone notifications tt alone-Reachable (omega arith)

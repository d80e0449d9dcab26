-- ===== src/Peripheral/Subscriber.antt =====
-- `OwnedSubscriber` of src/peripheral.rs: a subscriber whose borrow of the channel is kept valid by
-- a strong reference of its own.
pub mod Laws
mod Tests
use esp_nimble_host.Prelude.{ℕ, Option, none, some, List, Poll, ◌==◌, if◌then◌else◌}
use esp_nimble_host.Platform.{Platform, WaitResult}
use esp_nimble_host.Peripheral.{PeripheralInner, PeripheralEvent, drop_arc}

-- `NotificationSubscriber` and `EventSubscriber`, and the messages of their channels.
pub data Stream : Type 0 where
  notifications connection_events : Stream

unfoldable pub Item : Stream → Type 0
Item notifications = ℕ × List ℕ
Item connection_events = PeripheralEvent

-- `drop_subscriber` is the drop of embassy-sync's `Subscriber`, which gives its slot back to the
-- channel.
module _ (P : Platform)
    (drop_subscriber : (T : Type 0) → P.Subscriber → P.Channel T → P.Channel T) where
  open P use {Channel, Subscriber, poll_message}

  pub channel : (k : Stream) → PeripheralInner P → Channel (Item k)
  unfolding Item
  channel notifications inner = inner.subscription_pub
  channel connection_events inner = inner.event_pub

  pub with_channel : (k : Stream) → Channel (Item k) → PeripheralInner P → PeripheralInner P
  unfolding Item
  with_channel notifications c inner = record inner { subscription_pub = c }
  with_channel connection_events c inner = record inner { event_pub = c }

  -- A use of the channel, which is none when the allocation was freed.
  pub live : {A : Type 0} → PeripheralInner P → A → Option A
  live inner a = if inner.strong == 0 then none else some a

  -- One poll of `next_message`.
  pub next_message :
      (k : Stream)
      → Subscriber
      → PeripheralInner P
      → Option (Poll (WaitResult (Item k)) × PeripheralInner P)
  unfolding live
  next_message k sub inner =
      let (result, c) = poll_message (Item k) sub (channel k inner) in
      live inner (result, with_channel k c inner)

  -- `ManuallyDrop::drop(&mut self.sub)`.
  drop_sub : (k : Stream) → Subscriber → PeripheralInner P → Option (PeripheralInner P)
  unfolding live
  drop_sub k sub inner =
      live inner (with_channel k (drop_subscriber (Item k) sub (channel k inner)) inner)

  drop_inner : Option (PeripheralInner P) → Option (PeripheralInner P)
  unfolding live
  drop_inner none = none
  drop_inner (some inner) = live inner (drop_arc P inner)

  -- The drop of an `OwnedSubscriber`: `sub`, and after it the field `_inner`.
  pub drop_owned : (k : Stream) → Subscriber → PeripheralInner P → Option (PeripheralInner P)
  unfolding drop_sub drop_inner
  drop_owned k sub inner = drop_inner (drop_sub k sub inner)

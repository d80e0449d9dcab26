-- ===== src/Peripheral/Subscriber/Laws.antt =====
-- An `OwnedSubscriber` of src/peripheral.rs never uses memory that was freed.
use esp_nimble_host.Prelude.{◌+◌, ◌-◌, ◌≡◌, refl, ap, ◌∙◌, ◌≢◌, some, Poll, ne→==, arith}
use esp_nimble_host.Platform.{Platform, WaitResult}
use esp_nimble_host.Data.Address.{BleAddr}
use esp_nimble_host.Peripheral.{PeripheralInner, drop_arc}
use esp_nimble_host.Peripheral.Connect.References.{World, Reachable, Reachable-strong}
use esp_nimble_host.Peripheral.Subscriber.{
  Stream, notifications, connection_events, Item, channel, with_channel, live, next_message,
  drop_sub, drop_inner, drop_owned,
}

module _ (P : Platform)
    (drop_subscriber : (T : Type 0) → P.Subscriber → P.Channel T → P.Channel T) where
  open P use {Channel, Subscriber}

  abbrev D : (T : Type 0) → Subscriber → Channel T → Channel T
  D = drop_subscriber

  with_channel_strong :
      (k : Stream) (c : Channel (Item k)) (inner : PeripheralInner P)
      → (with_channel P D k c inner).strong ≡ inner.strong
  unfolding with_channel Item
  with_channel_strong notifications c inner = refl
  with_channel_strong connection_events c inner = refl

  live-alive :
      {A : Type 0} (inner : PeripheralInner P) (a : A)
      → inner.strong ≢ 0
      → live P D inner a ≡ some a
  unfolding live
  live-alive inner a h = rw (ne→== inner.strong 0 h) refl

  -- Whatever happened since the peripheral was created, a subscriber that is still held can be
  -- polled and dropped without a use of freed memory, also when it is the last handle, and its
  -- drop gives back exactly its own reference.
  pub drop_owned_alive :
      {addr : BleAddr} (w : World P) (k : Stream) (sub : Subscriber)
      → Reachable P addr w
      → w.handles ≢ 0
      → ((r : Poll (WaitResult (Item k)) × PeripheralInner P) × (next_message P D k sub w.inner
            ≡ some r))
        × (inner' : PeripheralInner P) × (drop_owned P D k sub w.inner ≡ some inner')
        × (inner'.strong ≡ (w.handles - 1) + w.callbacks)
  unfolding next_message drop_owned drop_sub drop_inner drop_arc
  drop_owned_alive w k sub r h =
      let b = Reachable-strong P w r in
      let alive : w.inner.strong ≢ 0 = (λ e. omega (arith, b, e, h)) in
      let inner1 = with_channel P D k (D (Item k) sub (channel P D k w.inner)) w.inner in
      let s : inner1.strong ≡ w.inner.strong = with_channel_strong k _ w.inner in
      (
        (_, live-alive w.inner _ alive),
        drop_arc P inner1,
        ap (drop_inner P D) (live-alive w.inner inner1 alive)
            ∙ live-alive inner1 _ (λ e. omega (arith, b, e, h, s)),
        omega (arith, b, s, h),
      )

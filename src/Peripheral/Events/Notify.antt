-- ===== src/Peripheral/Events/Notify.antt =====
-- The notifications of src/peripheral.rs: what `handle_notify_rx` hands to the subscribers.
use esp_nimble_host.Host.{ble_hs_mbuf_to_flat}
use esp_nimble_host.Prelude.{
  ℕ, ◌≡◌, refl, sym, ◌∙◌, ◌≢◌, inl, inr, none, some, List, [], ok, ready, pos, Option-cases,
}
use esp_nimble_host.Platform.{Platform, ChannelLaws, MbufLaws, WaitResult}
use esp_nimble_host.ReturnCode.Laws.{return_code_to_result_done}
use esp_nimble_host.Peripheral.{PeripheralInner}
use esp_nimble_host.Peripheral.Events.{notify_rx, notify_flat, handle_notify_rx, dispatch, publish}

module _ (P : Platform) where
  open P use {
    bindings, Channel, Subscriber, Mbuf, publisher, publish_immediate, drop_publisher, poll_message,
  }

  mbuf_to_flat-contents :
      (laws : MbufLaws P) (om : Mbuf) → ble_hs_mbuf_to_flat P (some om) ≡ ok (laws.contents om)
  unfolding ble_hs_mbuf_to_flat
  mbuf_to_flat-contents laws om =
      rw (laws.len-contents om, laws.to_flat-contents om)
        (return_code_to_result_done bindings 0 (laws.contents om) (inl refl))

  publish-ready :
      {T : Type 0} (laws : ChannelLaws P) (v : T) (c : Channel T) (s : Subscriber)
      → publisher T c ≢ none
      → (c' : Channel T) × (publisher T c ≡ some c')
        × (publish P v c ≡ drop_publisher T (publish_immediate T v c'))
        × (r : WaitResult T) × ((poll_message T s (publish P v c)).0 ≡ ready r)
  unfolding publish
  publish-ready {T} laws v c s free = elim (Option-cases (publisher T c)) [
    | inl n ↦ absurd (free n)
    | inr (c', n) ↦
        (let sent = drop_publisher T (publish_immediate T v c') in
          let (r, q) =
            laws.poll-unread T s sent
              (λ u. laws.unread-publish T s v c' (sym (laws.unread-drop T s _) ∙ u)) in
          (c', n, rw (publish, n) refl, r, rw (publish, n) q))
  ]

  -- A notification puts its attribute handle and all bytes of its mbuf chain on the subscription
  -- channel, when the channel has a free publisher, changes nothing else, and makes every
  -- subscriber of the channel ready.
  pub notify_rx-published :
      (mbuf_laws : MbufLaws P) (laws : ChannelLaws P) (om : Mbuf) (attr_handle : ℕ)
      (inner : PeripheralInner P) (s : Subscriber)
      → publisher (ℕ × List ℕ) inner.subscription_pub ≢ none
      → (c : Channel (ℕ × List ℕ)) × (publisher (ℕ × List ℕ) inner.subscription_pub ≡ some c)
        × (dispatch P (notify_rx (some om) attr_handle) inner ≡ (
          pos 0,
          (
            record inner {
              subscription_pub =
                  drop_publisher
                    (ℕ × List ℕ)
                    (publish_immediate (ℕ × List ℕ) (attr_handle, mbuf_laws.contents om) c);
            },
            [],
          ),
        ))
        × (r : WaitResult (ℕ × List ℕ)) × ((poll_message
              (ℕ × List ℕ)
              s
              ((dispatch P (notify_rx (some om) attr_handle) inner).1).0.subscription_pub).0
            ≡ ready r)
  unfolding dispatch handle_notify_rx notify_flat
  notify_rx-published mbuf_laws laws om attr_handle inner s free =
      let (c, n, e, r, q) =
        publish-ready {T = ℕ × List ℕ} laws (attr_handle, mbuf_laws.contents om)
          inner.subscription_pub s free in
      (
        c,
        n,
        rw (mbuf_to_flat-contents mbuf_laws om, e) refl,
        r,
        rw (mbuf_to_flat-contents mbuf_laws om) q,
      )

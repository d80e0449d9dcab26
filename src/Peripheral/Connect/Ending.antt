-- ===== src/Peripheral/Connect/Ending.antt =====
-- What `disconnect` returns, by what NimBLE reports meanwhile.
use esp_nimble_host.ReturnCode.Laws.{return_code_to_result_done}
use esp_nimble_host.Prelude.{
  ℕ, ◌≡◌, refl, ap, ◌∙◌, ◌≢◌, inl, none, some, List, [], ◌∷◌, ◌++◌, ok, ready, All, ne→==,
}
use esp_nimble_host.Platform.{Platform, SignalLaws, ChannelLaws, SelectLaws}
use esp_nimble_host.Peripheral.{PeripheralInner, conn_handle_none, is_connected}
use esp_nimble_host.Peripheral.Events.{GapEvent, disconnect_event, dispatch, publish}
use esp_nimble_host.Peripheral.Connect.{
  disconnect_polled, disconnect_subscribed, subscribed, with_subscriber, waiting, disconnect_begin,
  disconnect_poll, run_begun,
}
use esp_nimble_host.Peripheral.Connect.Frame.{IsQuiet, streamed}
use esp_nimble_host.Peripheral.Connect.Laws.{
  publish-ready, run_begun_after, disconnect_event-dispatch,
}

module _ (P : Platform) (S : SignalLaws P) (C : ChannelLaws P) (L : SelectLaws P) where
  open P use {
    bindings, signal, Channel, Subscriber, subscriber, publisher, poll_message, select, reset,
    poll_wait,
  }
  open S use {wait-signal, wait-reset}
  open C use {unread, poll-unread, poll-empty, unread-subscriber, unread-publish, unread-drop}
  open L use {select-first, select-second}

  disconnect_begin_waiting :
      (inner : PeripheralInner P) (sub : Subscriber) (c : Channel (Unit {0}))
      → inner.conn_handle ≢ conn_handle_none
      → subscriber (Unit {0}) inner.disconnect_pub ≡ some (sub, c)
      → disconnect_begin P 0 inner ≡ waiting sub (record inner { disconnect_pub = c })
  unfolding disconnect_begin disconnect_subscribed with_subscriber subscribed is_connected
  disconnect_begin_waiting inner sub c v s =
      rw
        (
          ne→== inner.conn_handle conn_handle_none v,
          return_code_to_result_done bindings 0 tt (inl refl),
          s,
        )
        refl

  disconnect_poll_ready :
      (sub : Subscriber) (v : Unit {0}) (c : Channel (Unit {0})) (inner : PeripheralInner P)
      → publisher (Unit {0}) c ≢ none
      → inner.disconnect_pub ≡ publish P v c
      → disconnect_poll P sub inner ≡ ready (ok tt)
  unfolding disconnect_poll disconnect_polled
  disconnect_poll_ready sub v c inner p e =
      let (r, eq) = publish-ready P S C L sub v c p in rw (e, eq) refl

  -- When NimBLE takes the request, and the channel has room for the subscriber and the publisher,
  -- `disconnect` on a connection returns `Ok` once its DISCONNECT event is reported, and the
  -- peripheral then has no connection and no cached services. Events that neither connect,
  -- disconnect nor change the encryption may come before.
  pub disconnect_completes :
      (reason : ℕ) (es : List (GapEvent P)) (inner : PeripheralInner P) (sub : Subscriber)
      (c : Channel (Unit {0}))
      → inner.conn_handle ≢ conn_handle_none
      → inner.strong ≢ 0
      → subscriber (Unit {0}) inner.disconnect_pub ≡ some (sub, c)
      → publisher (Unit {0}) c ≢ none
      → All (IsQuiet P) es
      → (inner' : PeripheralInner P) × (run_begun P
            (disconnect_poll P)
            (es ++ disconnect_event inner.conn_handle reason ∷ [])
            (disconnect_begin P 0 inner)
          ≡ some (ready (ok tt), inner'))
        × (inner'.conn_handle ≡ conn_handle_none)
        × (inner'.services ≡ [])
  disconnect_completes reason es inner sub c v a s p q =
      let armed = (record inner { disconnect_pub = c }) in
      let last = disconnect_event inner.conn_handle reason in
      let (c', d, eq) = run_begun_after P S C L (disconnect_poll P) es last sub armed q a in
      let e = disconnect_event-dispatch P S C L reason (streamed P armed c' d) v in
      (
        ((dispatch P last (streamed P armed c' d)).1).0,
        ap (run_begun P (disconnect_poll P) (es ++ last ∷ []))
              (disconnect_begin_waiting inner sub c v s)
            ∙ eq
            ∙ ap (λ r. some (r, ((dispatch P last (streamed P armed c' d)).1).0))
                (disconnect_poll_ready sub tt c _ p (ap (λ i. i.disconnect_pub) e)),
        ap (λ i. i.conn_handle) e,
        ap (λ i. i.services) e,
      )

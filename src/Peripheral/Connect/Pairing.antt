-- ===== src/Peripheral/Connect/Pairing.antt =====
-- What `pair_with_passkey` returns, by what NimBLE reports meanwhile.
use esp_nimble_host.ReturnCode.Laws.{return_code_to_result_done}
use esp_nimble_host.Prelude.{
  ok, ◌==◌, if◌then◌else◌, ℕ, ◌≡◌, refl, ap, ◌∙◌, ◌≢◌, inl, none, some, List, [], ◌∷◌, ◌++◌, err,
  pending, ready, All, ne→==,
}
use esp_nimble_host.Error.{PairError, PairResult}
use esp_nimble_host.Platform.{Platform, SignalLaws, ChannelLaws, SelectLaws}
use esp_nimble_host.Peripheral.{PeripheralInner, conn_handle_none, is_connected}
use esp_nimble_host.Peripheral.Events.{
  handle_enc_change, GapEvent, enc_change, disconnect_event, dispatch, publish, enc_result,
}
use esp_nimble_host.Peripheral.Connect.{
  pair_initiated, subscribed, with_subscriber, waiting, pair_begin, pair_poll, run_begun,
  or_disconnected,
}
use esp_nimble_host.Peripheral.Connect.Frame.{IsQuiet, streamed}
use esp_nimble_host.Peripheral.Connect.Laws.{
  publish-ready, run_begun_after, run_begun_quiet, disconnect_event-dispatch,
}

module _ (P : Platform) (S : SignalLaws P) (C : ChannelLaws P) (L : SelectLaws P) where
  open P use {
    bindings, signal, Channel, Subscriber, subscriber, publisher, poll_message, select, reset,
    poll_wait,
  }
  open S use {wait-signal, wait-reset}
  open C use {unread, poll-unread, poll-empty, unread-subscriber, unread-publish, unread-drop}
  open L use {select-neither, select-first, select-second}

  pub pair_begin_waiting :
      (passkey : ℕ) (inner : PeripheralInner P) (sub : Subscriber) (c : Channel (Unit {0}))
      → inner.conn_handle ≢ conn_handle_none
      → subscriber (Unit {0}) inner.disconnect_pub ≡ some (sub, c)
      → pair_begin P passkey 0 inner
        ≡ waiting sub (record inner {
          static_passkey = passkey;
          pair_result = reset (PairResult (Unit {0})) inner.pair_result;
          disconnect_pub = c;
        })
  unfolding pair_begin pair_initiated with_subscriber subscribed is_connected
  pair_begin_waiting passkey inner sub c v s =
      rw
        (
          ne→== inner.conn_handle conn_handle_none v,
          return_code_to_result_done bindings 0 tt (inl refl),
          s,
        )
        refl

  pair_poll_encrypted :
      (status : ℕ) (sub : Subscriber) (inner : PeripheralInner P)
      → unread (Unit {0}) sub inner.disconnect_pub ≡ []
      → pair_poll P sub ((dispatch P (enc_change status) inner).1).0 ≡ ready (enc_result status)
  unfolding pair_poll or_disconnected dispatch handle_enc_change
  pair_poll_encrypted status sub inner u =
      rw (wait-signal, poll-empty (Unit {0}) sub inner.disconnect_pub u, select-first) refl

  pair_poll_reset :
      (sub : Subscriber) (inner armed : PeripheralInner P)
      → armed.pair_result ≡ reset (PairResult (Unit {0})) inner.pair_result
      → unread (Unit {0}) sub armed.disconnect_pub ≡ []
      → pair_poll P sub armed ≡ pending
  unfolding pair_poll or_disconnected
  pair_poll_reset sub inner armed e u =
      rw (e, wait-reset, poll-empty (Unit {0}) sub armed.disconnect_pub u, select-neither) refl

  -- When NimBLE takes the request and a subscriber is free, `pair_with_passkey` on a connection
  -- waits until an ENC_CHANGE event, whatever an earlier call left behind, and then succeeds for
  -- the status 0 and fails with any other one. Events that neither connect, disconnect nor change
  -- the encryption may come before, and the passkey stays stored.
  pub pair_with_passkey_reported :
      (passkey status : ℕ) (es : List (GapEvent P)) (inner : PeripheralInner P) (sub : Subscriber)
      (c : Channel (Unit {0}))
      → inner.conn_handle ≢ conn_handle_none
      → inner.strong ≢ 0
      → subscriber (Unit {0}) inner.disconnect_pub ≡ some (sub, c)
      → All (IsQuiet P) es
      → ((inner' : PeripheralInner P) × (run_begun P (pair_poll P) es (pair_begin P passkey 0 inner)
            ≡ some (pending, inner')))
        × ((inner' : PeripheralInner P) × (run_begun P
                (pair_poll P)
                (es ++ enc_change status ∷ [])
                (pair_begin P passkey 0 inner)
              ≡ some (
                ready (if status == 0 then ok tt else err (PairError.pairing_failed status)),
                inner',
              ))
            × (inner'.static_passkey ≡ passkey))
  unfolding dispatch handle_enc_change enc_result
  pair_with_passkey_reported passkey status es inner sub c v a s q =
      let armed = (record inner {
        static_passkey = passkey;
        pair_result = reset (PairResult (Unit {0})) inner.pair_result;
        disconnect_pub = c;
      }) in
      let (c', d, eq) =
        run_begun_after P S C L (pair_poll P) es (enc_change status) sub armed q a in
      let (c0, d0, eq0) = run_begun_quiet P S C L (pair_poll P) es sub armed q a in
      let st = ((dispatch P (enc_change status) (streamed P armed c' d)).1).0 in
      let b = pair_begin_waiting passkey inner sub c v s in
      let u = unread-subscriber (Unit {0}) sub inner.disconnect_pub c s in
      (
        (
          streamed P armed c0 d0,
          ap (run_begun P (pair_poll P) es) b
              ∙ eq0
              ∙ ap (λ r. some (r, streamed P armed c0 d0))
                  (pair_poll_reset sub inner (streamed P armed c0 d0) refl u),
        ),
        (
          st,
          ap (run_begun P (pair_poll P) (es ++ enc_change status ∷ [])) b
              ∙ eq
              ∙ ap (λ r. some (r, st)) (pair_poll_encrypted status sub (streamed P armed c' d) u),
          refl,
        ),
      )

  pair_poll_aborted :
      (sub : Subscriber) (v : Unit {0}) (c : Channel (Unit {0})) (inner : PeripheralInner P)
      → publisher (Unit {0}) c ≢ none
      → inner.disconnect_pub ≡ publish P v c
      → (poll_wait (PairResult (Unit {0})) inner.pair_result).0 ≡ pending
      → pair_poll P sub inner ≡ ready (err PairError.disconnected_while_operation)
  unfolding pair_poll or_disconnected
  pair_poll_aborted sub v c inner p e w =
      let (r, eq) = publish-ready P S C L sub v c p in rw (e, eq, w, select-second) refl

  -- When the connection is lost before its encryption changes, `pair_with_passkey` does not wait
  -- for ever: it returns `DisconnectedWhileOperation`. NimBLE took the request, and the channel
  -- has room for the subscriber and the publisher.
  pub pair_with_passkey_disconnected :
      (passkey reason : ℕ) (es : List (GapEvent P)) (inner : PeripheralInner P) (sub : Subscriber)
      (c : Channel (Unit {0}))
      → inner.conn_handle ≢ conn_handle_none
      → inner.strong ≢ 0
      → subscriber (Unit {0}) inner.disconnect_pub ≡ some (sub, c)
      → publisher (Unit {0}) c ≢ none
      → All (IsQuiet P) es
      → (inner' : PeripheralInner P) × (run_begun P
            (pair_poll P)
            (es ++ disconnect_event inner.conn_handle reason ∷ [])
            (pair_begin P passkey 0 inner)
          ≡ some (ready (err PairError.disconnected_while_operation), inner'))
        × (inner'.conn_handle ≡ conn_handle_none)
  pair_with_passkey_disconnected passkey reason es inner sub c v a s p q =
      let armed = (record inner {
        static_passkey = passkey;
        pair_result = reset (PairResult (Unit {0})) inner.pair_result;
        disconnect_pub = c;
      }) in
      let last = disconnect_event inner.conn_handle reason in
      let (c', d, eq) = run_begun_after P S C L (pair_poll P) es last sub armed q a in
      let e = disconnect_event-dispatch P S C L reason (streamed P armed c' d) v in
      let st = ((dispatch P last (streamed P armed c' d)).1).0 in
      (
        st,
        ap (run_begun P (pair_poll P) (es ++ last ∷ []))
              (pair_begin_waiting passkey inner sub c v s)
            ∙ eq
            ∙ ap (λ r. some (r, st))
                (pair_poll_aborted sub tt c _ p (ap (λ i. i.disconnect_pub) e) (
                  ap (λ i. (poll_wait (PairResult (Unit {0})) i.pair_result).0) e
                  ∙ wait-reset (PairResult (Unit {0})) inner.pair_result)),
        ap (λ i. i.conn_handle) e,
      )

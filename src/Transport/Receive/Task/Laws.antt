-- ===== src/Transport/Receive/Task/Laws.antt =====
-- The receiving task of src/lib.rs against one turn of its loop for each packet.
use mathlib.Core.List.{map-append, append-nil}
use esp_nimble_host.Prelude.{
  ◌≡◌, refl, sym, ap, ◌∙◌, ◌≢◌, inl, inr, Bool, true, false, ◌&&◌, ◌||◌, none, some, ℕ, List, [],
  ◌∷◌, ◌++◌, map, ◌==◌, leb, length, Bool-cases, get_elem?, subst, ne→==, arith,
}
use esp_nimble_host.Bindings.{Bindings}
use esp_nimble_host.Transport.{h4_acl, h4_evt}
use esp_nimble_host.Transport.Receive.{
  Received, panicked, dropped, freed, overrun, delivered_acl, delivered_event, HostStack, receive,
}
use esp_nimble_host.Transport.Receive.Laws.{crashes, short_event, crashes-receive}
use esp_nimble_host.Transport.Receive.Task.{
  Wanted, Admitted, settled, wants, Phase, reading, allocating, ended, Task, after, settle, admit,
  admit_event, with_buffer, hold, poll_read, poll_buffer, Reachable, begin, read_async, alloc,
  finish, finish-admit,
}

module _ (b : Bindings) (S : HostStack) where
  -- What becomes of the packet in hand, once its buffer is there.
  pub outstanding : Phase → List Received
  outstanding reading = []
  outstanding (allocating w) = with_buffer b S w ∷ []
  outstanding ended = []

  outstanding-after : (r : Received) → outstanding (after r) ≡ []
  unfolding outstanding after
  outstanding-after panicked = refl
  outstanding-after dropped = refl
  outstanding-after freed = refl
  outstanding-after overrun = refl
  outstanding-after (delivered_acl om) = refl
  outstanding-after (delivered_event opcode len payload) = refl

  abbrev all_results : Task → List Received
  all_results t = t.results ++ outstanding t.phase

  settle-results : (r : Received) (t : Task) → all_results (settle r t) ≡ t.results ++ r ∷ []
  unfolding settle
  settle-results r t = rw (outstanding-after r) (append-nil (t.results ++ r ∷ []))

  hold-results :
      (a : Admitted) (t : Task) → all_results (hold b S a t) ≡ t.results ++ finish b S a ∷ []
  unfolding hold finish outstanding
  hold-results (settled r) t = settle-results r t
  hold-results (wants w) t = refl

  poll_read-results :
      (packet : List ℕ) (t : Task)
      → all_results (poll_read b S (some packet) t) ≡ t.results ++ receive b S packet ∷ []
  unfolding poll_read
  poll_read-results packet t =
      hold-results (admit b S packet) (record t { packets = t.packets ++ packet ∷ [] })
      ∙ ap (λ r. t.results ++ r ∷ []) (finish-admit b S packet)

  hold-packets : (a : Admitted) (t : Task) → (hold b S a t).packets ≡ t.packets
  unfolding hold settle
  hold-packets (settled r) t = refl
  hold-packets (wants w) t = refl

  poll_read-packets :
      (packet : List ℕ) (t : Task)
      → (poll_read b S (some packet) t).packets ≡ t.packets ++ packet ∷ []
  unfolding poll_read
  poll_read-packets packet t =
      hold-packets (admit b S packet) (record t { packets = t.packets ++ packet ∷ [] })

  -- Whatever the controller answers and however often no buffer is free, the task handles the
  -- packets that it reads in their order, each as one turn of the loop does, with at most the last
  -- one still in hand.
  pub Reachable-receive :
      (t : Task) → Reachable b S t → t.results ++ outstanding t.phase ≡ map (receive b S) t.packets
  unfolding poll_read poll_buffer settle outstanding
  Reachable-receive _ begin = refl
  Reachable-receive _ (read_async none {t} e r) = Reachable-receive t r
  Reachable-receive _ (read_async (some packet) {t} e r) =
      poll_read-results packet t
      ∙ ap (λ rs. rs ++ receive b S packet ∷ [])
          (sym (append-nil t.results)
            ∙ ap (λ p. t.results ++ outstanding p) (sym e)
            ∙ Reachable-receive t r)
      ∙ sym (map-append (receive b S) t.packets (packet ∷ []))
      ∙ ap (map (receive b S)) (sym (poll_read-packets packet t))
  Reachable-receive _ (alloc w false {t} e r) = Reachable-receive t r
  Reachable-receive _ (alloc w true {t} e r) =
      settle-results (with_buffer b S w) t
      ∙ ap (λ p. t.results ++ outstanding p) (sym e)
      ∙ Reachable-receive t r

  -- Whether one of the results is a panic, and whether the task ended with one.
  crashed : List Received → Bool
  crashed [] = false
  crashed (r ∷ rs) = crashes b S r || crashed rs

  pub is_ended : Phase → Bool
  is_ended reading = false
  is_ended (allocating w) = false
  is_ended ended = true

  pub any_short : List (List ℕ) → Bool
  any_short [] = false
  any_short (p ∷ ps) = short_event b S p || any_short ps

  crashed-append : (rs qs : List Received) → crashed (rs ++ qs) ≡ crashed rs || crashed qs
  unfolding crashed
  crashed-append [] qs = refl
  crashed-append (r ∷ rs) qs = ground (arith, crashed-append rs qs)

  crashed-receive : (ps : List (List ℕ)) → crashed (map (receive b S) ps) ≡ any_short ps
  unfolding crashed any_short
  crashed-receive [] = refl
  crashed-receive (p ∷ ps) = rw (crashes-receive b S p, crashed-receive ps) refl

  is_ended-after : (r : Received) → is_ended (after r) ≡ crashes b S r
  unfolding is_ended after crashes
  is_ended-after panicked = refl
  is_ended-after dropped = refl
  is_ended-after freed = refl
  is_ended-after overrun = refl
  is_ended-after (delivered_acl om) = refl
  is_ended-after (delivered_event opcode len payload) = refl

  admit-short_event :
      (t : ℕ) (rest : List ℕ)
      → leb (length rest) 1 ≡ true
      → admit_event b S (t ∷ rest) (get_elem? (t ∷ rest) 2) ≡ settled panicked
  unfolding admit_event
  admit-short_event t [] h = refl
  admit-short_event t (a ∷ []) h = refl
  admit-short_event t (a ∷ n ∷ rest) h = ground (arith, h)

  settled≢wants : (r : Received) (w : Wanted) → settled r ≢ wants w
  settled≢wants r w e = cc

  true≢false : true ≢ false
  true≢false e = cc

  or-false : (c : Bool) → c || false ≡ c
  or-false true = refl
  or-false false = refl

  admit-short :
      (packet : List ℕ) → short_event b S packet ≡ true → admit b S packet ≡ settled panicked
  unfolding short_event admit admit_event
  admit-short [] h = absurd (true≢false (sym h))
  admit-short (t ∷ rest) h = elim (Bool-cases (t == h4_evt)) [
    | inl e ↦
        rw (e, ne→== t h4_acl (ground arith))
          (admit-short_event t rest (subst (λ c. c && leb (length rest) 1 ≡ true) e h))
    | inr e ↦ absurd (true≢false (sym h ∙ ap (λ c. c && leb (length rest) 1) e))
  ]

  with_buffer-safe :
      (packet : List ℕ) (w : Wanted)
      → admit b S packet ≡ wants w
      → crashes b S (with_buffer b S w) ≡ false
  unfolding finish
  with_buffer-safe packet w e = elim (Bool-cases (short_event b S packet)) [
    | inl h ↦ absurd (settled≢wants panicked w (sym (admit-short packet h) ∙ e))
    | inr h ↦
        ap (λ a. crashes b S (finish b S a)) (sym e)
        ∙ ap (crashes b S) (finish-admit b S packet)
        ∙ crashes-receive b S packet
        ∙ h
  ]

  -- The task has ended exactly if a packet that it is done with crashed it, and the one in hand
  -- does not.
  IsSound : Task → Type 0
  IsSound t = (is_ended t.phase ≡ crashed t.results) × (crashed (outstanding t.phase) ≡ false)

  settle-IsSound : (r : Received) (t : Task) → crashed t.results ≡ false → IsSound (settle r t)
  unfolding IsSound settle crashed
  settle-IsSound r t h = (
    is_ended-after r ∙ rw (crashed-append t.results (r ∷ []), h) (sym (or-false (crashes b S r))),
    ap crashed (outstanding-after r),
  )

  hold-IsSound :
      (packet : List ℕ) (a : Admitted) (t : Task)
      → admit b S packet ≡ a
      → crashed t.results ≡ false
      → IsSound (hold b S a t)
  unfolding IsSound hold is_ended outstanding crashed
  hold-IsSound packet (settled r) t e h = settle-IsSound r t h
  hold-IsSound packet (wants w) t e h = (sym h, rw (with_buffer-safe packet w e) refl)

  Reachable-IsSound : (t : Task) → Reachable b S t → IsSound t
  unfolding IsSound poll_read poll_buffer is_ended outstanding crashed
  Reachable-IsSound _ begin = (refl, refl)
  Reachable-IsSound _ (read_async none {t} e r) = Reachable-IsSound t r
  Reachable-IsSound _ (read_async (some packet) {t} e r) =
      hold-IsSound packet (admit b S packet) (record t { packets = t.packets ++ packet ∷ [] }) refl
        (sym (Reachable-IsSound t r).0 ∙ ap is_ended e)
  Reachable-IsSound _ (alloc w false {t} e r) = Reachable-IsSound t r
  Reachable-IsSound _ (alloc w true {t} e r) =
      settle-IsSound (with_buffer b S w) t (sym (Reachable-IsSound t r).0 ∙ ap is_ended e)

  -- The task ends only by a panic, and exactly when it has read an event packet of one or two
  -- bytes: no other packet, error or lack of buffers stops it. A copy beyond the event buffer is
  -- taken as one that the task survives.
  pub Reachable-ended : (t : Task) → Reachable b S t → is_ended t.phase ≡ any_short t.packets
  unfolding IsSound
  Reachable-ended t r =
      let (e, f) = Reachable-IsSound t r in
      e
      ∙ sym (or-false (crashed t.results))
      ∙ ap (λ c. crashed t.results || c) (sym f)
      ∙ sym (crashed-append t.results (outstanding t.phase))
      ∙ ap crashed (Reachable-receive t r)
      ∙ crashed-receive t.packets

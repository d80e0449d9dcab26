-- ===== src/Platform.antt =====
-- What the crate takes from code outside the repository: the NimBLE bindings and C functions
-- (src/nimble_sys), embassy-sync's `Signal` and `PubSubChannel`, embassy-futures' `select` and the
-- uuid crate. `Platform` has the operations, and the records of laws the
-- documented behaviour that theorems use.
pub mod Concrete
use esp_nimble_host.Prelude.{
  take, ℕ, ◌^◌, ◌<◌, ◌≡◌, ◌≢◌, ◌⊎◌, inl, inr, Option, none, some, List, [], length, All, Poll,
  pending, ready,
}
use esp_nimble_host.Bindings.{Bindings}

-- `embassy_sync::pubsub::WaitResult`.
pub data WaitResult (T : Type 0) : Type 0 where
  lagged : ℕ → WaitResult T
  message : T → WaitResult T

pub record Platform : Type 1 where
  pub bindings : Bindings
  -- `embassy_sync::signal::Signal<M, T>`; `poll_wait` is one poll of `wait()`.
  pub Signal : Type 0 → Type 0
  pub new_signal : (T : Type 0) → Signal T
  pub signal : (T : Type 0) → T → Signal T → Signal T
  pub reset : (T : Type 0) → Signal T → Signal T
  pub poll_wait : (T : Type 0) → Signal T → Poll T × Signal T
  -- `embassy_sync::pubsub::PubSubChannel`; `poll_message` is one poll of `next_message()`.
  pub Channel : Type 0 → Type 0
  pub Subscriber : Type 0
  pub new_channel : (T : Type 0) → Channel T
  pub publisher : (T : Type 0) → Channel T → Option (Channel T)
  pub publish_immediate : (T : Type 0) → T → Channel T → Channel T
  pub drop_publisher : (T : Type 0) → Channel T → Channel T
  pub subscriber : (T : Type 0) → Channel T → Option (Subscriber × Channel T)
  pub poll_message : (T : Type 0) → Subscriber → Channel T → Poll (WaitResult T) × Channel T
  -- `embassy_futures::select::select`, on one poll of each of its futures.
  pub select : (A B : Type 0) → Poll A → Poll B → Poll (A ⊎ B)
  -- NimBLE's mbuf chains. `mbuf_to_flat` is the C function: its return code and the buffer of the
  -- given length that it wrote.
  pub Mbuf : Type 0
  pub os_mbuf_len : Mbuf → ℕ
  pub mbuf_to_flat : Mbuf → ℕ → ℕ × List ℕ
  -- A new chain of the first bytes, as many as the length given says, or null.
  pub mbuf_from_flat : List ℕ → ℕ → Option Mbuf
  -- `uuid::Uuid`; `from_slice` fails unless it is given 16 bytes.
  pub Uuid : Type 0
  pub from_u128 : ℕ → Uuid
  pub as_u128 : Uuid → ℕ
  pub from_bytes : List ℕ → Uuid
  pub into_bytes : Uuid → List ℕ
  pub from_slice : List ℕ → Option Uuid

module _ (P : Platform) where
  open P use {Signal, new_signal, signal, reset, poll_wait}
  open P use {Channel, Subscriber, publisher, publish_immediate, drop_publisher, subscriber}
  open P use {Mbuf, os_mbuf_len, mbuf_to_flat, mbuf_from_flat}
  open P use {poll_message, select, Uuid, from_u128, as_u128, from_bytes, into_bytes, from_slice}

  -- `new_signal` and `reset` leave nothing to take; `signal` leaves its value, which is taken once.
  pub record SignalLaws : Type 1 where
    pub wait-new : (T : Type 0) → (poll_wait T (new_signal T)).0 ≡ pending
    pub wait-reset : (T : Type 0) (s : Signal T) → (poll_wait T (reset T s)).0 ≡ pending
    pub wait-signal : (T : Type 0) (v : T) (s : Signal T) → (poll_wait T (signal T v s)).0 ≡ ready v

  -- A published message is there for whoever subscribed before; `unread` is a subscriber's view.
  pub record ChannelLaws : Type 1 where
    pub unread : (T : Type 0) → Subscriber → Channel T → List T
    pub unread-subscriber :
        (T : Type 0) (s : Subscriber) (c c' : Channel T)
        → subscriber T c ≡ some (s, c')
        → unread T s c' ≡ []
    pub unread-publisher :
        (T : Type 0) (s : Subscriber) (c c' : Channel T)
        → publisher T c ≡ some c'
        → unread T s c' ≡ unread T s c
    pub unread-drop :
        (T : Type 0) (s : Subscriber) (c : Channel T)
        → unread T s (drop_publisher T c) ≡ unread T s c
    pub unread-publish :
        (T : Type 0) (s : Subscriber) (v : T) (c : Channel T)
        → unread T s (publish_immediate T v c) ≢ []
    pub poll-empty :
        (T : Type 0) (s : Subscriber) (c : Channel T)
        → unread T s c ≡ []
        → (poll_message T s c).0 ≡ pending
    pub poll-unread :
        (T : Type 0) (s : Subscriber) (c : Channel T)
        → unread T s c ≢ []
        → (r : WaitResult T) × ((poll_message T s c).0 ≡ ready r)

  -- `contents` are the bytes of a chain. It has fewer than 2 ^ 16, as `os_mbuf_len` is a `u16`.
  pub record MbufLaws : Type 0 where
    pub contents : Mbuf → List ℕ
    pub len-contents : (m : Mbuf) → os_mbuf_len m ≡ length (contents m)
    pub to_flat-contents : (m : Mbuf) → mbuf_to_flat m (length (contents m)) ≡ (0, contents m)
    pub from_flat-contents :
        (bs : List ℕ) (n : ℕ) (m : Mbuf) → mbuf_from_flat bs n ≡ some m → contents m ≡ take n bs

  -- `select` is ready as soon as one of its futures is, with that one's value.
  pub record SelectLaws : Type 1 where
    pub select-neither : (A B : Type 0) → select A B pending pending ≡ pending
    pub select-first : (A B : Type 0) (a : A) → select A B (ready a) pending ≡ ready (inl a)
    pub select-second : (A B : Type 0) (b : B) → select A B pending (ready b) ≡ ready (inr b)
    pub select-both :
        (A B : Type 0) (a : A) (b : B)
        → (select A B (ready a) (ready b) ≡ ready (inl a))
          ⊎ (select A B (ready a) (ready b) ≡ ready (inr b))

  -- A UUID is a number below 2 ^ 128, and 16 bytes.
  pub record UuidLaws : Type 0 where
    pub as-from : (n : ℕ) → n < 2 ^ 128 → as_u128 (from_u128 n) ≡ n
    pub from-as : (u : Uuid) → from_u128 (as_u128 u) ≡ u
    pub as-lt : (u : Uuid) → as_u128 u < 2 ^ 128
    pub from-into : (u : Uuid) → from_bytes (into_bytes u) ≡ u
    pub length-into : (u : Uuid) → length (into_bytes u) ≡ 16
    pub slice-from : (bs : List ℕ) → length bs ≡ 16 → from_slice bs ≡ some (from_bytes bs)

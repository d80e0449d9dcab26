-- ===== src/Host/GapEvent.antt =====
-- `BleGapEvent` of src/nimble_sys/gap.rs and `BleGattAccessContext` of src/nimble_sys/gatts.rs: the
-- Rust enums that are made from a C struct with a tag and a union.
use esp_nimble_host.Prelude.{
  ℕ, ◌-◌, ◌%◌, ◌^◌, ◌≡◌, Bool, true, false, ◌||◌, Option, none, some, ℤ, pos, negsuc, ◌==◌,
  if◌then◌else◌, arith,
}

-- The tags, from the NimBLE headers.
pub record GapEventTags : Type 0 where
  pub connect : ℕ
  pub disconnect : ℕ
  pub conn_update : ℕ
  pub conn_update_req : ℕ
  pub phy_update_complete : ℕ
  pub notify_tx : ℕ
  pub subscribe : ℕ
  pub mtu : ℕ

pub record AccessTags : Type 0 where
  pub read_chr : ℕ
  pub write_chr : ℕ
  pub read_dsc : ℕ
  pub write_dsc : ℕ

-- `status as u32` of a C int.
pub as_u32 : ℤ → ℕ
as_u32 (pos n) = n % 2 ^ 32
as_u32 (negsuc n) = 2 ^ 32 - 1 - n % 2 ^ 32

-- `ConnDesc` and `UpdParams` are the bindings' `ble_gap_conn_desc` and `ble_gap_upd_params`.
module _ (ConnDesc UpdParams : Type 0) where
  -- The members of the union, as they are read. A bit field is what its accessor returns.
  pub record StatusMember : Type 0 where
    pub status : ℤ
    pub conn_handle : ℕ

  pub record DisconnectMember : Type 0 where
    pub reason : ℤ
    pub conn : ConnDesc

  pub record UpdateReqMember : Type 0 where
    pub conn_handle : ℕ
    pub peer_params : UpdParams
    pub self_params : UpdParams

  pub record PhyMember : Type 0 where
    pub status : ℤ
    pub conn_handle : ℕ
    pub tx_phy : ℕ
    pub rx_phy : ℕ

  pub record NotifyTxMember : Type 0 where
    pub status : ℤ
    pub conn_handle : ℕ
    pub attr_handle : ℕ

  pub record SubscribeMember : Type 0 where
    pub conn_handle : ℕ
    pub attr_handle : ℕ
    pub reason : ℕ
    pub prev_notify : ℕ
    pub cur_notify : ℕ
    pub prev_indicate : ℕ
    pub cur_indicate : ℕ

  pub record MtuMember : Type 0 where
    pub conn_handle : ℕ
    pub channel_id : ℕ
    pub value : ℕ

  -- `ble_gap_event`, with what a read of each member of the union gives.
  pub record RawGapEvent : Type 0 where
    pub type_ : ℕ
    pub connect : StatusMember
    pub disconnect : DisconnectMember
    pub conn_update : StatusMember
    pub conn_update_req : UpdateReqMember
    pub phy_updated : PhyMember
    pub notify_tx : NotifyTxMember
    pub subscribe : SubscribeMember
    pub mtu : MtuMember

  pub data BleGapEvent : Type 0 where
    connect : (status conn_handle : ℕ) → BleGapEvent
    disconnect : (reason : ℕ) → ConnDesc → BleGapEvent
    conn_update : (status conn_handle : ℕ) → BleGapEvent
    conn_update_req : (peer_params self_params : UpdParams) (conn_handle : ℕ) → BleGapEvent
    l2cap_update_req term_failure disc disc_complete adv_complete enc_change : BleGapEvent
    passkey_action notify_rx : BleGapEvent
    notify_tx : (status conn_handle attr_handle : ℕ) → BleGapEvent
    subscribe :
        (conn_handle attr_handle reason : ℕ)
        (prev_notify curr_notify prev_indicate curr_indicate : Bool)
        → BleGapEvent
    mtu : (conn_handle channel_id value : ℕ) → BleGapEvent
    identity_resolved repeat_pairing : BleGapEvent
    phy_update_complete : (status conn_handle tx_phy rx_phy : ℕ) → BleGapEvent
    ext_disc periodic_sync periodic_report periodic_sync_lost scan_req_rcvd : BleGapEvent
    periodic_transfer pathloss_threshold transmit_power subrate_change : BleGapEvent
    vs_hci reattempt_count : BleGapEvent

  module _ (tags : GapEventTags) where
    -- `From<&ble_gap_event> for BleGapEvent`: `none` is its panic.
    pub from : RawGapEvent → Option BleGapEvent
    unfolding as_u32
    from v =
        if v.type_ == tags.connect
        then some (BleGapEvent.connect (as_u32 v.connect.status) v.connect.conn_handle)
        else if v.type_ == tags.disconnect
        then some (BleGapEvent.disconnect (as_u32 v.disconnect.reason) v.disconnect.conn)
        else if v.type_ == tags.conn_update
        then some (BleGapEvent.conn_update (as_u32 v.conn_update.status) v.conn_update.conn_handle)
        else if v.type_ == tags.conn_update_req
        then some (
            BleGapEvent.conn_update_req v.conn_update_req.peer_params v.conn_update_req.self_params
              v.conn_update_req.conn_handle)
        else if v.type_ == tags.phy_update_complete
        then some (
            BleGapEvent.phy_update_complete (as_u32 v.phy_updated.status) v.phy_updated.conn_handle
              v.phy_updated.tx_phy v.phy_updated.rx_phy)
        else if v.type_ == tags.notify_tx
        then some (
            BleGapEvent.notify_tx (as_u32 v.notify_tx.status) v.notify_tx.conn_handle
              v.notify_tx.attr_handle)
        else if v.type_ == tags.subscribe
        then some (
            BleGapEvent.subscribe v.subscribe.conn_handle v.subscribe.attr_handle v.subscribe.reason
              (v.subscribe.prev_notify == 1) (v.subscribe.cur_notify == 1)
              (v.subscribe.prev_indicate == 1) (v.subscribe.cur_indicate == 1))
        else if v.type_ == tags.mtu
        then some (BleGapEvent.mtu v.mtu.conn_handle v.mtu.channel_id v.mtu.value)
        else none

    -- The events that are converted.
    pub converted : ℕ → Bool
    converted t =
        (t == tags.connect)
        || (t == tags.disconnect)
        || (t == tags.conn_update)
        || (t == tags.conn_update_req)
        || (t == tags.phy_update_complete)
        || (t == tags.notify_tx)
        || (t == tags.subscribe)
        || (t == tags.mtu)

    is_some : Option BleGapEvent → Bool
    is_some none = false
    is_some (some e) = true

    -- Every other event panics, those among them that have a variant of their own.
    is_some-from : (v : RawGapEvent) → is_some (from v) ≡ converted v.type_
    unfolding from converted is_some
    is_some-from v = ground arith

-- `Om`, `Chr` and `Dsc` are the pointers to an mbuf, a characteristic and a descriptor.
module _ (Om Chr Dsc : Type 0) where
  -- `ble_gatt_access_ctxt`, with both readings of the union.
  pub record RawAccessContext : Type 0 where
    pub op : ℕ
    pub om : Om
    pub chr : Chr
    pub dsc : Dsc

  pub data BleGattAccessContext : Type 0 where
    read_char write_char : Om → Chr → BleGattAccessContext
    read_dsc write_dsc : Om → Dsc → BleGattAccessContext

  -- `From<&ble_gatt_access_ctxt> for BleGattAccessContext`: `none` is its panic.
  pub context_from : AccessTags → RawAccessContext → Option BleGattAccessContext
  context_from tags v =
      if v.op == tags.read_chr
      then some (read_char v.om v.chr)
      else if v.op == tags.write_chr
      then some (write_char v.om v.chr)
      else if v.op == tags.read_dsc
      then some (BleGattAccessContext.read_dsc v.om v.dsc)
      else if v.op == tags.write_dsc
      then some (BleGattAccessContext.write_dsc v.om v.dsc)
      else none

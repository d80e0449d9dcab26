-- ===== src/ReturnCode/Arms.antt =====
-- The tables of return codes (src/nimble_sys/mod.rs) and the errors of their arms.
use esp_nimble_host.Prelude.{
  refl, ◌∙◌, ap, ℕ, zero, suc, some, get_elem?, ◌+◌, ◌-◌, ◌≤◌, ◌<◌, ◌≡◌, sym, subst, ◌≢◌, ◌⊎◌, inl,
  inr, [], ◌∷◌, arith, ◌==◌, Bool-cases, ==_iff, lt→ltb, le→ltb,
}
use esp_nimble_host.Error.{NimbleError}
use esp_nimble_host.Bindings.{Bindings}
use mathlib.Core.Option.{some-injective}
use esp_nimble_host.ReturnCode.Laws.{code_of_error}
use esp_nimble_host.ReturnCode.{Arms, match_code, hs_arms, att_arms, hci_arms, error_of_code}

-- No code occurs twice in a table.
abbrev pub Absent : ℕ → Arms → Type 0
Absent c [] = Unit {0}
Absent c ((code, e) ∷ arms) = (c ≢ code) × Absent c arms

abbrev pub Distinct : Arms → Type 0
Distinct [] = Unit {0}
Distinct ((code, e) ∷ arms) = Absent code arms × Distinct arms

-- `Arm c e arms`: the table has the arm `c => e`.
abbrev pub Arm : ℕ → NimbleError → Arms → Type 0
Arm c e [] = ⊥
Arm c e ((code, x) ∷ arms) = ((c ≡ code) × (e ≡ x)) ⊎ Arm c e arms

Absent-Arm : (c : ℕ) (e : NimbleError) (arms : Arms) → Absent c arms → Arm c e arms → ⊥
Absent-Arm c e [] a m = m
Absent-Arm c e ((code, x) ∷ arms) a (inl m) = a.0 m.0
Absent-Arm c e ((code, x) ∷ arms) a (inr m) = Absent-Arm c e arms a.1 m

pub match_code-Arm :
    (c : ℕ) (e o : NimbleError) (arms : Arms)
    → Distinct arms
    → Arm c e arms
    → match_code c arms o ≡ e
unfolding match_code
match_code-Arm c e o [] d m = absurd m
match_code-Arm c e o ((code, x) ∷ arms) d (inl m) = ground arith
match_code-Arm c e o ((code, x) ∷ arms) d (inr m) = elim (Bool-cases (c == code)) [
  | inl h ↦
      absurd (Absent-Arm c e arms (subst (λ k. Absent k arms) (sym ((==_iff c code).0 h)) d.0) m)
  | inr h ↦ rw h (match_code-Arm c e o arms d.1 m)
]

-- Every code of a table, counted from `base`, lies below `bound`.
abbrev pub Below : ℕ → ℕ → Arms → Type 0
Below base bound [] = Unit {0}
Below base bound ((code, e) ∷ arms) = (base + code < bound) × Below base bound arms

Below-Arm :
    (base bound c : ℕ) (e : NimbleError) (arms : Arms)
    → Below base bound arms
    → Arm c e arms
    → base + c < bound
Below-Arm base bound c e [] l m = absurd m
Below-Arm base bound c e ((code, x) ∷ arms) l (inl m) = omega arith
Below-Arm base bound c e ((code, x) ∷ arms) l (inr m) = Below-Arm base bound c e arms l.1 m

-- What the NimBLE headers say of their constants: each range has room for its codes, and no two
-- codes of a range are equal.
pub record IsNimble (b : Bindings) : Type 0 where
  pub hs_distinct : Distinct (hs_arms b)
  pub att_distinct : Distinct (att_arms b)
  pub hci_distinct : Distinct (hci_arms b)
  pub hs_below : Below 0 b.ble_hs_err_att_base (hs_arms b)
  pub att_below : Below b.ble_hs_err_att_base b.ble_hs_err_hci_base (att_arms b)
  pub ordered : b.ble_hs_err_att_base ≤ b.ble_hs_err_hci_base

module _ (b : Bindings) (nimble : IsNimble b) (c : ℕ) (e : NimbleError) where
  error_of_code-hs : Arm c e (hs_arms b) → error_of_code b c ≡ e
  unfolding error_of_code
  error_of_code-hs m = ground (
    arith,
    Below-Arm 0 b.ble_hs_err_att_base c e (hs_arms b) nimble.hs_below m,
    match_code-Arm c e (NimbleError.other c) (hs_arms b) nimble.hs_distinct m,
  )

  error_of_code-att : Arm c e (att_arms b) → error_of_code b (b.ble_hs_err_att_base + c) ≡ e
  unfolding error_of_code
  error_of_code-att m =
      let rc = b.ble_hs_err_att_base + c in
      let k : rc - b.ble_hs_err_att_base ≡ c = omega arith in
      let l =
        Below-Arm b.ble_hs_err_att_base b.ble_hs_err_hci_base c e (att_arms b) nimble.att_below m in
      rw (le→ltb rc b.ble_hs_err_att_base (omega arith), lt→ltb rc b.ble_hs_err_hci_base l, k)
        (match_code-Arm c e (NimbleError.other rc) (att_arms b) nimble.att_distinct m)

  error_of_code-hci : Arm c e (hci_arms b) → error_of_code b (b.ble_hs_err_hci_base + c) ≡ e
  unfolding error_of_code
  error_of_code-hci m =
      let rc = b.ble_hs_err_hci_base + c in
      let k : rc - b.ble_hs_err_hci_base ≡ c = omega arith in
      let o = nimble.ordered in
      rw
        (
          le→ltb rc b.ble_hs_err_att_base (omega arith),
          le→ltb rc b.ble_hs_err_hci_base (omega arith),
          k,
        )
        (match_code-Arm c e (NimbleError.other rc) (hci_arms b) nimble.hci_distinct m)

Arm-get_elem? :
    (arms : Arms) (i c : ℕ) (e : NimbleError) → get_elem? arms i ≡ some (c, e) → Arm c e arms
Arm-get_elem? [] i c e h = cc
Arm-get_elem? ((code, x) ∷ arms) zero c e h =
    let k = some-injective _ _ h in inl (sym (ap (λ p. p.0) k), sym (ap (λ p. p.1) k))
Arm-get_elem? ((code, x) ∷ arms) (suc i) c e h = inr (Arm-get_elem? arms i c e h)

module _ (b : Bindings) (nimble : IsNimble b) where
  of_hs :
      (i : ℕ) {c rc : ℕ} {e : NimbleError}
      → get_elem? (hs_arms b) i ≡ some (c, e)
      → some c ≡ some rc
      → error_of_code b rc ≡ e
  of_hs i {c} {e = e} g h =
      ap (error_of_code b) (sym (some-injective _ _ h))
      ∙ error_of_code-hs b nimble c e (Arm-get_elem? (hs_arms b) i c e g)

  of_att :
      (i : ℕ) {c rc : ℕ} {e : NimbleError}
      → get_elem? (att_arms b) i ≡ some (c, e)
      → some (b.ble_hs_err_att_base + c) ≡ some rc
      → error_of_code b rc ≡ e
  of_att i {c} {e = e} g h =
      ap (error_of_code b) (sym (some-injective _ _ h))
      ∙ error_of_code-att b nimble c e (Arm-get_elem? (att_arms b) i c e g)

  of_hci :
      (i : ℕ) {c rc : ℕ} {e : NimbleError}
      → get_elem? (hci_arms b) i ≡ some (c, e)
      → some (b.ble_hs_err_hci_base + c) ≡ some rc
      → error_of_code b rc ≡ e
  of_hci i {c} {e = e} g h =
      ap (error_of_code b) (sym (some-injective _ _ h))
      ∙ error_of_code-hci b nimble c e (Arm-get_elem? (hci_arms b) i c e g)

  -- The code of an error, other than one that only carries its code, is reported as that error and
  -- not as another or an unknown one, with constants as in the NimBLE headers.
  pub error_of_code-code_of_error :
      (e : NimbleError) (rc : ℕ)
      → code_of_error b e ≡ some rc
      → e ≢ NimbleError.other rc
      → error_of_code b rc ≡ e
  unfolding code_of_error hs_arms att_arms hci_arms
  error_of_code-code_of_error NimbleError.operation_in_progress rc h n = of_hs 0 refl h
  error_of_code-code_of_error NimbleError.busy rc h n = of_hs 1 refl h
  error_of_code-code_of_error NimbleError.invalid_argument rc h n = of_hs 2 refl h
  error_of_code-code_of_error NimbleError.message_size rc h n = of_hs 3 refl h
  error_of_code-code_of_error NimbleError.no_entry rc h n = of_hs 4 refl h
  error_of_code-code_of_error NimbleError.no_memory rc h n = of_hs 5 refl h
  error_of_code-code_of_error NimbleError.not_connected rc h n = of_hs 6 refl h
  error_of_code-code_of_error NimbleError.not_supported rc h n = of_hs 7 refl h
  error_of_code-code_of_error NimbleError.app_error rc h n = of_hs 8 refl h
  error_of_code-code_of_error NimbleError.bad_data rc h n = of_hs 9 refl h
  error_of_code-code_of_error NimbleError.os_error rc h n = of_hs 10 refl h
  error_of_code-code_of_error NimbleError.controller_error rc h n = of_hs 11 refl h
  error_of_code-code_of_error NimbleError.timeout rc h n = of_hs 12 refl h
  error_of_code-code_of_error NimbleError.reject rc h n = of_hs 13 refl h
  error_of_code-code_of_error NimbleError.unknown rc h n = of_hs 14 refl h
  error_of_code-code_of_error NimbleError.role rc h n = of_hs 15 refl h
  error_of_code-code_of_error NimbleError.timeout_hci rc h n = of_hs 16 refl h
  error_of_code-code_of_error NimbleError.no_mem_evt rc h n = of_hs 17 refl h
  error_of_code-code_of_error NimbleError.no_addr rc h n = of_hs 18 refl h
  error_of_code-code_of_error NimbleError.not_synced rc h n = of_hs 19 refl h
  error_of_code-code_of_error NimbleError.authen rc h n = of_hs 20 refl h
  error_of_code-code_of_error NimbleError.author rc h n = of_hs 21 refl h
  error_of_code-code_of_error NimbleError.encrypt rc h n = of_hs 22 refl h
  error_of_code-code_of_error NimbleError.encrypt_key_size rc h n = of_hs 23 refl h
  error_of_code-code_of_error NimbleError.store_cap rc h n = of_hs 24 refl h
  error_of_code-code_of_error NimbleError.store_fail rc h n = of_hs 25 refl h
  error_of_code-code_of_error NimbleError.att_invalid_handle rc h n = of_att 0 refl h
  error_of_code-code_of_error NimbleError.att_read_not_permitted rc h n = of_att 1 refl h
  error_of_code-code_of_error NimbleError.att_write_not_permitted rc h n = of_att 2 refl h
  error_of_code-code_of_error NimbleError.att_invalid_pdu rc h n = of_att 3 refl h
  error_of_code-code_of_error NimbleError.att_insufficient_authen rc h n = of_att 4 refl h
  error_of_code-code_of_error NimbleError.att_req_not_supported rc h n = of_att 5 refl h
  error_of_code-code_of_error NimbleError.att_invalid_offset rc h n = of_att 6 refl h
  error_of_code-code_of_error NimbleError.att_insufficient_author rc h n = of_att 7 refl h
  error_of_code-code_of_error NimbleError.att_prepare_queue_full rc h n = of_att 8 refl h
  error_of_code-code_of_error NimbleError.att_attr_not_found rc h n = of_att 9 refl h
  error_of_code-code_of_error NimbleError.att_attr_not_long rc h n = of_att 10 refl h
  error_of_code-code_of_error NimbleError.att_insufficient_key_size rc h n = of_att 11 refl h
  error_of_code-code_of_error NimbleError.att_invalid_attr_value_len rc h n = of_att 12 refl h
  error_of_code-code_of_error NimbleError.att_unlikely rc h n = of_att 13 refl h
  error_of_code-code_of_error NimbleError.att_insufficient_enc rc h n = of_att 14 refl h
  error_of_code-code_of_error NimbleError.att_unsupported_group rc h n = of_att 15 refl h
  error_of_code-code_of_error NimbleError.att_insufficient_res rc h n = of_att 16 refl h
  error_of_code-code_of_error NimbleError.hci_unknown_cmd rc h n = of_hci 1 refl h
  error_of_code-code_of_error NimbleError.hci_unknown_conn_id rc h n = of_hci 2 refl h
  error_of_code-code_of_error NimbleError.hci_conn_term_local rc h n = of_hci 3 refl h
  error_of_code-code_of_error NimbleError.hci_conn_term_remote rc h n = of_hci 0 refl h
  error_of_code-code_of_error NimbleError.hci_conn_establishment rc h n = of_hci 4 refl h
  error_of_code-code_of_error (NimbleError.att_mtu_zero handle) rc h n = cc
  error_of_code-code_of_error NimbleError.mbuf_creation_failed rc h n = cc
  error_of_code-code_of_error (NimbleError.c_string_conversion_failed s) rc h n = cc
  error_of_code-code_of_error (NimbleError.other code) rc h n =
      absurd (n (ap NimbleError.other (some-injective _ _ h)))

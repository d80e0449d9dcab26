-- ===== src/Build/Patch.antt =====
-- build.rs: the patches of NimBLE's sources.
pub mod Laws
use esp_nimble_host.Prelude.{
  ℕ, zero, suc, Option, none, some, List, [], ◌∷◌, ◌++◌, if◌then◌else◌, length,
}
use esp_nimble_host.Prelude as Number
use text.Mathlib.Text.{◌==◌}
use Prim.Native.String.{String}
use esp_nimble_host.Build.Text.{codes, strip_prefix}

-- `str::find`: what stands before and behind the first occurrence.
unfoldable pub find : List ℕ → List ℕ → Option (List ℕ × List ℕ)
find needle [] = elim (strip_prefix needle []) [ none ↦ none | some after ↦ some ([], after) ]
find needle (c ∷ cs) =
    let rest = find needle cs in
    elim (strip_prefix needle (c ∷ cs)) [
      | some after ↦ some ([], after)
      | none ↦ elim rest [ none ↦ none | some (before, after) ↦ some (c ∷ before, after) ]
    ]

-- `matches(needle).count()`: occurrences that do not overlap, from the left. A text has no more than
-- its length of them, when the needle is not empty.
count_from : ℕ → List ℕ → List ℕ → ℕ
unfolding find
count_from zero needle text = 0
count_from (suc fuel) needle text = elim (find needle text) [
  | none ↦ 0
  | some (before, after) ↦ suc (count_from fuel needle after)
]

unfoldable pub count : List ℕ → List ℕ → ℕ
unfolding count_from
count needle text = count_from (suc (length text)) needle text

-- `replacen(needle, replacement, 1)`
unfoldable pub replace_first : List ℕ → List ℕ → List ℕ → List ℕ
unfolding find
replace_first needle replacement text = elim (find needle text) [
  | none ↦ text
  | some (before, after) ↦ before ++ (replacement ++ after)
]

-- The files of a source tree, by their paths in it.
abbrev pub Tree : Type 0
Tree = String → Option (List ℕ)

abbrev pub write : String → List ℕ → Tree → Tree
write file text tree path = if file == path then some text else tree path

-- `none` is a panic: the file cannot be read, or the pattern does not occur exactly once.
unfoldable pub apply_patch : String → List ℕ → List ℕ → Tree → Option Tree
unfolding count replace_first
apply_patch file needle replacement tree = elim (tree file) [
  | none ↦ none
  | some src ↦
      if Number.◌==◌ (count needle src) 1
      then some (write file (replace_first needle replacement src) tree)
      else none
]

abbrev pub os_mempool_file : String
os_mempool_file = "porting/nimble/src/os_mempool.c"

abbrev pub os_mempool_needle : List ℕ
os_mempool_needle =
    codes
      "        if (block) {\n            os_mempool_poison_check(mp, block);\n            os_mempool_guard_check(mp, block);\n        }"

abbrev pub os_mempool_replacement : List ℕ
os_mempool_replacement =
    codes
      "        if (block) {\n            os_mempool_poison_check(mp, block);\n            os_mempool_guard_check(mp, block);\n            /* [esp-nimble-host patch] Zero block so that ble_npl_event.dummy\n             * is 0 after re-allocation from the pool.  See build.rs for the\n             * full rationale (stale free-list pointers vs. ble_npl_event_init). */\n            memset(block, 0, mp->mp_block_size);\n        }"

unfoldable pub patch_os_mempool_zero_on_alloc : Tree → Option Tree
unfolding apply_patch
patch_os_mempool_zero_on_alloc =
    apply_patch os_mempool_file os_mempool_needle os_mempool_replacement

abbrev pub ble_hs_file : String
ble_hs_file = "nimble/host/src/ble_hs.c"

abbrev pub ble_hs_needle : List ℕ
ble_hs_needle = codes "    rc = os_memblock_put(&ble_hs_hci_ev_pool, ev);"

abbrev pub ble_hs_replacement : List ℕ
ble_hs_replacement =
    codes
      "    /* [esp-nimble-host patch] Free the heap-allocated Event struct before\n     * returning the block to the pool.  Without this, the Event is leaked\n     * every time the pool recycles a block.  See build.rs for details. */\n    { extern void ble_npl_event_deinit(struct ble_npl_event *ev); ble_npl_event_deinit(ev); }\n    rc = os_memblock_put(&ble_hs_hci_ev_pool, ev);"

unfoldable pub patch_ble_hs_event_deinit_before_pool_put : Tree → Option Tree
unfolding apply_patch
patch_ble_hs_event_deinit_before_pool_put = apply_patch ble_hs_file ble_hs_needle ble_hs_replacement

abbrev pub ble_gattc_file : String
ble_gattc_file = "nimble/host/src/ble_gattc.c"

abbrev pub ble_gattc_needle : List ℕ
ble_gattc_needle =
    codes "    if (proc->disc_all_chrs.prev_handle + 1 >= proc->disc_all_chrs.end_handle - 1) {"

abbrev pub ble_gattc_replacement : List ℕ
ble_gattc_replacement =
    codes
      "    /* [esp-nimble-host patch] Off-by-one: compare against end_handle, not\n     * end_handle - 1, or the service's last characteristic is dropped when\n     * it occupies the final two handles. See build.rs for details. */\n    if (proc->disc_all_chrs.prev_handle + 1 >= proc->disc_all_chrs.end_handle) {"

unfoldable pub patch_ble_gattc_disc_all_chrs_last_char : Tree → Option Tree
unfolding apply_patch
patch_ble_gattc_disc_all_chrs_last_char =
    apply_patch ble_gattc_file ble_gattc_needle ble_gattc_replacement

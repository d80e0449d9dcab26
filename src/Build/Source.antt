-- ===== src/Build/Source.antt =====
-- build.rs: the tree of NimBLE's sources that a build makes in its output directory.
pub mod Laws
mod Tests
use mathlib.Core.Option
use esp_nimble_host.Prelude.{ℕ, zero, suc, ◌≡◌, Option, none, some, List}
use esp_nimble_host.Build.Patch.{
  Tree, patch_os_mempool_zero_on_alloc, patch_ble_hs_event_deinit_before_pool_put,
  patch_ble_gattc_disc_all_chrs_last_char,
}

-- The output directory: the cached tarball, the file that a download goes to, and the tree.
pub record OutDir : Type 0 where
  pub tarball : Option (List ℕ)
  pub partial : Option (List ℕ)
  pub tree : Option Tree

-- The places between the calls that change the directory.
pub data Stage : Type 0 where
  start downloaded cached removed extracted pool_patched event_patched patched : Stage

abbrev pub with_tree : OutDir → Stage → Option Tree → Option (Stage × OutDir)
with_tree d s none = none
with_tree d s (some t) = some (s, record d { tree = some t })

abbrev pub and_then : Option Tree → (Tree → Option Tree) → Option Tree
and_then none f = none
and_then (some t) f = f t

-- A tree after the files of another one were written into it.
pub overlay : Option Tree → Tree → Tree
overlay none files = files
overlay (some there) files = λ path. elim (files path) [ none ↦ there path | some text ↦ some text ]

-- What the server answers with, and the tree that a tarball unpacks to; `none` is a failure. A
-- tarball without the expected directory is one, too.
module _ (get : Option (List ℕ)) (unpack : List ℕ → Option Tree) where
  -- `!tarball.exists()`
  pub download : OutDir → Option (List ℕ) → Option (Stage × OutDir)
  download d none = none
  download d (some body) = some (downloaded, record d { partial = some body })

  pub ensure_tarball : OutDir → Option (List ℕ) → Option (Stage × OutDir)
  unfolding download
  ensure_tarball d none = download d get
  ensure_tarball d (some tarball) = some (cached, d)

  pub rename_partial : OutDir → Option (List ℕ) → Option (Stage × OutDir)
  rename_partial d none = none
  rename_partial d (some body) = some (cached, record d { tarball = some body; partial = none })

  -- `Archive::unpack` writes over the files that are there and leaves the others.
  pub extract : OutDir → Option (List ℕ) → Option (Stage × OutDir)
  unfolding overlay
  extract d none = none
  extract d (some tarball) = with_tree d extracted (Option.map (overlay d.tree) (unpack tarball))

  -- `ensure_nimble_source` and the patches that `main` makes after it, one change of the directory
  -- at a time. `none` is the end, or a panic.
  unfoldable pub step : Stage → OutDir → Option (Stage × OutDir)
  unfolding ensure_tarball rename_partial extract
  step start d = ensure_tarball d d.tarball
  step downloaded d = rename_partial d d.partial
  step cached d = some (removed, record d { tree = none })
  step removed d = extract d d.tarball
  step extracted d = with_tree d pool_patched (and_then d.tree patch_os_mempool_zero_on_alloc)
  step pool_patched d =
      with_tree d event_patched (and_then d.tree patch_ble_hs_event_deinit_before_pool_put)
  step event_patched d =
      with_tree d patched (and_then d.tree patch_ble_gattc_disc_all_chrs_last_char)
  step patched d = none

  -- A build that is not interrupted.
  unfoldable pub build : ℕ → Stage → OutDir → Stage × OutDir
  build zero s d = (s, d)
  build (suc fuel) s d = elim (step s d) [ none ↦ (s, d) | some (s', d') ↦ build fuel s' d' ]

  -- What any number of builds can make of a directory when each may be interrupted at any place: by
  -- then a download is written in part, and the tree may hold anything.
  pub data Reachable (origin : OutDir) : Stage → OutDir → Type 0 where
    begin : Reachable origin start origin
    next :
        {s s' : Stage} {d d' : OutDir}
        → Reachable origin s d
        → step s d ≡ some (s', d')
        → Reachable origin s' d'
    torn_download :
        {d : OutDir} (bytes : List ℕ)
        → Reachable origin start d
        → d.tarball ≡ none
        → Reachable origin start (record d { partial = some bytes })
    interrupted :
        {s : Stage} {d : OutDir} (t : Option Tree)
        → Reachable origin s d
        → Reachable origin start (record d { tree = t })

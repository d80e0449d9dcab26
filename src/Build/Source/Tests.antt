-- ===== src/Build/Source/Tests.antt =====
-- A patch and the source tree of build.rs at concrete inputs.
use esp_nimble_host.Prelude.{
  length-append, ap, ℕ, ◌≡◌, refl, Option, none, some, List, [], ◌∷◌, ◌++◌, arith, length, inl,
}
use esp_nimble_host.Build.Text.{strip_prefix}
use esp_nimble_host.Build.Patch.{
  Tree, write, apply_patch, os_mempool_file, os_mempool_needle, os_mempool_replacement, ble_hs_file,
  ble_hs_needle, ble_hs_replacement, ble_gattc_file, ble_gattc_needle, ble_gattc_replacement,
  patch_os_mempool_zero_on_alloc, patch_ble_hs_event_deinit_before_pool_put,
  patch_ble_gattc_disc_all_chrs_last_char,
}
use esp_nimble_host.Build.Patch.Laws.{Once, apply_patch-Once}
use esp_nimble_host.Build.Source.{
  pool_patched, OutDir, start, patched, step, build, Reachable, begin, next, torn_download,
  interrupted,
}
use esp_nimble_host.Build.Source.Laws.{pristine_patched, Reachable-pristine_patched, build-patched}

-- A tree with the three files, each of them the code that is patched.
abbrev pristine : Tree
pristine =
    write os_mempool_file os_mempool_needle
      (write ble_hs_file ble_hs_needle (write ble_gattc_file ble_gattc_needle (λ path. none)))

abbrev result : Tree
result = write ble_gattc_file (ble_gattc_replacement ++ []) (
    write ble_hs_file (ble_hs_replacement ++ [])
      (write os_mempool_file (os_mempool_replacement ++ []) pristine))

abbrev unpack : List ℕ → Option Tree
unpack body = some pristine

abbrev tarball : List ℕ
tarball = 31 ∷ 139 ∷ []

pristine_patched-result : pristine_patched unpack tarball ≡ some result
unfolding apply_patch patch_os_mempool_zero_on_alloc patch_ble_hs_event_deinit_before_pool_put
    patch_ble_gattc_disc_all_chrs_last_char strip_prefix
pristine_patched-result = refl

-- An output directory after a first build that was interrupted in its download.
abbrev torn : OutDir
torn = record { tarball = none; partial = some (31 ∷ []); tree = none }

abbrev empty_dir : OutDir
empty_dir = record { tarball = none; partial = none; tree = none }

build-patched_example :
    (d : OutDir) × (build (some tarball) unpack 8 start torn ≡ (patched, d))
    × (d.tree ≡ some result)
build-patched_example = build-patched unpack tarball torn result (inl refl) pristine_patched-result

torn-Reachable : Reachable (some tarball) unpack empty_dir start torn
torn-Reachable = torn_download (31 ∷ []) begin refl

-- The next build is interrupted as well, after the first patch.
abbrev first_patch : Tree
first_patch = write os_mempool_file (os_mempool_replacement ++ []) pristine

abbrev left : OutDir
left = record { tarball = some tarball; partial = none; tree = some first_patch }

left-Reachable : Reachable (some tarball) unpack empty_dir pool_patched left
unfolding step strip_prefix patch_os_mempool_zero_on_alloc
left-Reachable = next (next (next (next (next torn-Reachable refl) refl) refl) refl) refl

-- And the one after that gets to its end.
abbrev finished : OutDir
finished = record { tarball = some tarball; partial = none; tree = some result }

finished-Reachable : Reachable (some tarball) unpack empty_dir patched finished
unfolding step strip_prefix patch_os_mempool_zero_on_alloc patch_ble_hs_event_deinit_before_pool_put
    patch_ble_gattc_disc_all_chrs_last_char
finished-Reachable =
    next
      (next
        (next (next (next (next (interrupted (some first_patch) left-Reachable) refl) refl) refl)
          refl)
        refl)
      refl

Reachable-pristine_patched_example :
    (finished.tarball ≡ some tarball) × (finished.tree ≡ pristine_patched unpack tarball)
Reachable-pristine_patched_example =
    Reachable-pristine_patched unpack tarball (inl refl) finished-Reachable

-- The letter b in abc.
abc_once : (b a : List ℕ) → 97 ∷ 98 ∷ 99 ∷ [] ≡ b ++ (98 ∷ a) → b ≡ 97 ∷ []
abc_once [] a e = absurd (ground arith)
abc_once (x ∷ []) a e = ground arith
abc_once (x ∷ y ∷ []) a e = absurd (ground arith)
abc_once (x ∷ y ∷ z ∷ b) a e = absurd (omega (arith, ap length e, length-append b (98 ∷ a)))

abc-Once : Once (98 ∷ []) (97 ∷ 98 ∷ 99 ∷ []) (97 ∷ []) (99 ∷ [])
abc-Once = (refl, abc_once)

apply_patch-Once_example :
    apply_patch "f" (98 ∷ []) (66 ∷ []) (λ path. some (97 ∷ 98 ∷ 99 ∷ []))
    ≡ some (write "f" (97 ∷ 66 ∷ 99 ∷ []) (λ path. some (97 ∷ 98 ∷ 99 ∷ [])))
apply_patch-Once_example =
    apply_patch-Once "f" (98 ∷ []) (66 ∷ []) (97 ∷ 98 ∷ 99 ∷ []) (97 ∷ []) (99 ∷ [])
      (λ path. some (97 ∷ 98 ∷ 99 ∷ [])) (omega arith) refl abc-Once

-- ===== src/Build/Source/Laws.antt =====
-- What interrupted builds of build.rs leave behind.
use esp_nimble_host.Prelude.{
  suc, subst, ℕ, zero, suc, ◌≡◌, refl, sym, ap, ◌∙◌, ◌⊎◌, inl, inr, Option, none, some, List, arith,
}
use esp_nimble_host.Build.Patch.{
  Tree, patch_os_mempool_zero_on_alloc, patch_ble_hs_event_deinit_before_pool_put,
  patch_ble_gattc_disc_all_chrs_last_char,
}
use mathlib.Core.Option
use mathlib.Core.Option.{some-injective}
use esp_nimble_host.Build.Source.{
  overlay, rename_partial, ensure_tarball, extract, OutDir, Stage, start, downloaded, cached,
  removed, extracted, pool_patched, event_patched, patched, with_tree, and_then, step, build,
  Reachable, begin, next, torn_download, interrupted,
}

module _ (unpack : List ℕ → Option Tree) (body : List ℕ) where
  -- The sources of the tarball with each patch made once.
  abbrev pub pristine_patched : Option Tree
  pristine_patched =
      and_then
        (and_then (and_then (unpack body) patch_os_mempool_zero_on_alloc)
          patch_ble_hs_event_deinit_before_pool_put)
        patch_ble_gattc_disc_all_chrs_last_char

  -- No tarball, or the whole one.
  abbrev pub IsCached : OutDir → Type 0
  IsCached d = (d.tarball ≡ none) ⊎ (d.tarball ≡ some body)

  abbrev AtStage : Stage → OutDir → Type 0
  AtStage start d = IsCached d
  AtStage downloaded d = IsCached d × (d.partial ≡ some body)
  AtStage cached d = d.tarball ≡ some body
  AtStage removed d = (d.tarball ≡ some body) × (d.tree ≡ none)
  AtStage extracted d = (d.tarball ≡ some body) × (d.tree ≡ unpack body)
  AtStage pool_patched d =
      (d.tarball ≡ some body) × (d.tree ≡ and_then (unpack body) patch_os_mempool_zero_on_alloc)
  AtStage event_patched d =
      (d.tarball ≡ some body)
      × (d.tree
          ≡ and_then (and_then (unpack body) patch_os_mempool_zero_on_alloc)
              patch_ble_hs_event_deinit_before_pool_put)
  AtStage patched d = (d.tarball ≡ some body) × (d.tree ≡ pristine_patched)

  AtStage-IsCached : (s : Stage) (d : OutDir) → AtStage s d → IsCached d
  AtStage-IsCached start d h = h
  AtStage-IsCached downloaded d h = h.0
  AtStage-IsCached cached d h = inr h
  AtStage-IsCached removed d h = inr h.0
  AtStage-IsCached extracted d h = inr h.0
  AtStage-IsCached pool_patched d h = inr h.0
  AtStage-IsCached event_patched d h = inr h.0
  AtStage-IsCached patched d h = inr h.0

  abbrev After : Option (Stage × OutDir) → Type 0
  After none = Unit {0}
  After (some (s, d)) = AtStage s d

  module _ (d : OutDir) where
    ensure_tarball-After :
        (o : Option (List ℕ))
        → d.tarball ≡ o
        → IsCached d
        → After (ensure_tarball (some body) unpack d o)
    unfolding ensure_tarball
    ensure_tarball-After none e h = (h, refl)
    ensure_tarball-After (some t) e h = ground arith

    rename_partial-After :
        (o : Option (List ℕ)) → o ≡ some body → After (rename_partial (some body) unpack d o)
    unfolding rename_partial
    rename_partial-After none h = tt
    rename_partial-After (some t) h = h

    with_tree-After :
        (s : Stage) (o : Option Tree)
        → ((t : Tree) → o ≡ some t → AtStage s (record d { tree = some t }))
        → After (with_tree d s o)
    with_tree-After s none f = tt
    with_tree-After s (some t) f = f t refl

    extract-After :
        (o : Option (List ℕ))
        → d.tarball ≡ some body
        → d.tree ≡ none
        → o ≡ some body
        → After (extract (some body) unpack d o)
    unfolding extract
    extract-After none t n h = tt
    extract-After (some x) t n h =
        with_tree-After extracted _
          (λ r e. (t, sym e ∙ fresh (unpack x) ∙ ap unpack (some-injective _ _ h)))
      where
        fresh : (o : Option Tree) → Option.map (overlay d.tree) o ≡ o
        fresh none = refl
        fresh (some files) = rw (n, overlay) refl

    step-After : (s : Stage) → AtStage s d → After (step (some body) unpack s d)
    unfolding step
    step-After start h = ensure_tarball-After d.tarball refl h
    step-After downloaded h = rename_partial-After d.partial h.1
    step-After cached h = (h, refl)
    step-After removed h = extract-After d.tarball h.0 h.1 h.0
    step-After extracted h =
        with_tree-After pool_patched _
          (λ r e. (h.0, sym e ∙ ap (λ t. and_then t patch_os_mempool_zero_on_alloc) h.1))
    step-After pool_patched h =
        with_tree-After event_patched _
          (λ r e. (h.0, sym e ∙ ap (λ t. and_then t patch_ble_hs_event_deinit_before_pool_put) h.1))
    step-After event_patched h =
        with_tree-After patched _
          (λ r e. (h.0, sym e ∙ ap (λ t. and_then t patch_ble_gattc_disc_all_chrs_last_char) h.1))
    step-After patched h = tt

  Reachable-AtStage :
      {origin : OutDir} {s : Stage} {d : OutDir}
      → IsCached origin
      → Reachable (some body) unpack origin s d
      → AtStage s d
  Reachable-AtStage c begin = c
  Reachable-AtStage c (next {s} {d = d} r e) =
      subst After e (step-After d s (Reachable-AtStage c r))
  Reachable-AtStage c (torn_download bytes r e) = inl e
  Reachable-AtStage c (interrupted {s} {d} t r) = AtStage-IsCached s d (Reachable-AtStage c r)

  -- A build that gets to its end has the sources of the tarball with each patch made exactly once,
  -- however often builds were interrupted before. The server always sends the same tarball.
  pub Reachable-pristine_patched :
      {origin d : OutDir}
      → IsCached origin
      → Reachable (some body) unpack origin patched d
      → (d.tarball ≡ some body) × (d.tree ≡ pristine_patched)
  Reachable-pristine_patched c r = Reachable-AtStage c r

  and_then-some :
      (o : Option Tree) (f : Tree → Option Tree) (t : Tree)
      → and_then o f ≡ some t
      → (u : Tree) × (o ≡ some u) × (f u ≡ some t)
  and_then-some none f t h = cc
  and_then-some (some u) f t h = (u, refl, h)

  build_end : (fuel : ℕ) (d : OutDir) → build (some body) unpack fuel patched d ≡ (patched, d)
  unfolding build step
  build_end zero d = refl
  build_end (suc fuel) d = refl

  -- From the point where the tarball is there, to the end.
  build_cached :
      (fuel : ℕ) (d : OutDir) (t : Tree)
      → d.tarball ≡ some body
      → pristine_patched ≡ some t
      → build (some body) unpack (suc (suc (suc (suc (suc fuel))))) cached d
        ≡ (patched, record d { tree = some t })
  unfolding build step
  build_cached fuel d t c p =
      let (w, hw, p3) = and_then-some _ patch_ble_gattc_disc_all_chrs_last_char t p in
      let (v, hv, p2) = and_then-some _ patch_ble_hs_event_deinit_before_pool_put w hw in
      let (u, hu, p1) = and_then-some _ patch_os_mempool_zero_on_alloc v hv in
      ground (arith, build_end fuel (record d { tree = some t }))

  -- A build ends, whatever earlier ones left, with the patched sources, when the tarball unpacks and
  -- its patches apply.
  pub build-patched :
      (d : OutDir) (t : Tree)
      → IsCached d
      → pristine_patched ≡ some t
      → (d' : OutDir) × (build (some body) unpack 8 start d ≡ (patched, d')) × (d'.tree ≡ some t)
  unfolding build step
  build-patched d t (inl n) p =
      let full = record d { tarball = some body; partial = none } in
      (record full { tree = some t }, ground (arith, build_cached 1 full t refl p), refl)
  build-patched d t (inr c) p =
      (record d { tree = some t }, ground (arith, build_cached 2 d t c p), refl)

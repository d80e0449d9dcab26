-- ===== src/Discovery/Enrich/Frame.antt =====
-- What the loop over the characteristics does to one of them, and what it leaves alone.
use esp_nimble_host.Characteristic.{Characteristic, Descriptor}
use esp_nimble_host.Platform.{Platform}
use esp_nimble_host.Prelude.{
  ℕ, ◌+◌, ◌<◌, ◌≤◌, ◌≡◌, refl, ◌⊎◌, inl, inr, List, [], ◌∷◌, map, arith, ok, err, ◌>>=◌, leb,
  Bool-cases,
}
use esp_nimble_host.Error.{GattResult}
use esp_nimble_host.Discovery.Enrich.{descriptor_end, enrich_characteristics}

module _ (P : Platform) where
  -- The first handle behind a characteristic: the definition of the next one, or the end of the
  -- service.
  abbrev pub limit : List (Characteristic P) → ℕ → ℕ
  limit [] svc_end = svc_end + 1
  limit (next ∷ rest) svc_end = next.def_handle

module _ (P : Platform) (discover : ℕ → ℕ → GattResult (List (Descriptor P))) where
  -- Either there is no room for descriptors and the characteristic keeps its own, or they are what
  -- a discovery over a range that is not empty returned.
  abbrev pub Queried : ℕ → Characteristic P → List (Characteristic P) → List (Descriptor P) → Type 0
  Queried svc_end c rest ds =
      ((descriptor_end P rest svc_end ≤ c.handle) × (ds ≡ c.descriptors))
      ⊎ ((c.handle < descriptor_end P rest svc_end)
          × (discover c.handle (descriptor_end P rest svc_end) ≡ ok ds))

  abbrev pub Enriched :
      ℕ → Characteristic P → List (Characteristic P) → List (Characteristic P) → Type 0
  Enriched svc_end c rest out =
      (ds : List (Descriptor P)) × (others : List (Characteristic P)) × (out
        ≡ record c { descriptors = ds } ∷ others)
      × (enrich_characteristics P discover svc_end rest ≡ ok others)
      × Queried svc_end c rest ds

  queried_cons :
      (svc_end : ℕ) (c : Characteristic P) (rest out : List (Characteristic P))
      (r : GattResult (List (Descriptor P))) (others : GattResult (List (Characteristic P)))
      → c.handle < descriptor_end P rest svc_end
      → discover c.handle (descriptor_end P rest svc_end) ≡ r
      → enrich_characteristics P discover svc_end rest ≡ others
      → (r >>= λ ds. others >>= λ cs. ok (record c { descriptors = ds } ∷ cs)) ≡ ok out
      → Enriched svc_end c rest out
  queried_cons svc_end c rest out (err e) others h er eo k = cc
  queried_cons svc_end c rest out (ok ds) (err e) h er eo k = cc
  queried_cons svc_end c rest out (ok ds) (ok cs) h er eo k =
      (ds, cs, ground arith, eo, inr (h, er))

  skipped_cons :
      (svc_end : ℕ) (c : Characteristic P) (rest out : List (Characteristic P))
      (others : GattResult (List (Characteristic P)))
      → descriptor_end P rest svc_end ≤ c.handle
      → enrich_characteristics P discover svc_end rest ≡ others
      → (others >>= λ cs. ok (c ∷ cs)) ≡ ok out
      → Enriched svc_end c rest out
  skipped_cons svc_end c rest out (err e) h eo k = cc
  skipped_cons svc_end c rest out (ok cs) h eo k =
      (c.descriptors, cs, ground arith, eo, inl (h, refl))

  -- One round of the loop that succeeds.
  pub enrich_cons :
      (svc_end : ℕ) (c : Characteristic P) (rest out : List (Characteristic P))
      → enrich_characteristics P discover svc_end (c ∷ rest) ≡ ok out
      → Enriched svc_end c rest out
  unfolding enrich_characteristics
  enrich_cons svc_end c rest out h =
      elim (Bool-cases (leb (descriptor_end P rest svc_end) c.handle)) [
        | inl e ↦
            skipped_cons svc_end c rest out _ (ground arith) refl
              (rw (enrich_characteristics, e) at h)
        | inr e ↦
            queried_cons svc_end c rest out _ _ (ground arith) refl refl
              (rw (enrich_characteristics, e) at h)
      ]

  limit-Enriched :
      (svc_end : ℕ) (c : Characteristic P) (rest out : List (Characteristic P))
      → Enriched svc_end c rest out
      → limit P out svc_end ≡ c.def_handle
  limit-Enriched svc_end c rest out (ds, others, e, _, _) = rw e refl

  pub limit-enrich :
      (svc_end : ℕ) (cs out : List (Characteristic P))
      → enrich_characteristics P discover svc_end cs ≡ ok out
      → limit P out svc_end ≡ limit P cs svc_end
  unfolding enrich_characteristics
  limit-enrich svc_end [] [] h = refl
  limit-enrich svc_end [] (x ∷ xs) h = cc
  limit-enrich svc_end (c ∷ rest) out h =
      limit-Enriched svc_end c rest out (enrich_cons svc_end c rest out h)

  -- All of a characteristic but its descriptors.
  abbrev pub layout : Characteristic P → P.Uuid × ℕ × ℕ
  layout c = (c.uuid, c.handle, c.def_handle)

  layout_step :
      (svc_end : ℕ) (c : Characteristic P) (rest out : List (Characteristic P))
      → Enriched svc_end c rest out
      → ((others : List (Characteristic P))
          → enrich_characteristics P discover svc_end rest ≡ ok others
          → map layout others ≡ map layout rest)
      → map layout out ≡ map layout (c ∷ rest)
  layout_step svc_end c rest out (ds, others, e, er, _) ih = rw (e, ih others er) refl

  -- If the loop succeeds, it keeps every characteristic in its place, and changes nothing but the
  -- descriptors.
  pub enrich_characteristics-layout :
      (svc_end : ℕ) (cs out : List (Characteristic P))
      → enrich_characteristics P discover svc_end cs ≡ ok out
      → map layout out ≡ map layout cs
  unfolding enrich_characteristics
  enrich_characteristics-layout svc_end [] [] h = refl
  enrich_characteristics-layout svc_end [] (x ∷ xs) h = cc
  enrich_characteristics-layout svc_end (c ∷ rest) out h =
      layout_step svc_end c rest out (enrich_cons svc_end c rest out h)
        (λ others er. enrich_characteristics-layout svc_end rest others er)

-- ===== src/Discovery/Enrich/Ranges.antt =====
-- The handles of the descriptors that `enrich_service` of src/discovery.rs gives a characteristic.
use esp_nimble_host.Discovery.Enrich.Frame.{Queried, limit-enrich, Enriched, limit, enrich_cons}
use esp_nimble_host.Characteristic.{Characteristic, Descriptor}
use esp_nimble_host.Platform.{Platform}
use esp_nimble_host.Prelude.{
  ℕ, ◌+◌, ◌-◌, ◌<◌, ◌≤◌, ◌⊎◌, ◌≡◌, refl, subst, inl, inr, List, [], ◌∷◌, arith, ok, All,
}
use esp_nimble_host.Error.{GattResult}
use esp_nimble_host.Discovery.Enrich.{descriptor_end, enrich_characteristics}

module _ (P : Platform) where
  -- The handles rise: definition, value, next definition, up to the end of the service.
  abbrev pub Ordered : ℕ → List (Characteristic P) → Type 0
  Ordered svc_end [] = Unit {0}
  Ordered svc_end (c ∷ rest) =
      (c.def_handle < c.handle) × (c.handle < limit P rest svc_end) × Ordered svc_end rest

  abbrev pub Between : ℕ → ℕ → List (Descriptor P) → Type 0
  Between lo hi = All (λ d. (lo < d.handle) × (d.handle < hi))

  -- The descriptors of a characteristic lie behind its value and before the next definition.
  abbrev pub Owned : ℕ → List (Characteristic P) → Type 0
  Owned svc_end [] = Unit {0}
  Owned svc_end (c ∷ rest) =
      Between c.handle (limit P rest svc_end) c.descriptors × Owned svc_end rest

  -- What a server answers when it is asked for the descriptors of a range.
  abbrev pub AnswersInRange : (ℕ → ℕ → GattResult (List (Descriptor P))) → Type 0
  AnswersInRange discover =
      (lo hi : ℕ) (ds : List (Descriptor P)) → discover lo hi ≡ ok ds → Between lo (hi + 1) ds

  limit-descriptor_end :
      (svc_end handle : ℕ) (rest : List (Characteristic P))
      → handle < limit P rest svc_end
      → descriptor_end P rest svc_end + 1 ≡ limit P rest svc_end
  unfolding descriptor_end
  limit-descriptor_end svc_end handle [] h = refl
  limit-descriptor_end svc_end handle (next ∷ rest) h = omega arith

  module _ (discover : ℕ → ℕ → GattResult (List (Descriptor P))) where
    -- With a handle between a characteristic's value and what follows it, its descriptors are what
    -- the query for exactly those handles returned; without one, they are the ones it had.
    abbrev pub Asked : ℕ → Characteristic P → List (Characteristic P) → List (Descriptor P) → Type 0
    Asked svc_end c rest ds =
        ((limit P rest svc_end ≤ c.handle + 1) × (ds ≡ c.descriptors))
        ⊎ ((c.handle + 1 < limit P rest svc_end)
            × (discover c.handle (limit P rest svc_end - 1) ≡ ok ds))

    -- Every characteristic in its place, with the descriptors that it was to get.
    abbrev pub Answered : ℕ → List (Characteristic P) → List (Characteristic P) → Type 0
    Answered svc_end [] out = out ≡ []
    Answered svc_end (c ∷ rest) out =
        (ds : List (Descriptor P)) × (others : List (Characteristic P)) × (out
          ≡ record c { descriptors = ds } ∷ others)
        × Asked svc_end c rest ds
        × Answered svc_end rest others

    Asked-Queried :
        (svc_end : ℕ) (c : Characteristic P) (rest : List (Characteristic P))
        (ds : List (Descriptor P))
        → c.handle < limit P rest svc_end
        → Queried P discover svc_end c rest ds
        → Asked svc_end c rest ds
    Asked-Queried svc_end c rest ds o (inl (h, e)) =
        inl (omega (arith, limit-descriptor_end svc_end c.handle rest o), e)
    Asked-Queried svc_end c rest ds o (inr (h, e)) =
        let l = limit-descriptor_end svc_end c.handle rest o in
        let hi : descriptor_end P rest svc_end ≡ limit P rest svc_end - 1 = omega arith in
        inr (omega arith, subst (λ (n : ℕ). discover c.handle n ≡ ok ds) hi e)

    Answered-step :
        (svc_end : ℕ) (c : Characteristic P) (rest out : List (Characteristic P))
        → c.handle < limit P rest svc_end
        → Enriched P discover svc_end c rest out
        → ((others : List (Characteristic P))
            → enrich_characteristics P discover svc_end rest ≡ ok others
            → Answered svc_end rest others)
        → Answered svc_end (c ∷ rest) out
    Answered-step svc_end c rest out o (ds, others, e, er, q) ih =
        (ds, others, e, Asked-Queried svc_end c rest ds o q, ih others er)

    enrich_characteristics-Answered :
        (svc_end : ℕ) (cs out : List (Characteristic P))
        → Ordered svc_end cs
        → enrich_characteristics P discover svc_end cs ≡ ok out
        → Answered svc_end cs out
    unfolding enrich_characteristics
    enrich_characteristics-Answered svc_end [] [] o h = refl
    enrich_characteristics-Answered svc_end [] (x ∷ xs) o h = cc
    enrich_characteristics-Answered svc_end (c ∷ rest) out o h =
        Answered-step svc_end c rest out o.1 (enrich_cons P discover svc_end c rest out h)
          (λ others. enrich_characteristics-Answered svc_end rest others o.2)

  module _ (discover : ℕ → ℕ → GattResult (List (Descriptor P)))
      (answers : AnswersInRange discover) where
    own_descriptors :
        (svc_end : ℕ) (c : Characteristic P) (rest : List (Characteristic P))
        (ds : List (Descriptor P))
        → c.handle < limit P rest svc_end
        → Between c.handle (limit P rest svc_end) c.descriptors
        → Queried P discover svc_end c rest ds
        → Between c.handle (limit P rest svc_end) ds
    own_descriptors svc_end c rest ds o w (inl (_, e)) = rw e w
    own_descriptors svc_end c rest ds o w (inr (_, e)) =
        subst (λ (hi : ℕ). Between c.handle hi ds) (limit-descriptor_end svc_end c.handle rest o)
          (answers c.handle (descriptor_end P rest svc_end) ds e)

    Owned-step :
        (svc_end : ℕ) (c : Characteristic P) (rest out : List (Characteristic P))
        → Ordered svc_end (c ∷ rest)
        → Owned svc_end (c ∷ rest)
        → Enriched P discover svc_end c rest out
        → ((others : List (Characteristic P))
            → enrich_characteristics P discover svc_end rest ≡ ok others
            → Owned svc_end others × Ordered svc_end others)
        → Owned svc_end out × Ordered svc_end out
    Owned-step svc_end c rest out o w (ds, others, e, er, q) ih =
        let (wo, oo) = ih others er in
        let l = limit-enrich P discover svc_end rest others er in
        rw (e, l) ((own_descriptors svc_end c rest ds o.1 w.0 q, wo), (o.0, o.1, oo))

    enrich_characteristics-Ordered :
        (svc_end : ℕ) (cs out : List (Characteristic P))
        → Ordered svc_end cs
        → Owned svc_end cs
        → enrich_characteristics P discover svc_end cs ≡ ok out
        → Owned svc_end out × Ordered svc_end out
    unfolding enrich_characteristics
    enrich_characteristics-Ordered svc_end [] [] o w h = (tt, tt)
    enrich_characteristics-Ordered svc_end [] (x ∷ xs) o w h = cc
    enrich_characteristics-Ordered svc_end (c ∷ rest) out o w h =
        Owned-step svc_end c rest out o w (enrich_cons P discover svc_end c rest out h)
          (λ others. enrich_characteristics-Ordered svc_end rest others o.2 w.1)

    -- When the characteristics have rising handles and hold no descriptors of others, the server
    -- answers each query with descriptors of the range asked for, and the loop succeeds: every
    -- characteristic stays in its place with nothing changed but its descriptors. If there is a
    -- handle between its value and the next definition, or the end of the service, they are what
    -- the query for those handles returned, and else the ones it had. They lie in its own range.
    pub enrich_characteristics-Owned :
        (svc_end : ℕ) (cs out : List (Characteristic P))
        → Ordered svc_end cs
        → Owned svc_end cs
        → enrich_characteristics P discover svc_end cs ≡ ok out
        → Answered discover svc_end cs out × Owned svc_end out × Ordered svc_end out
    enrich_characteristics-Owned svc_end cs out o w h =
        let (owned, ordered) = enrich_characteristics-Ordered svc_end cs out o w h in
        (enrich_characteristics-Answered discover svc_end cs out o h, owned, ordered)

-- ===== src/Libc/Tests.antt =====
-- strncat of src/libc.rs at concrete texts.
use esp_nimble_host.Prelude.{
  ℕ, ◌≡◌, refl, ◌+◌, ◌==◌, if◌then◌else◌, some, List, [], ◌∷◌, ◌++◌, arith, length, ne→==,
}
use esp_nimble_host.Libc.{strncat}
use esp_nimble_host.Libc.Laws.{IsText, strncat_lem}

strlen : List ℕ → ℕ
strlen [] = 0
strlen (x ∷ xs) = let rest = strlen xs in if x == 0 then 0 else 1 + rest

strlen-length : (zs rest : List ℕ) → IsText zs → strlen (zs ++ 0 ∷ rest) ≡ length zs
unfolding strlen
strlen-length [] rest t = refl
strlen-length (z ∷ zs) rest (t, ts) = rw (ne→== z 0 t, strlen-length zs rest ts) (omega arith)

-- Two of three bytes are put behind two others.
strncat_lem_example :
    strncat strlen (65 ∷ 66 ∷ 0 ∷ 7 ∷ 8 ∷ 9 ∷ []) (67 ∷ 68 ∷ 69 ∷ 0 ∷ []) 2
    ≡ some (65 ∷ 66 ∷ 67 ∷ 68 ∷ 0 ∷ 9 ∷ [])
strncat_lem_example =
    strncat_lem strlen (65 ∷ 66 ∷ []) (7 ∷ 8 ∷ 9 ∷ []) (67 ∷ 68 ∷ 69 ∷ []) [] 2 strlen-length
      (omega arith, (omega arith, tt)) (omega arith, (omega arith, (omega arith, tt))) (omega arith)

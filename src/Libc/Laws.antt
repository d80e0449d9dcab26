-- ===== src/Libc/Laws.antt =====
-- What strncat of src/libc.rs leaves in memory.
use esp_nimble_host.Prelude.{
  ℕ, zero, suc, ◌≡◌, refl, ap, ◌≢◌, ◌≤◌, some, List, [], ◌∷◌, ◌++◌, arith, length, take, drop, All,
  ne→==,
}
use esp_nimble_host.Libc.{suc, put, before, append_loop, strncat}

take-append : (xs ys : List ℕ) → take (length xs) (xs ++ ys) ≡ xs
take-append [] ys = refl
take-append (x ∷ xs) ys = ap (λ zs. x ∷ zs) (take-append xs ys)

drop-append : (xs ys : List ℕ) → drop (length xs) (xs ++ ys) ≡ ys
drop-append [] ys = refl
drop-append (x ∷ xs) ys = drop-append xs ys

-- A text has no zero byte.
abbrev pub IsText : List ℕ → Type 0
IsText xs = All (λ c. c ≢ 0) xs

append_loop_text :
    (num : ℕ) (xs after room : List ℕ) (old : ℕ)
    → IsText xs
    → length (take num xs) ≤ length room
    → append_loop num (xs ++ 0 ∷ after) (old ∷ room)
      ≡ some (take num xs ++ 0 ∷ drop (length (take num xs)) room)
unfolding append_loop put
append_loop_text zero xs after room old t r = refl
append_loop_text (suc num) [] after room old t r = refl
append_loop_text (suc num) (x ∷ xs) after [] old (t, ts) r = absurd (ground arith)
append_loop_text (suc num) (x ∷ xs) after (y ∷ room) old (t, ts) r =
    rw (ne→== x 0 t, append_loop_text num xs after room y ts (omega arith)) refl

-- With room for them behind the text at `dest`, the first `num` bytes of the text at `src` are put
-- behind it and closed by a zero byte, all other memory is as it was, and no access leaves the
-- memory of the two pointers.
pub strncat_lem :
    (strlen : List ℕ → ℕ) (xs room ys after : List ℕ) (num : ℕ)
    → ((zs rest : List ℕ) → IsText zs → strlen (zs ++ 0 ∷ rest) ≡ length zs)
    → IsText xs
    → IsText ys
    → length (take num ys) ≤ length room
    → strncat strlen (xs ++ 0 ∷ room) (ys ++ 0 ∷ after) num
      ≡ some (xs ++ (take num ys ++ 0 ∷ drop (length (take num ys)) room))
unfolding strncat before
strncat_lem strlen xs room ys after num l tx ty r =
    rw
      (
        l xs room tx,
        take-append xs (0 ∷ room),
        drop-append xs (0 ∷ room),
        append_loop_text num ys after room 0 ty r,
      )
      refl

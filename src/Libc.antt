-- ===== src/Libc.antt =====
-- src/libc.rs: strncat, on the bytes from the two pointers to the ends of their memory.
pub mod Laws
mod Tests
use esp_nimble_host.Prelude.{
  suc, ℕ, zero, suc, Option, none, some, List, [], ◌∷◌, ◌++◌, ◌==◌, if◌then◌else◌, take, drop,
}

-- `*d = byte` at the first byte of some memory, which is `none` outside it.
put : ℕ → List ℕ → Option (List ℕ) → Option (List ℕ)
put byte [] rest = none
put byte (old ∷ d) none = none
put byte (old ∷ d) (some rest) = some (byte ∷ rest)

tail : List ℕ → List ℕ
tail [] = []
tail (x ∷ xs) = xs

-- The loop and the terminating byte, from `s` and `d`.
pub append_loop : ℕ → List ℕ → List ℕ → Option (List ℕ)
unfolding put tail
append_loop zero s d = put 0 d (some (tail d))
append_loop (suc remaining) [] d = none
append_loop (suc remaining) (byte ∷ s) d =
    let rest = append_loop remaining s (tail d) in
    if byte == 0 then put 0 d (some (tail d)) else put byte d rest

before : List ℕ → Option (List ℕ) → Option (List ℕ)
before xs none = none
before xs (some ys) = some (xs ++ ys)

-- The memory at `dest` after the call; `none` is an access outside the memory of a pointer.
-- `strlen` is that of tinyrlibc.
pub strncat : (List ℕ → ℕ) → List ℕ → List ℕ → ℕ → Option (List ℕ)
unfolding append_loop before
strncat strlen dest src num =
    let n = strlen dest in before (take n dest) (append_loop num src (drop n dest))

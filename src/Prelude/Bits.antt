-- ===== src/Prelude/Bits.antt =====
-- Laws of `&` and `|` on numbers that are split into a high and a low field.
use Prim.Native.Nat.{
  ℕ, zero, suc, ◌+◌, ◌-◌, ◌*◌, ◌/◌, ◌%◌, ◌^◌, ◌≤◌, ◌<◌, min, max, bit_and, bit_or, digits,
  bit_and-bitwise, bit_or-bitwise,
}
use mathlib.Core.Path.{◌≡◌, refl, ap, ◌∙◌}
use mathlib.Core.Logic.{◌⊎◌, inl, inr}
use native.Mathlib.Omega.{arith}
use native.Mathlib.Nat.{pow-suc, one-le-pow}

module _ (z : ℕ → ℕ) (f : ℕ → ℕ → ℕ) where
  -- One unit of fuel more than the number itself changes nothing.
  spare_fuel : (n a b : ℕ) → a ≤ n → digits z f (suc n) a b ≡ digits z f n a b
  spare_fuel zero zero b h = refl
  spare_fuel (suc n) zero b h = refl
  spare_fuel zero (suc a) b h = absurd (omega arith)
  spare_fuel (suc n) (suc a) b h = omega (arith, spare_fuel n (suc a / 2) (b / 2) (omega arith))

  last_unit : (n a : ℕ) → a ≤ suc n → (a ≤ n) ⊎ (a ≡ suc n)
  last_unit n a h = grind arith

  exact_fuel : (n a b : ℕ) → a ≤ n → digits z f n a b ≡ digits z f a a b
  exact_fuel zero zero b h = refl
  exact_fuel zero (suc a) b h = absurd (omega arith)
  exact_fuel (suc n) a b h = elim (last_unit n a h) [
    | inl le ↦ spare_fuel n a b le ∙ exact_fuel n a b le
    | inr e ↦ rw e
  ]

  lowest_digit :
      (a b : ℕ)
      → digits z f (suc a) (suc a) b
        ≡ digits z f (suc a / 2) (suc a / 2) (b / 2) * 2 + f (suc a % 2) (b % 2)
  lowest_digit a b = omega (arith, exact_fuel a (suc a / 2) (b / 2) (omega arith))

and_digit : (a b : ℕ) → bit_and a b ≡ bit_and (a / 2) (b / 2) * 2 + min (a % 2) (b % 2)
and_digit zero b = omega (arith, bit_and-bitwise 0 b, bit_and-bitwise 0 (b / 2))
and_digit (suc a) b = omega (
  arith,
  bit_and-bitwise (suc a) b,
  bit_and-bitwise (suc a / 2) (b / 2),
  lowest_digit (λ y. 0) min a b,
)

or_digit : (a b : ℕ) → bit_or a b ≡ bit_or (a / 2) (b / 2) * 2 + max (a % 2) (b % 2)
or_digit zero b = omega (arith, bit_or-bitwise 0 b, bit_or-bitwise 0 (b / 2))
or_digit (suc a) b = omega (
  arith,
  bit_or-bitwise (suc a) b,
  bit_or-bitwise (suc a / 2) (b / 2),
  lowest_digit (λ y. y) max a b,
)

-- `q * 2 ^ k` one digit wider.
widen : (q k : ℕ) → q * 2 ^ suc k ≡ q * 2 ^ k * 2
widen q k = omega (arith, ap (λ (t : ℕ). q * t) (pow-suc 2 k))

-- `&` works on the high and on the low field.
pub bit_and-fields :
    (k q r m s : ℕ)
    → r < 2 ^ k
    → s < 2 ^ k
    → bit_and (q * 2 ^ k + r) (m * 2 ^ k + s) ≡ bit_and q m * 2 ^ k + bit_and r s
bit_and-fields zero q r m s hr hs =
    let er : r ≡ 0 = omega arith in let es : s ≡ 0 = omega arith in rw (er, es) (ground arith)
bit_and-fields (suc k) q r m s hr hs = ground (
  arith,
  and_digit (q * 2 ^ suc k + r) (m * 2 ^ suc k + s),
  and_digit r s,
  widen q k,
  widen m k,
  widen (bit_and q m) k,
  bit_and-fields k q (r / 2) m (s / 2) (omega (arith, pow-suc 2 k)) (omega (arith, pow-suc 2 k)),
)

-- `|` works on the high and on the low field.
pub bit_or-fields :
    (k q r m s : ℕ)
    → r < 2 ^ k
    → s < 2 ^ k
    → bit_or (q * 2 ^ k + r) (m * 2 ^ k + s) ≡ bit_or q m * 2 ^ k + bit_or r s
bit_or-fields zero q r m s hr hs =
    let er : r ≡ 0 = omega arith in let es : s ≡ 0 = omega arith in rw (er, es) (ground arith)
bit_or-fields (suc k) q r m s hr hs = ground (
  arith,
  or_digit (q * 2 ^ suc k + r) (m * 2 ^ suc k + s),
  or_digit r s,
  widen q k,
  widen m k,
  widen (bit_or q m) k,
  bit_or-fields k q (r / 2) m (s / 2) (omega (arith, pow-suc 2 k)) (omega (arith, pow-suc 2 k)),
)

-- A mask of ones keeps what fits it, and a mask of zeros keeps nothing.
pub bit_and_ones : (k r : ℕ) → r < 2 ^ k → bit_and r (2 ^ k - 1) ≡ r
bit_and_ones zero r h = let e : r ≡ 0 = omega arith in rw e refl
bit_and_ones (suc k) r h = ground (
  arith,
  and_digit r (2 ^ suc k - 1),
  pow-suc 2 k,
  one-le-pow k 2,
  bit_and_ones k (r / 2) (omega (arith, pow-suc 2 k)),
)

pub bit_and-zero : (k r : ℕ) → r < 2 ^ k → bit_and r 0 ≡ 0
bit_and-zero zero r h = let e : r ≡ 0 = omega arith in rw e refl
bit_and-zero (suc k) r h =
    omega (arith, and_digit r 0, bit_and-zero k (r / 2) (omega (arith, pow-suc 2 k)))

pub zero-bit_or : (m : ℕ) → bit_or 0 m ≡ m
zero-bit_or m = bit_or-bitwise 0 m

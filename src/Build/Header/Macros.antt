-- ===== src/Build/Header/Macros.antt =====
-- What a C compiler makes of the header of build.rs: the macros and their numbers.
use Prim.Native.String.{String}
use esp_nimble_host.Prelude.{
  ℕ, ◌+◌, ◌-◌, ◌*◌, Bool, ◌&&◌, Option, none, some, List, [], ◌∷◌, ◌++◌, leb, ◌==◌, if◌then◌else◌,
}
use esp_nimble_host.Build.Text.{codes, strip_prefix}

-- The bodies of all definitions of a macro, in order.
unfoldable pub definitions : String → List (List ℕ) → List (List ℕ)
unfolding strip_prefix
definitions name [] = []
definitions name (line ∷ lines) =
    elim (strip_prefix (codes "#define " ++ (codes name ++ codes " ")) line) [
      | some body ↦ body ∷ definitions name lines
      | none ↦ definitions name lines
    ]

pub is_digit : ℕ → Bool
is_digit c = leb b'0' c && leb c b'9'

unfoldable pub read_digits : ℕ → List ℕ → Option ℕ
unfolding is_digit
read_digits acc [] = none
read_digits acc (c ∷ cs) =
    let more = read_digits (acc * 10 + (c - 48)) cs in
    if is_digit c then more else elim cs [ [] ↦ if c == b')' then some acc else none | _ ↦ none ]

-- The number of a body of the form `(n)`.
unfoldable pub number_of : List ℕ → Option ℕ
unfolding read_digits
number_of (c ∷ (d ∷ cs)) = if c == b'(' && is_digit d then read_digits (d - 48) cs else none
number_of _ = none

-- ===== src/Bytes.antt =====
-- The two helpers on bytes of src/merkle/merkle.cpp. A `char` is its byte, a number below 256, so that
-- a negative one is 256 more; `first << 4` of a negative one is taken as the product.
pub mod Decimal
use eos_tools.Prelude.{
  ℕ, Bool, true, false, List, [], ◌∷◌, ◌+◌, ◌-◌, ◌*◌, ◌%◌, ◌==◌, if◌then◌else◌, length,
}

-- `c - '0'`
unfoldable pub minus_0 : ℕ → ℕ
minus_0 c = (c + (256 - 48)) % 256

-- `(first << 4) + second`
unfoldable pub byte_of : ℕ → ℕ → ℕ
byte_of c d = (minus_0 c * 16 + minus_0 d) % 256

-- Behind a last single character it reads the 0 that ends the string.
unfoldable pub to_vector : List ℕ → List ℕ
to_vector [] = []
to_vector (c ∷ []) = byte_of c 0 ∷ []
to_vector (c ∷ d ∷ src) = byte_of c d ∷ to_vector src

-- The loop, for lists of one length.
unfoldable pub eq_loop : List ℕ → List ℕ → Bool
eq_loop [] v2 = true
eq_loop (x ∷ v1) [] = false
eq_loop (x ∷ v1) (y ∷ v2) = let rest = eq_loop v1 v2 in if x == y then rest else false

unfoldable pub vector_eq : List ℕ → List ℕ → Bool
vector_eq v1 v2 = let same = eq_loop v1 v2 in if length v1 == length v2 then same else false

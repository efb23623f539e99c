-- ===== src/Tests/Bytes.antt =====
-- The round trip of bytes, and the bytes of a text with letters.
use eos_tools.Prelude.{ℕ, true, List, [], ◌∷◌, All, ◌↔◌, ◌≡◌, refl, arith}
use eos_tools.Bytes.{minus_0, byte_of, to_vector, vector_eq}
use eos_tools.Bytes.Decimal.{hex, IsDecimal, vector_eq-to_vector}

-- 03 and 16
abbrev bytes : List ℕ
bytes = 3 ∷ 22 ∷ []

-- The text `e6`, of the byte 230.
letters : to_vector (101 ∷ 54 ∷ []) ≡ 86 ∷ []
unfolding to_vector byte_of minus_0
letters = refl

vector_eq-to_vector_example : (vector_eq (to_vector (hex bytes)) bytes ≡ true) ↔ All IsDecimal bytes
vector_eq-to_vector_example = vector_eq-to_vector bytes (omega arith, (omega arith, tt))

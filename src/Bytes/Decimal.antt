-- ===== src/Bytes/Decimal.antt =====
-- Which bytes `to_vector` of src/merkle/merkle.cpp reads back from their hexadecimal text.
use eos_tools.Prelude.{
  ℕ, true, false, List, [], ◌∷◌, All, ◌+◌, ◌/◌, ◌%◌, ◌<◌, ◌≡◌, ◌↔◌, ◌==◌, ◌⊎◌, inl, inr, subst,
  Bool-cases, ==_iff, refl, ltb, arith, if◌then◌else◌, length, ==_yes, head-eq_of_cons-eq,
  tail-eq_of_cons-eq,
}
use eos_tools.Bytes.{minus_0, byte_of, to_vector, eq_loop, vector_eq}

-- The lower case digits, from the code 48 of 0 and the code 97 of a on.
unfoldable pub hex_digit : ℕ → ℕ
hex_digit n = if ltb n 10 then n + 48 else (n + 87)

unfoldable pub hex : List ℕ → List ℕ
hex [] = []
hex (b ∷ bytes) = hex_digit (b / 16) ∷ hex_digit (b % 16) ∷ hex bytes

-- A byte both of whose hexadecimal digits are decimal.
pub record IsDecimal (b : ℕ) : Type 0 where
  pub high : b / 16 < 10
  pub low : b % 16 < 10

byte_of-hex :
    (b : ℕ) → b < 256 → (byte_of (hex_digit (b / 16)) (hex_digit (b % 16)) ≡ b) ↔ IsDecimal b
unfolding byte_of hex_digit minus_0
byte_of-hex b h = (λ e. record { high = ground arith; low = ground arith }, λ d. ground arith)

to_vector-hex :
    (bytes : List ℕ)
    → All (λ b. b < 256) bytes
    → (to_vector (hex bytes) ≡ bytes) ↔ All IsDecimal bytes
unfolding to_vector hex
to_vector-hex [] h = (λ e. tt, λ d. refl)
to_vector-hex (b ∷ bytes) (p, h) =
    let (there, back) = byte_of-hex b p in
    let (all, none_left) = to_vector-hex bytes h in
    (
      λ e. (there (head-eq_of_cons-eq e), all (tail-eq_of_cons-eq e)),
      λ d. cc (back d.0, none_left d.1),
    )

eq_loop_self : (v : List ℕ) → eq_loop v v ≡ true
unfolding eq_loop
eq_loop_self [] = refl
eq_loop_self (x ∷ v) = rw (==_yes x x refl) (eq_loop_self v)

eq_loop_eq : (v w : List ℕ) → length v ≡ length w → eq_loop v w ≡ true → v ≡ w
unfolding eq_loop
eq_loop_eq [] [] l e = refl
eq_loop_eq [] (y ∷ w) l e = absurd (omega arith)
eq_loop_eq (x ∷ v) [] l e = absurd (cc e)
eq_loop_eq (x ∷ v) (y ∷ w) l e = elim (Bool-cases (x == y)) [
  | inl same ↦
      let heads : x ≡ y = (==_iff x y).0 same in
      let tails : v ≡ w = eq_loop_eq v w (omega arith) (rw same at e) in cc (heads, tails)
  | inr other ↦ absurd (cc (rw other at e))
]

-- `vector_eq` says whether the lists are equal.
vector_eq_iff : (v w : List ℕ) → (vector_eq v w ≡ true) ↔ (v ≡ w)
unfolding vector_eq
vector_eq_iff v w = (
  λ e. by_length (Bool-cases (length v == length w)) e,
  λ e.
      subst (λ x. vector_eq v x ≡ true) e (rw (==_yes (length v) (length v) refl) (eq_loop_self v)),
)
  where
    by_length :
        (length v == length w) ≡ true ⊎ (length v == length w) ≡ false
        → vector_eq v w ≡ true
        → v ≡ w
    by_length (inl same) e = eq_loop_eq v w ((==_iff _ _).0 same) (rw same at e)
    by_length (inr other) e = absurd (cc (rw other at e))

-- `vector_eq` finds the vector that `to_vector` reads from the hexadecimal text of bytes equal to
-- these exactly where all their digits are decimal.
pub vector_eq-to_vector :
    (bytes : List ℕ)
    → All (λ b. b < 256) bytes
    → (vector_eq (to_vector (hex bytes)) bytes ≡ true) ↔ All IsDecimal bytes
vector_eq-to_vector bytes h =
    let (all, back) = to_vector-hex bytes h in
    let (same, found) = vector_eq_iff (to_vector (hex bytes)) bytes in
    (λ e. all (same e), λ d. found (back d))

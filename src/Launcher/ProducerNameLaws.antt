-- ===== src/Launcher/ProducerNameLaws.antt =====
-- Laws of `producer_names::producer_name` of eosio-launcher2/main.cpp.
use eos_tools.Prelude.{
  ℕ, zero, suc, Bool, true, false, some, ◌&&◌, ◌+◌, ◌/◌, ◌%◌, ◌^◌, ◌==◌, ltb, ◌<◌, ◌≡◌, refl, ap,
  sym, ◌∙◌, arith, inl, inr, Bool-cases, ==_iff,
}
use eos_tools.Prelude.Word.{u32_mod}
use eos_tools.Prelude.Text.{String, str_eq}
use Prim.Native.Char.{Char, code}
use Prim.Native.String.{char_at, [] as end, ◌∷◌ as cons}
use text.Mathlib.TextEquality.{eq_iff}
use eos_tools.Launcher.ProducerName.{
  set_char, clear_loop, slot_chars, producer_name, template, digits_loop, total_chars,
}

and_false : (b : Bool) → (b && false) ≡ false
and_false true = refl
and_false false = refl

-- The name, as it stands when the loop ends.
unfoldable pub label : ℕ → String
label number = (digits_loop total_chars number (template number)).1

fewer_digits : (locs number : ℕ) → number < 26 ^ suc locs → number / 26 < 26 ^ locs
fewer_digits locs number h = omega arith

digits_left :
    (locs number : ℕ) (name : String) → number < 26 ^ locs → (digits_loop locs number name).0 ≡ 0
unfolding digits_loop
digits_left zero number name h = omega arith
digits_left (suc loc) number name h = elim (Bool-cases (number / 26 == 0)) [
  | inl t ↦ (let none_left = (==_iff (number / 26) 0).0 t in rw (t) none_left)
  | inr f ↦ rw (f) (digits_left loc (number / 26) _ (fewer_digits loc number h))
]

-- For no 32-bit number the exception is thrown.
pub producer_name_total :
    (number : ℕ) → number < u32_mod → producer_name number ≡ some (label number)
unfolding producer_name label
producer_name_total number h =
    let done = digits_left total_chars number (template number) (omega arith) in
    rw (done, and_false (str_eq (label number) "defproducera")) refl

-- While characters before them are left for the digits, the first character stays.
first_stays :
    (locs number : ℕ) (c : Char) (s : String)
    → number < 26 ^ locs
    → 0 < number + locs
    → (rest : String) × ((digits_loop (suc locs) number (cons c s)).1 ≡ cons c rest)
unfolding digits_loop set_char
first_stays zero number c s h p = absurd (omega arith)
first_stays (suc locs) number c s h p =
    let digit = char_at slot_chars (number % 26) in
    elim (Bool-cases (number / 26 == 0)) [
      | inl t ↦ (set_char s locs digit, rw (t) refl)
      | inr f ↦
          let more : ¬ (number / 26 ≡ 0) = grind arith in
          let (rest, e) =
            first_stays locs (number / 26) c (set_char s locs digit) (fewer_digits locs number h)
              (omega arith) in
          (rest, rw (f) e)
    ]

starts_with_d : (number : ℕ) → (rest : String) × (template number ≡ cons (char_at "d" 0) rest)
unfolding template clear_loop set_char
starts_with_d number = elim (Bool-cases (ltb 26 number)) [
  | inl t ↦ ("efpraaaaaaa", rw (t) refl)
  | inr f ↦ ("efproducera", rw (f) refl)
]

abbrev first_code : String → ℕ
first_code end = 0
first_code (cons c s) = code c

-- No producer has the name of the account that bios works for.
pub label-ne-eosio : (number : ℕ) → number < u32_mod → str_eq (label number) "eosio" ≡ false
unfolding label
label-ne-eosio number h =
    let (tail, e) = starts_with_d number in
    let (rest, d) = first_stays 11 number (char_at "d" 0) tail (omega arith) (omega arith) in
    elim (Bool-cases (str_eq (label number) "eosio")) [
      | inl t ↦
          let named : label number ≡ cons (char_at "d" 0) rest =
            ap (λ t. (digits_loop 12 number t).1) e ∙ d in
          let same = ap first_code (sym named ∙ (eq_iff (label number) "eosio").0 t) in
          absurd (omega arith)
      | inr f ↦ f
    ]

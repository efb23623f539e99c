-- ===== src/Launcher/ProducerName.antt =====
-- The producers' names, `producer_names::producer_name` of eosio-launcher2/main.cpp. `none` is the
-- exception that it throws.
use Prim.Native.Char.{Char}
use Prim.Native.String.{[] as end, ◌∷◌ as cons, char_at}
use eos_tools.Prelude.{
  ℕ, zero, suc, Option, none, some, ◌&&◌, not, ◌+◌, ◌-◌, ◌/◌, ◌%◌, ◌==◌, ltb, if◌then◌else◌,
}
use eos_tools.Prelude.Text.{String, str_eq}

abbrev pub slot_chars : String
slot_chars = "abcdefghijklmnopqrstuvwxyz"

abbrev pub valid_char_range : ℕ
valid_char_range = 26

abbrev pub total_chars : ℕ
total_chars = 12

-- `prod_name[loc] = c`
unfoldable pub set_char : String → ℕ → Char → String
set_char end loc c = end
set_char (cons d s) zero c = cons c s
set_char (cons d s) (suc loc) c = cons d (set_char s loc c)

-- The loop that sets the characters from 5 on to the first slot, with `count` of them to go.
unfoldable pub clear_loop : ℕ → ℕ → String → String
clear_loop zero loc name = name
clear_loop (suc count) loc name =
    clear_loop count (loc + 1) (set_char name loc (char_at slot_chars 0))

-- The loop over the characters before `locs`, from the last one down. It returns what is left of the
-- number too.
unfoldable pub digits_loop : ℕ → ℕ → String → ℕ × String
digits_loop zero producer_number name = (producer_number, name)
digits_loop (suc loc) producer_number name =
    let written = set_char name loc (char_at slot_chars (producer_number % valid_char_range)) in
    let rest = producer_number / valid_char_range in
    let later = digits_loop loc rest written in if rest == 0 then (rest, written) else later

unfoldable pub template : ℕ → String
template producer_number =
    if ltb valid_char_range producer_number
    then clear_loop (total_chars - 5) 5 "defproducera"
    else "defproducera"

unfoldable pub producer_name : ℕ → Option String
producer_name producer_number =
    let (left, name) = digits_loop total_chars producer_number (template producer_number) in
    if str_eq name "defproducera" && not (left == 0) then none else some name

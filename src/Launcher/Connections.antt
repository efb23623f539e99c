-- ===== src/Launcher/Connections.antt =====
-- Which connections the modes given to `initialize` of eosio-launcher2/main.cpp allow in the file of
-- `write_config_file`.
use Prim.Native.Nat.{bit_or}
use eos_tools.Prelude.{
  ℕ, Bool, true, false, List, [], ◌∷◌, Option, none, some, ◌>>=◌, ◌≡◌, refl, ap, ◌∙◌, if◌then◌else◌,
}
use eos_tools.Prelude.Text.{String}
use eos_tools.Launcher.Run.{RunState, Outcome, done, exit, Run, pure, fail}
use eos_tools.Launcher.Settings.{settings}
use eos_tools.Launcher.Config.{
  pc_none, pc_producers, pc_specified, pc_any, P2pPlugin, Line, NetNode, set_mode, connection_loop,
  specified_lines, connection_lines,
}

pub data Mode : Type 0 where
  any : Mode
  producers : Mode
  specified : Mode
  nothing : Mode

-- The mode that a text stands for.
unfoldable pub mode_of : (String → String → Bool) → String → Option Mode
mode_of iequals text =
    if iequals text "any"
    then some any
    else if iequals text "producers"
    then some producers
    else if iequals text "specified"
    then some specified
    else if iequals text "none"
    then some nothing
    else none

-- Whether the modes after the last `none` hold `any`, `producers` and `specified`, where those before
-- held what is given first.
abbrev pub Allowed : Type 0
Allowed = Bool × Bool × Bool

abbrev pub with_mode : Mode → Allowed → Allowed
with_mode any (a, p, s) = (true, p, s)
with_mode producers (a, p, s) = (a, true, s)
with_mode specified (a, p, s) = (a, p, true)
with_mode nothing (a, p, s) = (false, false, false)

unfoldable pub allowed_by : List Mode → Allowed → Allowed
allowed_by [] allowed = allowed
allowed_by (m ∷ modes) allowed = allowed_by modes (with_mode m allowed)

-- The number whose bits say what is allowed.
abbrev bits : Allowed → ℕ
bits (false, false, false) = 0
bits (false, true, false) = 1
bits (false, false, true) = 2
bits (false, true, true) = 3
bits (true, false, false) = 4
bits (true, true, false) = 5
bits (true, false, true) = 6
bits (true, true, true) = 7

abbrev change : Mode → ℕ → ℕ
change any n = bit_or n pc_any
change producers n = bit_or n pc_producers
change specified n = bit_or n pc_specified
change nothing n = pc_none

-- The bits after a mode are those of what it allows.
abbrev KeepsBits : Allowed → Mode → Type 0
KeepsBits allowed m = change m (bits allowed) ≡ bits (with_mode m allowed)

for_each : (P : Mode → Type 0) → P any → P producers → P specified → P nothing → (m : Mode) → P m
for_each P w x y z any = w
for_each P w x y z producers = x
for_each P w x y z specified = y
for_each P w x y z nothing = z

mode_bits : (allowed : Allowed) (m : Mode) → KeepsBits allowed m
mode_bits (true, true, true) = for_each (KeepsBits (true, true, true)) refl refl refl refl
mode_bits (true, true, false) = for_each (KeepsBits (true, true, false)) refl refl refl refl
mode_bits (true, false, true) = for_each (KeepsBits (true, false, true)) refl refl refl refl
mode_bits (true, false, false) = for_each (KeepsBits (true, false, false)) refl refl refl refl
mode_bits (false, true, true) = for_each (KeepsBits (false, true, true)) refl refl refl refl
mode_bits (false, true, false) = for_each (KeepsBits (false, true, false)) refl refl refl refl
mode_bits (false, false, true) = for_each (KeepsBits (false, false, true)) refl refl refl refl
mode_bits (false, false, false) = for_each (KeepsBits (false, false, false)) refl refl refl refl

module _ (iequals : String → String → Bool) where
  -- The modes of all texts, where each stands for one.
  unfoldable pub modes_of : List String → Option (List Mode)
  modes_of [] = some []
  modes_of (text ∷ texts) =
      mode_of iequals text >>= λ m. modes_of texts >>= λ modes. some (m ∷ modes)

  set_mode-mode_of :
      (text : String) (n : ℕ)
      → set_mode iequals text n ≡ mode_of iequals text >>= λ m. some (change m n)
  unfolding set_mode mode_of
  set_mode-mode_of text n =
      by_tests (iequals text "any") (iequals text "producers") (iequals text "specified")
        (iequals text "none")
    where
      by_tests :
          (is_any is_producers is_specified is_none : Bool)
          → (if is_any
              then some (bit_or n pc_any)
              else if is_producers
              then some (bit_or n pc_producers)
              else if is_specified
              then some (bit_or n pc_specified)
              else if is_none
              then some pc_none
              else none)
            ≡ (if is_any
                then some any
                else if is_producers
                then some producers
                else if is_specified
                then some specified
                else if is_none
                then some nothing
                else none)
              >>= λ m. some (change m n)
      by_tests true is_producers is_specified is_none = refl
      by_tests false true is_specified is_none = refl
      by_tests false false true is_none = refl
      by_tests false false false true = refl
      by_tests false false false false = refl

  abbrev outcome : Allowed → RunState → Option (List Mode) → Outcome ℕ × RunState
  outcome allowed s none = (exit, s)
  outcome allowed s (some modes) = (done (bits (allowed_by modes allowed)), s)

  connection_loop-modes :
      (texts : List String) (allowed : Allowed) (s : RunState)
      → connection_loop iequals texts (bits allowed) s ≡ outcome allowed s (modes_of texts)
  unfolding connection_loop modes_of allowed_by pure fail
  connection_loop-modes [] allowed s = refl
  connection_loop-modes (text ∷ texts) allowed s =
      rw (set_mode-mode_of text (bits allowed), connection_loop)
        (by_mode (connection_loop-modes texts) (mode_of iequals text))
    where
      from_bits : Option ℕ → Run ℕ
      from_bits none = fail
      from_bits (some changed) = connection_loop iequals texts changed

      by_mode :
          ((allowed : Allowed) (s : RunState)
            → connection_loop iequals texts (bits allowed) s ≡ outcome allowed s (modes_of texts))
          → (m : Option Mode)
          → from_bits (m >>= λ k. some (change k (bits allowed))) s
            ≡ outcome allowed s (m >>= λ k. modes_of texts >>= λ modes. some (k ∷ modes))
      by_mode rest none = refl
      by_mode rest (some m) =
          rw (mode_bits allowed m) (rest (with_mode m allowed) s ∙ by_modes (modes_of texts))
        where
          by_modes :
              (modes : Option (List Mode))
              → outcome (with_mode m allowed) s modes
                ≡ outcome allowed s (modes >>= λ modes. some (m ∷ modes))
          by_modes none = refl
          by_modes (some modes) = refl

-- The values of `allowed-connection` for what is allowed.
abbrev pub allowed_text : Allowed → List String
allowed_text (true, p, s) = "any" ∷ []
allowed_text (false, false, false) = "none" ∷ []
allowed_text (false, true, false) = "producers" ∷ []
allowed_text (false, false, true) = "specified" ∷ []
allowed_text (false, true, true) = "producers" ∷ "specified" ∷ []

module _ {K : Type 0} (number : ℕ → String) (public_text private_text : K → String)
    (nodes : List (String × NetNode K)) (p2p : P2pPlugin) (key : K) (keys : List K) where
  lines_allowed :
      (allowed : Allowed)
      → (lines : List Line) × (connection_lines number public_text private_text nodes p2p
            (bits allowed)
            (key ∷ keys)
          ≡ some lines)
        × (settings "allowed-connection" lines ≡ allowed_text allowed)
  unfolding connection_lines specified_lines settings
  lines_allowed (false, false, false) = (_, refl, refl)
  lines_allowed (false, true, false) = (_, refl, refl)
  lines_allowed (false, false, true) = (_, refl, refl)
  lines_allowed (false, true, true) = (_, refl, refl)
  lines_allowed (true, false, false) = (_, refl, refl)
  lines_allowed (true, true, false) = (_, refl, refl)
  lines_allowed (true, false, true) = (_, refl, refl)
  lines_allowed (true, true, true) = (_, refl, refl)

-- Where each text stands for a mode, `initialize` reads them, and the file of a node with a key allows
-- any connection if `any` is among the modes after the last `none`, and otherwise those of producers
-- and the specified ones that these modes name, or none.
pub connection_loop-settings :
    {K : Type 0} (iequals : String → String → Bool) (number : ℕ → String)
    (public_text private_text : K → String) (nodes : List (String × NetNode K)) (p2p : P2pPlugin)
    (key : K) (keys : List K) (texts : List String) (modes : List Mode) (s : RunState)
    → modes_of iequals texts ≡ some modes
    → (allowed : ℕ) × (lines : List Line) × (connection_loop iequals texts pc_none s
        ≡ (done allowed, s))
      × (connection_lines number public_text private_text nodes p2p allowed (key ∷ keys)
          ≡ some lines)
      × (settings "allowed-connection" lines
          ≡ allowed_text (allowed_by modes (false, false, false)))
connection_loop-settings iequals number public_text private_text nodes p2p key keys texts modes s
      e =
    let nothing_yet : Allowed = (false, false, false) in
    let (lines, found, said) =
      lines_allowed number public_text private_text nodes p2p key keys
        (allowed_by modes nothing_yet) in
    (
      _,
      lines,
      connection_loop-modes iequals texts nothing_yet s ∙ ap (outcome iequals nothing_yet s) e,
      found,
      said,
    )

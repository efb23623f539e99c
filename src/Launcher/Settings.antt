-- ===== src/Launcher/Settings.antt =====
-- Reading the lines that `write_config_file` of eosio-launcher2/main.cpp writes, by their keys.
use mathlib.Core.List.{◌++◌ as append_list}
use eos_tools.Prelude.{
  true, false, List, [], ◌∷◌, map, ◌≡◌, refl, ap, Bool-cases, inl, inr, if◌then◌else◌,
}
use eos_tools.Prelude.Text.{String, str_eq}
use eos_tools.Launcher.Config.{Line}

-- The values that the lines give a key, in order.
unfoldable pub settings : String → List Line → List String
settings key [] = []
settings key ((name, value) ∷ lines) =
    let rest = settings key lines in if str_eq key name then value ∷ rest else rest

pub settings-append :
    (key : String) (xs ys : List Line)
    → settings key (append_list xs ys) ≡ append_list (settings key xs) (settings key ys)
unfolding settings
settings-append key [] ys = refl
settings-append key ((name, value) ∷ xs) ys = elim (Bool-cases (str_eq key name)) [
  | inl t ↦ rw (t) (ap (λ l. value ∷ l) (settings-append key xs ys))
  | inr f ↦ rw (f) (settings-append key xs ys)
]

pub settings_named :
    {A : Type 0} (key name : String) (f : A → String) (xs : List A)
    → str_eq key name ≡ true
    → settings key (map (λ x. (name, f x)) xs) ≡ map f xs
unfolding settings
settings_named key name f [] t = refl
settings_named key name f (x ∷ xs) t = rw (t) (ap (λ l. f x ∷ l) (settings_named key name f xs t))

pub settings_other :
    {A : Type 0} (key name : String) (f : A → String) (xs : List A)
    → str_eq key name ≡ false
    → settings key (map (λ x. (name, f x)) xs) ≡ []
unfolding settings
settings_other key name f [] t = refl
settings_other key name f (x ∷ xs) t = rw (t) (settings_other key name f xs t)

pub map_same : (xs : List String) → map (λ x. x) xs ≡ xs
map_same [] = refl
map_same (x ∷ xs) = ap (λ l. x ∷ l) (map_same xs)

pub append_nil : {A : Type 0} (xs : List A) → append_list xs [] ≡ xs
append_nil [] = refl
append_nil (x ∷ xs) = ap (λ l. x ∷ l) (append_nil xs)

-- What the lines say of producers, plugins and peers.
abbrev pub Says : List Line → List String → List String → List String → List String → Type 0
Says lines producers plugins nets bnets =
    (settings "producer-name" lines ≡ producers)
    × (settings "plugin" lines ≡ plugins)
    × (settings "p2p-peer-address" lines ≡ nets)
    × (settings "bnet-connect" lines ≡ bnets)

pub Says-append :
    (xs ys : List Line) {a1 b1 c1 d1 a2 b2 c2 d2 : List String}
    → Says xs a1 b1 c1 d1
    → Says ys a2 b2 c2 d2
    → Says
        (append_list xs ys)
        (append_list a1 a2)
        (append_list b1 b2)
        (append_list c1 c2)
        (append_list d1 d2)
Says-append xs ys (a, b, c, d) (e, f, g, h) = (
  rw (settings-append "producer-name" xs ys, a, e) refl,
  rw (settings-append "plugin" xs ys, b, f) refl,
  rw (settings-append "p2p-peer-address" xs ys, c, g) refl,
  rw (settings-append "bnet-connect" xs ys, d, h) refl,
)

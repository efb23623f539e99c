-- ===== src/Launcher/Walk.antt =====
-- The indexes that the walk over `aliases` of eosio-launcher2/main.cpp reaches.
use eos_tools.Prelude.{
  ℕ, zero, suc, Bool, true, false, some, List, [], ◌∷◌, ◌+◌, ◌<◌, ◌≡◌, refl, sym, ap, ◌∙◌, subst,
  cons≢nil, head-eq_of_cons-eq, tail-eq_of_cons-eq, arith, inl, inr, Bool-cases, ==_yes, ==_no,
  if◌then◌else◌, get_elem?, length,
}
use eos_tools.Prelude.Text.{String, str_eq}
use eos_tools.Prelude.Word.{add64_lem, u64_mod}
use eos_tools.Launcher.Ndx.{is_bios_ndx, start_ndx, next_ndx_calls}

-- The indexes, from `k` on, of the names other than bios.
unfoldable pub workers : ℕ → List String → List ℕ
workers k [] = []
workers k (x ∷ xs) = if str_eq x "bios" then workers (k + 1) xs else k ∷ workers (k + 1) xs

-- What `next_ndx` returns where `start` is the start and `later` the indexes that follow.
unfoldable pub step_to : ℕ → List ℕ → Bool × ℕ
step_to start [] = (true, start)
step_to start (w ∷ ws) = (false, w)

-- The names from index `k` on are `rest`.
unfoldable pub NamesFrom : List String → ℕ → List String → Type 0
NamesFrom aliases k rest = (i : ℕ) → get_elem? aliases (k + i) ≡ get_elem? rest i

pub names_later :
    (aliases : List String) (k : ℕ) (x : String) (rest : List String)
    → NamesFrom aliases k (x ∷ rest)
    → NamesFrom aliases (k + 1) rest
unfolding NamesFrom
names_later aliases k x rest h i =
    let shifted : k + 1 + i ≡ k + suc i = omega arith in ap (get_elem? aliases) shifted ∙ h (suc i)

names_first :
    (aliases : List String) (k : ℕ) (x : String) (rest : List String)
    → NamesFrom aliases k (x ∷ rest)
    → get_elem? aliases k ≡ some x
unfolding NamesFrom
names_first aliases k x rest h =
    let same : k ≡ k + 0 = omega arith in ap (get_elem? aliases) same ∙ h 0

pub calls_reach :
    (aliases : List String) (total_nodes start calls k : ℕ) (rest : List String)
    → NamesFrom aliases (k + 1) rest
    → k + 1 + length rest ≡ total_nodes
    → total_nodes < u64_mod
    → length rest < calls
    → start_ndx aliases ≡ some start
    → next_ndx_calls calls aliases total_nodes k ≡ some (step_to start (workers (k + 1) rest))
unfolding next_ndx_calls workers step_to is_bios_ndx
calls_reach aliases total_nodes start zero k rest h e b c s = absurd (omega arith)
calls_reach aliases total_nodes start (suc calls) k [] h e b c s =
    rw (add64_lem k 1 (omega arith), ==_yes (k + 1) total_nodes (omega arith), s)
calls_reach aliases total_nodes start (suc calls) k (x ∷ rest) h e b c s =
    elim (Bool-cases (str_eq x "bios")) [
      | inl t ↦ rw (
        add64_lem k 1 (omega arith),
        ==_no (k + 1) total_nodes (omega arith),
        names_first aliases (k + 1) x rest h,
        t,
        add64_lem k 1 (omega arith),
        calls_reach aliases total_nodes start calls (k + 1) rest
            (names_later aliases (k + 1) x rest h) (omega arith) b (omega arith) s,
      )
      | inr f ↦ rw (
        add64_lem k 1 (omega arith),
        ==_no (k + 1) total_nodes (omega arith),
        names_first aliases (k + 1) x rest h,
        f,
        add64_lem k 1 (omega arith),
      )
    ]

-- The rest of the walk from the index that `next_ndx` returns.
pub workers_later :
    (aliases : List String) (k w : ℕ) (rest : List String) (ws : List ℕ)
    → NamesFrom aliases k rest
    → workers k rest ≡ w ∷ ws
    → (later : List String) × NamesFrom aliases (w + 1) later
      × (workers (w + 1) later ≡ ws)
      × (w + 1 + length later ≡ k + length rest)
      × (length later < length rest)
unfolding workers
workers_later aliases k w [] ws h e = absurd (cons≢nil (sym e))
workers_later aliases k w (x ∷ rest) ws h e = elim (Bool-cases (str_eq x "bios")) [
  | inl t ↦
      let skip : workers k (x ∷ rest) ≡ workers (k + 1) rest = rw (t) refl in
      let (later, g, f, l, m) =
        workers_later aliases (k + 1) w rest ws (names_later aliases k x rest h) (sym skip ∙ e) in
      (later, g, f, omega arith, omega arith)
  | inr f ↦
      let keep : workers k (x ∷ rest) ≡ k ∷ workers (k + 1) rest = rw (f) refl in
      let first : k ∷ workers (k + 1) rest ≡ w ∷ ws = sym keep ∙ e in
      let same : k ≡ w = head-eq_of_cons-eq first in
      subst
        (λ v.
          (later : List String) × NamesFrom aliases (v + 1) later
          × (workers (v + 1) later ≡ ws)
          × (v + 1 + length later ≡ k + length (x ∷ rest))
          × (length later < length (x ∷ rest)))
        same
        (rest, names_later aliases k x rest h, tail-eq_of_cons-eq first, omega arith, omega arith)
]

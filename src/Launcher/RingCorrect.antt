-- ===== src/Launcher/RingCorrect.antt =====
-- What `make_ring` of eosio-launcher2/main.cpp connects: the nodes other than bios, in a cycle.
use eos_tools.Prelude.{
  ℕ, zero, suc, Option, none, some, List, [], ◌∷◌, ◌+◌, ◌-◌, ◌<◌, ◌≤◌, ◌≡◌, refl, sym, ap, ◌∙◌,
  cons≢nil, head-eq_of_cons-eq, arith, inl, inr, Bool-cases, Option-cases, ==_yes, ==_no, ◌>>=◌,
  get_elem?, length, ltb_no, lt→ltb,
}
use eos_tools.Prelude.Text.{String, str_eq}
use eos_tools.Prelude.Word.{sub64_lem, u64_mod}
use eos_tools.Launcher.Ndx.{is_bios_ndx, start_ndx, next_ndx}
use eos_tools.Launcher.Walk.{workers, step_to, NamesFrom, calls_reach, workers_later}
use eos_tools.Launcher.Network.{TnNodeDef}
use eos_tools.Launcher.Ring.{connect, ring_loop, link_ring}

-- The pairs from `w` on, of which the last leads to `start`.
unfoldable pub ring_edges : ℕ → ℕ → List ℕ → List (ℕ × ℕ)
ring_edges start w [] = (w, start) ∷ []
ring_edges start w (v ∷ vs) = (w, v) ∷ ring_edges start v vs

-- The cycle through the indexes, where there are two at least.
unfoldable pub cycle : List ℕ → List (ℕ × ℕ)
cycle [] = []
cycle (w ∷ []) = []
cycle (w ∷ v ∷ vs) = ring_edges w w (v ∷ vs)

unfoldable pub connect_all :
    List String → List (ℕ × ℕ) → List (String × TnNodeDef) → Option (List (String × TnNodeDef))
connect_all aliases [] nodes = some nodes
connect_all aliases ((from, to) ∷ edges) nodes = do
  linked ← connect aliases from to nodes
  connect_all aliases edges linked

next_reaches :
    (aliases : List String) (total_nodes start k : ℕ) (rest : List String)
    → NamesFrom aliases (k + 1) rest
    → k + 1 + length rest ≡ total_nodes
    → total_nodes < u64_mod
    → start_ndx aliases ≡ some start
    → next_ndx aliases total_nodes k ≡ some (step_to start (workers (k + 1) rest))
unfolding next_ndx
next_reaches aliases total_nodes start k rest h e b s =
    calls_reach aliases total_nodes start total_nodes k rest h e b (omega arith) s

ring_loop_follows :
    (aliases : List String) (total_nodes start rounds w : ℕ) (rest : List String) (ws : List ℕ)
    (nodes : List (String × TnNodeDef))
    → NamesFrom aliases (w + 1) rest
    → w + 1 + length rest ≡ total_nodes
    → total_nodes < u64_mod
    → start_ndx aliases ≡ some start
    → workers (w + 1) rest ≡ ws
    → length rest < rounds
    → ring_loop rounds aliases total_nodes w nodes
      ≡ connect_all aliases (ring_edges start w ws) nodes
unfolding ring_loop ring_edges connect_all step_to
ring_loop_follows aliases total_nodes start zero w rest ws nodes h e b s p c = absurd (omega arith)
ring_loop_follows aliases total_nodes start (suc rounds) w rest [] nodes h e b s p c =
    rw (next_reaches aliases total_nodes start w rest h e b s, p) refl
ring_loop_follows aliases total_nodes start (suc rounds) w rest (v ∷ vs) nodes h e b s p c =
    let (later, g, f, l, m) = workers_later aliases (w + 1) v rest vs h p in
    elim (Option-cases (connect aliases w v nodes)) [
      | inl n ↦ rw (next_reaches aliases total_nodes start w rest h e b s, p, n)
      | inr (linked, q) ↦
          rw (next_reaches aliases total_nodes start w rest h e b s, p, q)
            (ring_loop_follows aliases total_nodes start rounds v later vs linked g (omega arith) b
              s f (omega arith))
    ]

length-workers : (k : ℕ) (xs : List String) → length (workers k xs) ≤ length xs
unfolding workers
length-workers k [] = omega arith
length-workers k (x ∷ xs) =
    let later = length-workers (k + 1) xs in
    elim (Bool-cases (str_eq x "bios")) [
      | inl t ↦ rw (t) (omega arith)
      | inr f ↦ rw (f) (omega arith)
    ]

length-tail :
    (k w : ℕ) (xs : List String) (ws : List ℕ) → workers k xs ≡ w ∷ ws → length ws < length xs
length-tail k w xs ws e =
    let counted = ap length e in let bound = length-workers k xs in omega arith

-- Where the first name is bios, the second is not.
second_first :
    (xs : List String) (w : ℕ) (ws : List ℕ)
    → workers 1 xs ≡ w ∷ ws
    → length xs ≤ length ws + 1
    → w ≡ 1
unfolding workers
second_first [] w ws e b = absurd (cons≢nil (sym e))
second_first (y ∷ xs) w ws e b = elim (Bool-cases (str_eq y "bios")) [
  | inl t ↦
      let skip : workers 1 (y ∷ xs) ≡ workers 2 xs = rw (t) refl in
      let short = length-tail 2 w xs ws (sym skip ∙ e) in absurd (omega arith)
  | inr f ↦
      let keep : workers 1 (y ∷ xs) ≡ 1 ∷ workers 2 xs = rw (f) refl in
      sym (head-eq_of_cons-eq (sym keep ∙ e))
]

-- The start is the first worker, since one name at most is bios.
start_first :
    (aliases : List String) (w : ℕ) (ws : List ℕ)
    → workers 0 aliases ≡ w ∷ ws
    → length aliases ≤ length ws + 2
    → start_ndx aliases ≡ some w
unfolding start_ndx is_bios_ndx workers
start_first [] w ws e b = absurd (cons≢nil (sym e))
start_first (x ∷ xs) w ws e b = elim (Bool-cases (str_eq x "bios")) [
  | inl t ↦
      let skip : workers 0 (x ∷ xs) ≡ workers 1 xs = rw (t) refl in
      rw (t) (ap some (sym (second_first xs w ws (sym skip ∙ e) (omega arith))))
  | inr f ↦
      let keep : workers 0 (x ∷ xs) ≡ 0 ∷ workers 1 xs = rw (f) refl in
      rw (f) (ap some (head-eq_of_cons-eq (sym keep ∙ e)))
]

names_all : (aliases : List String) → NamesFrom aliases 0 aliases
unfolding NamesFrom
names_all aliases i = let same : 0 + i ≡ i = omega arith in ap (get_elem? aliases) same

-- From a start that is the first worker, the loop follows the others.
ring_from_start :
    (aliases : List String) (w : ℕ) (ws : List ℕ) (nodes : List (String × TnNodeDef))
    → length aliases < u64_mod
    → workers 0 aliases ≡ w ∷ ws
    → start_ndx aliases ≡ some w
    → ring_loop (length aliases) aliases (length aliases) w nodes
      ≡ connect_all aliases (ring_edges w w ws) nodes
ring_from_start aliases w ws nodes b e s =
    let (later, g, f, l, m) = workers_later aliases 0 w aliases ws (names_all aliases) e in
    ring_loop_follows aliases (length aliases) w (length aliases) w later ws nodes g (omega arith) b
      s f m

bind_some : {A : Type 0} (o : Option A) → (o >>= λ a. some a) ≡ o
bind_some none = refl
bind_some (some a) = refl

pair_is_cycle :
    (aliases : List String) (w v : ℕ) (nodes : List (String × TnNodeDef))
    → length aliases ≡ 3
    → workers 0 aliases ≡ w ∷ v ∷ []
    → link_ring aliases (length aliases) nodes ≡ connect_all aliases (cycle (w ∷ v ∷ [])) nodes
unfolding link_ring cycle ring_edges connect_all step_to
pair_is_cycle aliases w v nodes c e =
    let (later, g, f, l, m) = workers_later aliases 0 w aliases (v ∷ []) (names_all aliases) e in
    let s = start_first aliases w (v ∷ []) e (omega arith) in
    let bound : length aliases < u64_mod = omega arith in
    elim (Option-cases (connect aliases w v nodes)) [
      | inl n ↦
          rw
            (
              sub64_lem (length aliases) 1 (omega arith) bound,
              ltb_no 2 (length aliases - 1) (omega arith),
              ==_yes (length aliases - 1) 2 (omega arith),
              s,
              next_reaches aliases (length aliases) w w later g (omega arith) bound s,
              f,
              n,
            )
            refl
      | inr (linked, q) ↦
          rw
            (
              sub64_lem (length aliases) 1 (omega arith) bound,
              ltb_no 2 (length aliases - 1) (omega arith),
              ==_yes (length aliases - 1) 2 (omega arith),
              s,
              next_reaches aliases (length aliases) w w later g (omega arith) bound s,
              f,
              q,
            )
            (sym (bind_some (connect aliases v w linked)))
    ]

ring_of :
    (aliases : List String) (ws : List ℕ) (nodes : List (String × TnNodeDef))
    → length aliases < u64_mod
    → workers 0 aliases ≡ ws
    → length ws + 1 ≡ length aliases
    → link_ring aliases (length aliases) nodes ≡ connect_all aliases (cycle ws) nodes
unfolding link_ring cycle connect_all
ring_of aliases [] nodes b e c = rw (
  sub64_lem (length aliases) 1 (omega arith) b,
  ltb_no 2 (length aliases - 1) (omega arith),
  ==_no (length aliases - 1) 2 (omega arith),
)
ring_of aliases (w ∷ []) nodes b e c = rw (
  sub64_lem (length aliases) 1 (omega arith) b,
  ltb_no 2 (length aliases - 1) (omega arith),
  ==_no (length aliases - 1) 2 (omega arith),
)
ring_of aliases (w ∷ v ∷ []) nodes b e c = pair_is_cycle aliases w v nodes (omega arith) e
ring_of aliases (w ∷ v ∷ u ∷ ws) nodes b e c =
    let s = start_first aliases w (v ∷ u ∷ ws) e (omega arith) in
    rw
      (sub64_lem (length aliases) 1 (omega arith) b, lt→ltb 2 (length aliases - 1) (omega arith), s)
      (ring_from_start aliases w (v ∷ u ∷ ws) nodes b e s)

-- Where one name is bios, `make_ring` gives each other node the next of them as a peer, and the last
-- the first, if there are two at least; otherwise it gives none.
pub ring_is_cycle :
    (aliases : List String) (nodes : List (String × TnNodeDef))
    → length aliases < u64_mod
    → length (workers 0 aliases) + 1 ≡ length aliases
    → link_ring aliases (length aliases) nodes
      ≡ connect_all aliases (cycle (workers 0 aliases)) nodes
ring_is_cycle aliases nodes b c = ring_of aliases (workers 0 aliases) nodes b refl c

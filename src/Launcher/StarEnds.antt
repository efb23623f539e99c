-- ===== src/Launcher/StarEnds.antt =====
-- Where the loops of `make_star` in eosio-launcher2/main.cpp end: that on `gap` does, and that on
-- `found` goes on for ever where each name is a peer already.
use eos_tools.Prelude.{
  ℕ, zero, suc, Bool, true, false, Option, none, some, List, [], ◌∷◌, ◌==◌, ◌+◌, ◌%◌, ◌<◌, ◌≤◌, ◌≡◌,
  ◌≢◌, refl, sym, ap, ◌∙◌, subst, arith, inl, inr, Bool-cases, ==_no, get_elem?, ◌>>=◌ as continue,
}
use native.Mathlib.Nat.{mod-eq_of_lt}
use eos_tools.Prelude.Text.{String, str_eq}
use eos_tools.Prelude.Word.{add64_lem, u64_mod}
use eos_tools.Launcher.Ndx.{is_bios_ndx}
use eos_tools.Launcher.Peers.{holds}
use eos_tools.Launcher.SkipReaches.{OnlyBios, next_found}
use eos_tools.Launcher.Star.{
  Loop, ended, running, ◌>>=◌, defined, StarState, peers_of, set_alias, next_but, found_loop,
  gap_loop,
}

-- From a `gap` above 0 and at most one above `non_bios`, which is above 0 too and less than 2 ^ 64 - 1,
-- the loop on `gap` ends without undefined behaviour, with a number not below `gap` and at most one
-- above `non_bios` that does not divide it.
pub gap_loop_total :
    (rounds non_bios gap : ℕ)
    → 0 < non_bios
    → non_bios + 1 < u64_mod
    → 0 < gap
    → gap ≤ non_bios + 1
    → non_bios + 2 ≤ rounds + gap
    → (found : ℕ) × (gap_loop rounds non_bios gap ≡ ended found)
      × (gap ≤ found)
      × (found ≤ non_bios + 1)
      × (non_bios % found ≢ 0)
unfolding gap_loop
gap_loop_total zero non_bios gap p b g h r = absurd (omega arith)
gap_loop_total (suc rounds) non_bios gap p b g h r = elim (Bool-cases (non_bios % gap == 0)) [
  | inr f ↦ (
    gap,
    rw (==_no gap 0 (λ z. absurd (omega arith)), f) refl,
    omega arith,
    h,
    λ z. absurd (ground arith),
  )
  | inl t ↦ elim (Bool-cases (gap == non_bios + 1)) [
    | inl last ↦
        let same : gap ≡ non_bios + 1 = ground arith in
        let above : non_bios % gap ≡ non_bios = mod-eq_of_lt (omega arith) in absurd (ground arith)
    | inr more ↦
        let next : gap ≢ non_bios + 1 = λ z. absurd (ground arith) in
        let (found, e, low, high, n) =
          gap_loop_total rounds non_bios (gap + 1) p b (omega arith) (omega arith) (omega arith) in
        (
          found,
          rw (==_no gap 0 (λ z. absurd (omega arith)), t, add64_lem gap 1 (omega arith)) e,
          omega arith,
          high,
          n,
        )
  ]
]

-- An assignment to an element.
record Assigned (aliases : List String) (at : ℕ) (name : String) : Type 0 where
  assigned : List String
  runs : set_alias aliases at name ≡ some assigned
  here : get_elem? assigned at ≡ some name
  others : (k : ℕ) → k ≢ at → get_elem? assigned k ≡ get_elem? aliases k

assign :
    (aliases : List String) (at : ℕ) (name old : String)
    → get_elem? aliases at ≡ some old
    → Assigned aliases at name
unfolding set_alias
assign [] at name old e = absurd (cc e)
assign (x ∷ aliases) zero name old e = record {
  assigned = name ∷ aliases;
  runs = refl;
  here = refl;
  others = λ k n.
      elim k as (λ k. k ≢ 0 → get_elem? (name ∷ aliases) k ≡ get_elem? (x ∷ aliases) k) [
        | zero ↦ λ n. absurd (n refl)
        | suc j ↦ λ n. refl
      ]
        n;
}
assign (x ∷ aliases) (suc at) name old e =
    let rest = assign aliases at name old e in
    record {
      assigned = x ∷ rest.assigned;
      runs = rw (rest.runs) refl;
      here = rest.here;
      others = λ k n.
          elim k
              as (λ k. k ≢ suc at → get_elem? (x ∷ rest.assigned) k ≡ get_elem? (x ∷ aliases) k) [
                | zero ↦ λ n. refl
                | suc j ↦ λ n. rest.others j (λ e. n (ap suc e))
              ]
            n;
    }

-- Each name beside bios is held by the list.
abbrev pub AllHeld : List String → ℕ → ℕ → List String → Type 0
AllHeld aliases total_nodes b peers =
    (k : ℕ) (x : String)
    → k < total_nodes
    → k ≢ b
    → get_elem? aliases k ≡ some x
    → holds x peers ≡ true

module _ (total_nodes b : ℕ) where
  name_at :
      (aliases : List String)
      → OnlyBios aliases total_nodes b
      → (k : ℕ) → k < total_nodes
      → (x : String) × (get_elem? aliases k ≡ some x) × (str_eq x "bios" ≡ (k == b))
  unfolding is_bios_ndx
  name_at aliases only k h = by_name (get_elem? aliases k) (only.others k h)
    where
      by_name :
          (o : Option String)
          → continue o (λ name. some (str_eq name "bios")) ≡ some (k == b)
          → (x : String) × (o ≡ some x) × (str_eq x "bios" ≡ (k == b))
      by_name none e = absurd (cc e)
      by_name (some x) e = (x, refl, cc e)

  kept_bios :
      (aliases : List String) (at m : ℕ) (name : String) (only : OnlyBios aliases total_nodes b)
      (done : Assigned aliases at name)
      → at < total_nodes
      → at ≢ b
      → m < total_nodes
      → m ≢ b
      → get_elem? aliases m ≡ some name
      → OnlyBios done.assigned total_nodes b
  unfolding is_bios_ndx
  kept_bios aliases at m name only done h n i j e = record {
    here = only.here;
    small = only.small;
    others = λ k l. elim (Bool-cases (k == at)) [
      | inl t ↦
          let same : k ≡ at = ground arith in
          let (x, f, plain) = name_at aliases only m i in
          let named : x ≡ name = cc (e, f) in
          let beside : (m == b) ≡ false = ==_no m b j in
          let at_beside : (k == b) ≡ false = ==_no k b (λ z. n (sym same ∙ z)) in
          let found : get_elem? done.assigned k ≡ some name =
            ap (get_elem? done.assigned) same ∙ done.here in
          rw (found, at_beside) (ap some (ap (λ y. str_eq y "bios") (sym named) ∙ plain ∙ beside))
      | inr f ↦
          let other : k ≢ at = λ z. absurd (ground arith) in
          rw (done.others k other) (only.others k l)
    ];
  }

  kept_held :
      (aliases peers : List String) (at m : ℕ) (name : String) (done : Assigned aliases at name)
      → AllHeld aliases total_nodes b peers
      → m < total_nodes
      → m ≢ b
      → get_elem? aliases m ≡ some name
      → AllHeld done.assigned total_nodes b peers
  kept_held aliases peers at m name done held i j e k x l n f = elim (Bool-cases (k == at)) [
    | inl t ↦
        let same : k ≡ at = ground arith in
        let found = ap (get_elem? done.assigned) same ∙ done.here in
        let named : name ≡ x = cc (found, f) in
        subst (λ y. holds y peers ≡ true) named (held m name i j e)
    | inr g ↦
        let other : k ≢ at = λ z. absurd (ground arith) in
        held k x l n (sym (done.others k other) ∙ f)
  ]

  next_but_found :
      (aliases : List String) (only : OnlyBios aliases total_nodes b) (i ndx : ℕ)
      → ndx < total_nodes
      → ndx ≢ b
      → (m : ℕ) × (next_but aliases total_nodes i ndx ≡ some m) × (m < total_nodes) × (m ≢ b)
  unfolding next_but
  next_but_found aliases only i ndx h n =
      let (loop, m, e, low, beside) = next_found aliases total_nodes b only ndx h n in
      let (again, j, f, low2, beside2) = next_found aliases total_nodes b only m low beside in
      elim (Bool-cases (m == i)) [
        | inl t ↦ (j, rw (e, t, f) refl, low2, beside2)
        | inr g ↦ (m, rw (e, g) refl, low, beside)
      ]

-- Where the peers of a node hold each name beside bios, the loop on `found` of `make_star` does not end,
-- after however many rounds.
pub found_loop_endless :
    (total_nodes b i at ndx : ℕ) (name : String) (peers : List String) (st : StarState) (rounds : ℕ)
    → OnlyBios st.aliases total_nodes b
    → AllHeld st.aliases total_nodes b peers
    → peers_of st.mesh.nodes name ≡ some peers
    → at < total_nodes
    → at ≢ b
    → ndx < total_nodes
    → ndx ≢ b
    → found_loop rounds total_nodes i at name ndx st ≡ running
unfolding found_loop ◌>>=◌
found_loop_endless total_nodes b i at ndx name peers st zero only held p h n l m = refl
found_loop_endless total_nodes b i at ndx name peers st (suc rounds) only held p h n l m =
    let (x, ex, plain) = name_at total_nodes b st.aliases only at h in
    let (next, en, low, beside) = next_but_found total_nodes b st.aliases only i ndx l m in
    let (y, ey, plain2) = name_at total_nodes b st.aliases only next low in
    let done = assign st.aliases at y x ex in
    rw (p, ex)
      (by_held (holds x peers) (held at x h n ex) next y done.assigned en ey done.runs (
        found_loop_endless total_nodes b i at next name peers
          (record st { aliases = done.assigned }) rounds
          (kept_bios total_nodes b st.aliases at next y only done h n low beside ey)
          (kept_held total_nodes b st.aliases peers at next y done held low beside ey) p h n low
          beside))
  where
    go : List String → ℕ → Loop (ℕ × StarState)
    go aliases next = found_loop rounds total_nodes i at name next (record st { aliases = aliases })

    by_held :
        (c : Bool)
        → c ≡ true
        → (next : ℕ) (y : String) (assigned : List String)
        → next_but st.aliases total_nodes i ndx ≡ some next
        → get_elem? st.aliases next ≡ some y
        → set_alias st.aliases at y ≡ some assigned
        → go assigned next ≡ running
        → elim c as (λ c. Loop (ℕ × StarState)) [
          | false ↦ ended (ndx, st)
          | true ↦ (do
            next ← defined (next_but st.aliases total_nodes i ndx)
            name ← defined (get_elem? st.aliases next)
            aliases ← defined (set_alias st.aliases at name)
            go aliases next)
        ]
          ≡ running
    by_held false e next y assigned en ey r g = absurd (cc e)
    by_held true e next y assigned en ey r g =
        ap
          (λ o. defined o >>= λ next. defined (get_elem? st.aliases next) >>= λ name.
            defined (set_alias st.aliases at name) >>= λ aliases. go aliases next)
          en
        ∙ ap
            (λ o. defined o >>= λ name.
              defined (set_alias st.aliases at name) >>= λ aliases. go aliases next)
            ey
        ∙ ap (λ o. defined o >>= λ aliases. go aliases next) r
        ∙ g

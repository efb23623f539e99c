-- ===== src/Launcher/SkipReaches.antt =====
-- Where `skip_ndx` of eosio-launcher2/main.cpp leads in a network in which only the node at index
-- `b` is bios.
use eos_tools.Prelude.{
  ℕ, zero, suc, Bool, true, false, some, List, ◌==◌, ◌+◌, ◌-◌, ◌%◌, ◌<◌, ◌≤◌, ltb, if◌then◌else◌,
  ◌≡◌, ◌≢◌, ◌⊎◌, ◌^◌, refl, sym, ap, ◌∙◌, subst, arith, ==_yes, ==_no, inl, inr, Bool-cases, lt→ltb,
  ltb→lt,
}
use native.Mathlib.Nat.{mod-eq_of_lt, mod-eq-sub-mod}
use eos_tools.Prelude.Text.{String}
use eos_tools.Prelude.Word.{add64_lem}
use eos_tools.Launcher.Ndx.{is_bios_ndx, start_ndx, next_ndx_calls, next_ndx}
use eos_tools.Launcher.Skip.{skip_loop, skip_ndx}

-- The index of bios, and no other.
pub record OnlyBios (aliases : List String) (total_nodes b : ℕ) : Type 0 where
  pub here : b < total_nodes
  pub small : total_nodes < 2 ^ 63
  pub others : (k : ℕ) → k < total_nodes → is_bios_ndx aliases k ≡ some (k == b)

-- The index that follows in the cycle of all of them.
unfoldable pub after : ℕ → ℕ → ℕ
after total_nodes k = if k + 1 == total_nodes then 0 else k + 1

-- The index that `skip_ndx` finds: the offset further, and one more where that is bios.
unfoldable pub skipped : ℕ → ℕ → ℕ → ℕ → ℕ
skipped total_nodes b from offset =
    let ndx = (from + offset) % total_nodes in if ndx == b then after total_nodes ndx else ndx

-- The remainder of a number that passes `n` once at most.
pub mod_near : (x n : ℕ) → 0 < n → x < n + n → ((x < n) × (x % n ≡ x)) ⊎ ((n ≤ x) × (x % n ≡ x - n))
mod_near x n p h = elim (Bool-cases (ltb x n)) [
  | inl t ↦ (let few = ltb→lt x n t in inl (few, mod-eq_of_lt few))
  | inr f ↦
      let many : n ≤ x = ground arith in
      inr (many, mod-eq-sub-mod many ∙ mod-eq_of_lt (omega arith))
]

module _ (aliases : List String) (total_nodes b : ℕ) (only : OnlyBios aliases total_nodes b) where
  pub start_found : start_ndx aliases ≡ some (if 0 == b then 1 else 0)
  unfolding start_ndx
  start_found = let h = only.here in rw (only.others 0 (omega arith)) refl

  pub next_of_bios :
      (calls : ℕ)
      → 2 ≤ total_nodes
      → (loop : Bool) × (next_ndx_calls (suc calls) aliases total_nodes b
          ≡ some (loop, after total_nodes b))
  unfolding next_ndx_calls after
  next_of_bios calls two =
      let h = only.here in
      let s = only.small in
      elim (Bool-cases (b + 1 == total_nodes)) [
        | inl t ↦
            let first : (0 == b) ≡ false = ground arith in
            (true, rw (add64_lem b 1 (omega arith), t, next_ndx_calls, start_found, first) refl)
        | inr f ↦
            let second : (b + 1 == b) ≡ false = ground arith in
            let inside : b + 1 < total_nodes = ground arith in
            (
              false,
              rw
                  (
                    add64_lem b 1 (omega arith),
                    f,
                    next_ndx_calls,
                    only.others (b + 1) inside,
                    second,
                    add64_lem b 1 (omega arith),
                  )
                  refl,
            )
      ]

  skip_found :
      (attempts from ndx : ℕ)
      → ndx < total_nodes
      → ndx ≢ b
      → ndx ≢ from
      → skip_loop attempts aliases total_nodes from ndx ≡ some ndx
  unfolding skip_loop
  skip_found zero from ndx h n m = refl
  skip_found (suc attempts) from ndx h n m =
      rw (only.others ndx h, ==_no ndx b n, ==_no ndx from m) refl

  skip_from_bios :
      (attempts from : ℕ)
      → 2 ≤ total_nodes
      → after total_nodes b < total_nodes
      → after total_nodes b ≢ b
      → after total_nodes b ≢ from
      → skip_loop (suc attempts) aliases total_nodes from b ≡ some (after total_nodes b)
  unfolding skip_loop next_ndx
  skip_from_bios attempts from two h n m =
      let (loop, e) = next_of_bios (total_nodes - 1) two in
      let calls : total_nodes ≡ suc (total_nodes - 1) = omega arith in
      let next : next_ndx aliases total_nodes b ≡ some (loop, after total_nodes b) =
        ap (λ c. next_ndx_calls c aliases total_nodes b) calls ∙ e in
      rw (only.others b only.here, ==_yes b b refl, next) (skip_found attempts from _ h n m)

  -- The index found is that of a node other than bios and the one it starts from.
  pub skipped_else :
      (from offset : ℕ)
      → 3 ≤ total_nodes
      → from < total_nodes
      → 1 ≤ offset
      → offset + 2 ≤ total_nodes
      → (skipped total_nodes b from offset < total_nodes)
        × (skipped total_nodes b from offset ≢ b)
        × (skipped total_nodes b from offset ≢ from)
  unfolding skipped after
  skipped_else from offset three f o p =
      let near = mod_near (from + offset) total_nodes (omega arith) (omega arith) in
      ground (arith, near)

  pub skip_ndx-skipped :
      (from offset : ℕ)
      → 3 ≤ total_nodes
      → from < total_nodes
      → 1 ≤ offset
      → offset + 2 ≤ total_nodes
      → skip_ndx aliases total_nodes from offset ≡ some (skipped total_nodes b from offset)
  unfolding skip_ndx skipped skip_loop
  skip_ndx-skipped from offset three f o p =
      let s = only.small in
      let else_where = skipped_else from offset three f o p in
      let sum = add64_lem from offset (omega arith) in
      let ndx = (from + offset) % total_nodes in
      let near = mod_near (from + offset) total_nodes (omega arith) (omega arith) in
      let attempts : total_nodes - 2 ≡ suc (total_nodes - 3) = omega arith in
      let some_node : (total_nodes == 0) ≡ false = ==_no total_nodes 0 (omega arith) in
      rw (some_node, sum, lt→ltb 2 total_nodes (omega arith), attempts)
        (by_ndx ndx (omega (arith, near)) else_where)
    where
      to : ℕ → ℕ
      to ndx = if ndx == b then after total_nodes ndx else ndx

      by_ndx :
          (ndx : ℕ)
          → ndx < total_nodes
          → (to ndx < total_nodes) × (to ndx ≢ b) × (to ndx ≢ from)
          → skip_loop (suc (total_nodes - 3)) aliases total_nodes from ndx ≡ some (to ndx)
      by_ndx ndx h (g, i, j) = elim (Bool-cases (ndx == b)) [
        | inl t ↦
            let same : b ≡ ndx = ground arith in
            let there : to ndx ≡ after total_nodes ndx =
              ap (λ (c : Bool). if c then after total_nodes ndx else ndx) t in
            let there_b : to ndx ≡ after total_nodes b =
              there ∙ ap (after total_nodes) (sym same) in
            ap (λ k. skip_loop (suc (total_nodes - 3)) aliases total_nodes from k) (sym same)
            ∙ skip_from_bios (total_nodes - 3) from (omega arith)
                (subst (λ k. k < total_nodes) there_b g) (subst (λ k. k ≢ b) there_b i)
                (subst (λ k. k ≢ from) there_b j)
            ∙ ap some (sym there_b)
        | inr e ↦
            let there : to ndx ≡ ndx =
              ap (λ (c : Bool). if c then after total_nodes ndx else ndx) e in
            skip_found (suc (total_nodes - 3)) from ndx h (subst (λ k. k ≢ b) there i)
              (subst (λ k. k ≢ from) there j)
            ∙ ap some (sym there)
      ]

  next_before_bios :
      (calls k : ℕ)
      → k + 1 ≡ b
      → k + 1 < total_nodes
      → next_ndx_calls (suc calls) aliases total_nodes k
        ≡ next_ndx_calls calls aliases total_nodes b
  unfolding next_ndx_calls
  next_before_bios calls k e h =
      let small = only.small in
      let sum = add64_lem k 1 (omega arith) in
      let goes_on = ==_no (k + 1) total_nodes (omega arith) in
      rw (sum, goes_on, next_ndx_calls, only.others (k + 1) h, ==_yes (k + 1) b e, sum)
        (ap (λ j. next_ndx_calls calls aliases total_nodes j) e)

  -- From a node beside bios the walk leads to a node beside bios.
  pub next_found :
      (k : ℕ)
      → k < total_nodes
      → k ≢ b
      → (loop : Bool) × (m : ℕ) × (next_ndx aliases total_nodes k ≡ some (loop, m))
        × (m < total_nodes)
        × (m ≢ b)
  unfolding next_ndx next_ndx_calls after
  next_found k h n =
      let here = only.here in
      let small = only.small in
      let calls : total_nodes ≡ suc (suc (total_nodes - 2)) = omega arith in
      let (loop, m, e, low, other) = with_calls (total_nodes - 2) in
      (loop, m, ap (λ c. next_ndx_calls c aliases total_nodes k) calls ∙ e, low, other)
    where
      with_calls :
          (calls : ℕ)
          → (loop : Bool) × (m : ℕ) × (next_ndx_calls (suc (suc calls)) aliases total_nodes k
              ≡ some (loop, m))
            × (m < total_nodes)
            × (m ≢ b)
      with_calls calls =
          let here = only.here in
          let small = only.small in
          let sum = add64_lem k 1 (omega arith) in
          elim (Bool-cases (k + 1 == total_nodes)) [
            | inl t ↦ (
              true,
              (if 0 == b then 1 else 0),
              rw (sum, t, next_ndx_calls, start_found) refl,
              ground arith,
              λ z. absurd (ground arith),
            )
            | inr f ↦
                let inside : k + 1 < total_nodes = ground arith in
                elim (Bool-cases (k + 1 == b)) [
                  | inl t ↦
                      let same : k + 1 ≡ b = ground arith in
                      let (loop, e) = next_of_bios calls (omega arith) in
                      (
                        loop,
                        after total_nodes b,
                        next_before_bios (suc calls) k same inside ∙ e,
                        ground arith,
                        λ z. absurd (ground arith),
                      )
                  | inr g ↦ (
                    false,
                    k + 1,
                    rw (sum, f, next_ndx_calls, only.others (k + 1) inside, g, sum) refl,
                    inside,
                    λ z. absurd (ground arith),
                  )
                ]
          ]

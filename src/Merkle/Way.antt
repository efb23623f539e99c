-- ===== src/Merkle/Way.antt =====
-- The way up from a leaf: the positions, the values of the neighbours, and the check of a path.
use eos_tools.Prelude.{
  ℕ, zero, suc, ◌+◌, ◌-◌, ◌*◌, ◌/◌, ◌%◌, ◌^◌, ◌≤◌, ◌<◌, ◌≡◌, refl, sym, ap, ◌∙◌, false, inl, inr,
  some, List, [], ◌∷◌, ◌++◌, arith, Bool-cases, ltb, if◌then◌else◌, length, get_elem?,
  get_elem?-append, length-append,
}
use mathlib.Core.List.{append_assoc}
use eos_tools.Prelude.Word.{add32, sub32, int_mod, as_int_lem}
use eos_tools.Merkle.Digest.{DigestOps, DigestLaws, IncrementalMerkle}
use eos_tools.Merkle.Chain.{SimBlock}
use eos_tools.Merkle.Position.{
  is_odd, positions_loop, get_merkle_path_positions_to_layer_in_full_branch,
}
use eos_tools.Merkle.Path.{siblings_loop, combine, verify_loop}
use eos_tools.Merkle.Node.{hash_pair}
use eos_tools.Merkle.Tree.{
  Tree, Realizes, Blocks, shr, shr-suc, shr_bounds, shr-le, last_mono, sibling, sibling_parity,
}
use eos_tools.Merkle.Value.{sibling_value_found}

-- The positions of the neighbours from height `h` on.
abbrev pub way : ℕ → ℕ → ℕ → List (ℕ × ℕ)
way a h zero = []
way a h (suc r) = (suc h, sibling a h) ∷ way a (suc h) r

pub positions_loop-way :
    (r a h layer top : ℕ)
    → a < 2 ^ 31
    → layer ≡ suc (suc h)
    → top ≡ h + r
    → positions_loop r layer (suc (shr a h)) ≡ (way a (suc h) r, suc (shr a top))
unfolding positions_loop add32 sub32
positions_loop-way zero a h c g b e f = let same : g ≡ h = omega arith in rw same
positions_loop-way (suc r) a h c g b e f =
    let up : add32 (suc (shr a h)) 1 / 2 ≡ suc (shr a (suc h)) =
      omega (arith, shr-suc a h, shr-le a h) in
    rw up (ground (arith, shr-le a (suc h), positions_loop-way r a (suc h) (c + 1) g))

-- The positions end with the node at height r + 1 above leaf `a`.
pub positions-way :
    (a r : ℕ)
    → a < 2 ^ 31
    → get_merkle_path_positions_to_layer_in_full_branch (suc a) (suc (suc r))
      ≡ way a 1 r ++ (suc (suc r), suc (shr a (suc r))) ∷ []
unfolding get_merkle_path_positions_to_layer_in_full_branch add32
positions-way a r b =
    let rounds : suc (suc r) - 2 ≡ r = omega arith in
    let high : ltb (suc (suc r)) 2 ≡ false = ground arith in
    rw high (
      rw rounds (
        rw (positions_loop-way r a 0 2 r b refl (omega arith)) (
          ap (λ (x : ℕ). way a 1 r ++ (suc (suc r), x) ∷ [])
            (omega (arith, shr-suc a r, shr-le a r)))))

module _ {D : Type 0} (o : DigestOps D) {base : ℕ} (t : Tree o base) where
  open t use {node, law}
  open o use {make_canonical_left, make_canonical_right}

  -- The neighbour at height h, marked for its side.
  abbrev pub partner : ℕ → ℕ → D
  partner a h =
      if is_odd (shr a h)
      then make_canonical_left (node h (sibling a h))
      else make_canonical_right (node h (sibling a h))

  abbrev pub partners : ℕ → ℕ → ℕ → List D
  partners a h zero = []
  partners a h (suc r) = partner a h ∷ partners a (suc h) r

  pub length-partners : (a h r : ℕ) → length (partners a h r) ≡ r
  length-partners a h zero = refl
  length-partners a h (suc r) = ap suc (length-partners a (suc h) r)

  module _ (laws : DigestLaws o) where
    pub parent :
        (h j l : ℕ)
        → l ≡ suc (2 * j)
        → base < suc j * 2 ^ suc h
        → o.hash (make_canonical_left (node h l), make_canonical_right (node h (suc l)))
          ≡ node (suc h) (suc j)
    unfolding hash_pair
    parent h j l e b =
        ap o.hash (sym (laws.pair_lem (node h l) (node h (suc l))))
        ∙ ap (λ (x : ℕ). hash_pair o (node h x) (node h (suc x))) e
        ∙ sym (law h j b)

    -- With its partner a node on the way gives the next one.
    combine-partner :
        (a h : ℕ)
        → base ≤ a
        → combine o (node h (suc (shr a h))) (partner a h) ≡ node (suc h) (suc (shr a (suc h)))
    unfolding combine
    combine-partner a h b =
        let s = shr a h in
        let beyond = shr_bounds a (suc h) in
        let up = shr-suc a h in
        elim (Bool-cases (is_odd s)) [
          | inl right ↦ rw right (
              rw (laws.left_is_left (node h s))
                (parent h (shr a (suc h)) s (ground arith) (omega arith)))
          | inr left ↦ rw left (
              rw (laws.right_not_left (node h (suc (suc s))))
                (parent h (shr a (suc h)) (suc s) (ground arith) (omega arith)))
        ]

    -- The rounds of the check lead from the node at height h to the one `r` higher.
    pub verify_loop-partners :
        (r a h i top : ℕ) (path before after : List D)
        → base ≤ a
        → top ≡ h + r
        → path ≡ before ++ (partners a h r ++ after)
        → length before ≡ i + 2
        → i + 2 + r < int_mod
        → verify_loop o r i path (node h (suc (shr a h))) ≡ some (node top (suc (shr a top)))
    unfolding verify_loop
    verify_loop-partners zero a h i g path before after b e q l z =
        let same : g ≡ h = omega arith in rw same
    verify_loop-partners (suc r) a h i g path before after b e q l z =
        let x = partner a h in
        let rest = partners a (suc h) r ++ after in
        let next : get_elem? path (i + 2) ≡ some x =
          rw q (rw (← l) (get_elem?-append before x rest)) in
        rw (as_int_lem (i + 2) (omega arith), next)
          (rw (combine-partner a h b) (
            verify_loop-partners r a (suc h) (i + 1) g path (before ++ x ∷ []) after b (omega arith)
              (q ∙ sym (append_assoc before (x ∷ []) rest))
              (omega (arith, l, length-append before (x ∷ []))) (omega arith)))

  module _ (bs : List (SimBlock D)) (blocks : Blocks node base bs)
      (small : base + length bs < 2 ^ 31)
      (aligned : (a h : ℕ) → base ≤ a → shr a h % 2 ≡ 1 → base ≤ shr a h * 2 ^ h) where
    pub siblings_loop-way :
        (r a h top : ℕ) (reference : IncrementalMerkle D)
        → Realizes node a reference
        → 0 < h
        → base ≤ a
        → top ≡ h + r
        → suc (shr a top) * 2 ^ top ≤ base + length bs
        → siblings_loop o bs reference (way a h r) ≡ some (partners a h r)
    unfolding siblings_loop
    siblings_loop-way zero a h g m w p b e f = refl
    siblings_loop-way (suc r) a h g m w p b e f =
        let value =
          sibling_value_found o t bs blocks small aligned h a m w p b
            (omega (arith, last_mono r a (suc h) g (omega arith))) in
        let rest = siblings_loop-way r a (suc h) g m w (omega arith) b (omega arith) f in
        rw value (rw rest (rw (sibling_parity a h)))

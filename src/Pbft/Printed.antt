-- ===== src/Pbft/Printed.antt =====
-- What the tools of src/eosio-pbftdb and src/eosio-checkpoints print for a file that holds the packed
-- states `states`.
use mathlib.Core.List.{Perm, perm_middle, append_assoc, append-nil}
use mathlib.Core.List.Perm
use eos_tools.Prelude.{
  ℕ, Bool, true, false, Option, some, List, [], ◌∷◌, ◌++◌, ◌≡◌, refl, sym, ap, ◌∙◌, ◌||◌, subst,
  map, length, All, arith, inl, inr, Bool-cases,
}
use eos_tools.Pbft.Index.{IndexOps, IndexLaws, holds, IsSorted}
use eos_tools.Pbft.Types.{PbftState, PbftCheckpointState, ByNum, ByCommitAndNum}
use eos_tools.Pbft.Read.{Bytes, info, load_loop, print_all, read_checkpoints, read_states}

module _ {S I : Type 0} (id : S → I) (same : I → I → Bool) where
  -- The states in the order of the file, behind `kept`, less those whose id is there before them.
  unfoldable pub firsts : List S → List S → List S
  firsts kept [] = kept
  firsts kept (s ∷ states) = elim (holds id same kept (id s)) [
    | true ↦ firsts kept states
    | false ↦ firsts (kept ++ (s ∷ [])) states
  ]

  holds-append :
      (xs ys : List S) (i : I)
      → holds id same (xs ++ ys) i ≡ (holds id same xs i || holds id same ys i)
  unfolding holds
  holds-append [] ys i = refl
  holds-append (x ∷ xs) ys i =
      let later = holds-append xs ys i in let here = same (id x) i in ground (arith, later)

-- `unpack` reads what `pack` writes for the state.
abbrev pub Reads : {S : Type 0} → (Bytes → Option (S × Bytes)) → (S → Bytes) → S → Type 0
Reads unpack pack s = (rest : Bytes) → unpack (pack s ++ rest) ≡ some (s, rest)

-- The bytes of the states, one after the other.
abbrev pub pack_all : {S : Type 0} → (S → Bytes) → List S → Bytes
pack_all pack [] = []
pack_all pack (s ∷ states) = pack s ++ pack_all pack states

module _ {S I C : Type 0} {ops : IndexOps S C} {id : S → I} {same : I → I → Bool}
    {Before : S → S → Type 0} (laws : IndexLaws ops id same Before) where
  -- The index holds the states `kept`, whatever their order there.
  record Agrees (c : C) (kept : List S) : Type 0 where
    same_items : Perm (ops.ordered c) kept
    same_ids : (i : I) → holds id same (ops.ordered c) i ≡ holds id same kept i
    sorted : IsSorted Before (ops.ordered c)

  empty-Agrees : Agrees ops.empty []
  unfolding holds
  empty-Agrees = record {
    same_items = rw (laws.ordered_empty) Perm.nil;
    same_ids = λ i. rw (laws.ordered_empty) refl;
    sorted = rw (laws.ordered_empty) tt;
  }

  -- `insert` of a state whose id is not there is, but for the order, an append.
  insert-Agrees :
      (c : C) (kept : List S) (s : S)
      → Agrees c kept
      → holds id same kept (id s) ≡ false
      → Agrees (ops.insert c s) (kept ++ (s ∷ []))
  unfolding holds
  insert-Agrees c kept s a h =
      let (xs, ys, before, after) = laws.placed c s (a.same_ids (id s) ∙ h) in
      record {
        same_items = rw (after) (
            Perm.trans (perm_middle xs ys) (
              Perm.trans (Perm.cons s (subst (λ l. Perm l kept) before a.same_items)) (
                Perm.symm (
                  subst (λ l. Perm (kept ++ (s ∷ [])) (s ∷ l)) (append-nil kept)
                    (perm_middle kept [])))));
        same_ids = λ i.
            rw (after, holds-append id same xs (s ∷ ys) i, holds-append id same kept (s ∷ []) i)
              (ids_placed i xs ys (
                sym (holds-append id same xs ys i)
                ∙ ap (λ l. holds id same l i) (sym before)
                ∙ a.same_ids i));
        sorted = laws.kept_sorted c s a.sorted;
      }
    where
      ids_placed :
          (i : I) (xs ys : List S)
          → (holds id same xs i || holds id same ys i) ≡ holds id same kept i
          → (holds id same xs i || holds id same (s ∷ ys) i)
            ≡ (holds id same kept i || holds id same (s ∷ []) i)
      ids_placed i xs ys e = ground arith

  firsts_agree :
      (unpack : Bytes → Option (S × Bytes)) (pack : S → Bytes)
      → (states : List S) → All (Reads unpack pack) states
      → (kept : List S) (rest : Bytes) (c : C) → Agrees c kept
      → (last : C) × (load_loop ops unpack (length states) (pack_all pack states ++ rest) c
          ≡ some last)
        × Agrees last (firsts id same kept states)
  unfolding load_loop firsts
  firsts_agree unpack pack [] reads kept rest c a = (c, refl, a)
  firsts_agree unpack pack (s ∷ states) reads kept rest c a =
      let more = pack_all pack states ++ rest in
      let read_here = append_assoc (pack s) (pack_all pack states) rest in
      elim (Bool-cases (holds id same kept (id s))) [
        | inl t ↦
            let there = a.same_ids (id s) ∙ t in
            let (last, r, b) = firsts_agree unpack pack states reads.1 kept rest c a in
            (last, rw (read_here, reads.0 more, laws.refused c s there) r, rw (t, firsts) b)
        | inr f ↦
            let (last, r, b) =
              firsts_agree unpack pack states reads.1 (kept ++ (s ∷ [])) rest (ops.insert c s)
                (insert-Agrees c kept s a f) in
            (last, rw (read_here, reads.0 more) r, rw (f, firsts) b)
      ]

  -- What `load_loop` reads from the packed states.
  loaded :
      (unpack : Bytes → Option (S × Bytes)) (pack : S → Bytes)
      → (states : List S) → All (Reads unpack pack) states
      → (c : C) × (load_loop ops unpack (length states) (pack_all pack states) ops.empty ≡ some c)
        × Agrees c (firsts id same [] states)
  loaded unpack pack states reads =
      subst
        (λ bytes.
          (c : C) × (load_loop ops unpack (length states) bytes ops.empty ≡ some c)
          × Agrees c (firsts id same [] states))
        (append-nil (pack_all pack states))
        (firsts_agree unpack pack states reads [] [] ops.empty empty-Agrees)

-- Where `unpack` and `unpack_size` read what is packed, the tool for checkpoints prints, for a file of
-- packed states, the states of the file less those with the id of an earlier one, by rising number.
pub read_checkpoints-firsts :
    {I K G C : Type 0} {ops : IndexOps (PbftCheckpointState I K G) C} {same : I → I → Bool}
    (laws : IndexLaws ops (λ s. s.block_id) same ByNum)
    (unpack : Bytes → Option (PbftCheckpointState I K G × Bytes))
    (pack : PbftCheckpointState I K G → Bytes) (unpack_size : Bytes → Option (ℕ × Bytes))
    (pack_size : ℕ → Bytes)
    → ((n : ℕ) (rest : Bytes) → unpack_size (pack_size n ++ rest) ≡ some (n, rest))
    → (states : List (PbftCheckpointState I K G)) → All (Reads unpack pack) states
    → (printed : List (PbftCheckpointState I K G)) × (read_checkpoints ops unpack unpack_size
          (some (pack_size (length states) ++ pack_all pack states))
        ≡ some (map info printed))
      × Perm printed (firsts (λ s. s.block_id) same [] states)
      × IsSorted ByNum printed
unfolding read_checkpoints print_all
read_checkpoints-firsts {ops} laws unpack pack unpack_size pack_size reads_size states reads =
    let (c, r, a) = loaded laws unpack pack states reads in
    (
      ops.ordered c,
      rw (reads_size (length states) (pack_all pack states), r) refl,
      a.same_items,
      a.sorted,
    )

-- The tool for the pbft database prints, for a file of a view and packed states, the states of the
-- file less those with the id of an earlier one: the committed ones first, then by falling number.
pub read_states-firsts :
    {I K G C : Type 0} {ops : IndexOps (PbftState I K G) C} {same : I → I → Bool}
    (laws : IndexLaws ops (λ s. s.block_id) same ByCommitAndNum)
    (unpack : Bytes → Option (PbftState I K G × Bytes)) (pack : PbftState I K G → Bytes)
    (unpack_size unpack_view : Bytes → Option (ℕ × Bytes)) (pack_size pack_view : ℕ → Bytes)
    → ((n : ℕ) (rest : Bytes) → unpack_size (pack_size n ++ rest) ≡ some (n, rest))
    → ((n : ℕ) (rest : Bytes) → unpack_view (pack_view n ++ rest) ≡ some (n, rest))
    → (view : ℕ) (states : List (PbftState I K G)) → All (Reads unpack pack) states
    → (printed : List (PbftState I K G)) × (read_states ops unpack unpack_size unpack_view
          (some (pack_view view ++ (pack_size (length states) ++ pack_all pack states)))
        ≡ some (map info printed))
      × Perm printed (firsts (λ s. s.block_id) same [] states)
      × IsSorted ByCommitAndNum printed
unfolding read_states print_all
read_states-firsts {ops} laws unpack pack unpack_size unpack_view pack_size pack_view reads_size
      reads_view view states reads =
    let (c, r, a) = loaded laws unpack pack states reads in
    (
      ops.ordered c,
      rw
          (
            reads_view view (pack_size (length states) ++ pack_all pack states),
            reads_size (length states) (pack_all pack states),
            r,
          )
          refl,
      a.same_items,
      a.sorted,
    )

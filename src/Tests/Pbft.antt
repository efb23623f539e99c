-- ===== src/Tests/Pbft.antt =====
-- The theorems on the pbft printers, with an index that sorts by insertion and states packed as a few
-- numbers.
use mathlib.Core.List.{Perm}
use eos_tools.Prelude.{
  ℕ, Bool, true, false, not, Option, none, some, List, [], ◌∷◌, ◌++◌, ◌≡◌, refl, ◌≤◌, ◌||◌, ◌&&◌,
  ◌==◌, leb, leb→le, arith, map, inl, inr, ◌⊎◌, ap, if◌then◌else◌, length, Bool-cases,
}
use eos_tools.Pbft.Index.{IndexOps, IndexLaws, holds, IsSorted}
use eos_tools.Pbft.Types.{PbftState, PbftCheckpointState, ByNum, ByCommitAndNum}
use eos_tools.Pbft.Read.{Bytes, info, read_checkpoints, read_states, load_loop, print_all}
use eos_tools.Pbft.Printed.{pack_all, firsts, read_checkpoints-firsts, read_states-firsts}

module _ {S : Type 0} (id : S → ℕ) (before : S → S → Bool) where
  insert_sorted : S → List S → List S
  insert_sorted s [] = s ∷ []
  insert_sorted s (x ∷ xs) =
      let later = insert_sorted s xs in if before s x then s ∷ x ∷ xs else x ∷ later

  insert_new : List S → S → List S
  insert_new c s = if holds id (λ a b. a == b) c (id s) then c else insert_sorted s c

  sorting : IndexOps S (List S)
  sorting = record { empty = []; insert = insert_new; ordered = λ c. c }

  sorted_place :
      (s : S) (c : List S)
      → (xs ys : List S) × (c ≡ xs ++ ys) × (insert_sorted s c ≡ xs ++ (s ∷ ys))
  unfolding insert_sorted
  sorted_place s [] = ([], [], refl, refl)
  sorted_place s (x ∷ c) = elim (Bool-cases (before s x)) [
    | inl t ↦ ([], x ∷ c, refl, rw (t) refl)
    | inr f ↦
        let (xs, ys, e, g) = sorted_place s c in (x ∷ xs, ys, ap (◌∷◌ x) e, rw (f) (ap (◌∷◌ x) g))
  ]

  module _ (Before : S → S → Type 0) (yes_before : (a b : S) → before a b ≡ true → Before a b)
      (not_before : (a b : S) → before a b ≡ false → Before b a) where
    later-IsSorted :
        (x s : S) (c : List S)
        → IsSorted Before (x ∷ c)
        → Before x s
        → IsSorted Before (x ∷ insert_sorted s c)
    unfolding insert_sorted
    later-IsSorted x s [] h b = (b, tt)
    later-IsSorted x s (y ∷ c) h b = elim (Bool-cases (before s y)) [
      | inl t ↦ rw (t) (b, (yes_before s y t, h.1))
      | inr f ↦ rw (f) (h.0, later-IsSorted y s c h.1 (not_before s y f))
    ]

    insert-IsSorted : (s : S) (c : List S) → IsSorted Before c → IsSorted Before (insert_sorted s c)
    unfolding insert_sorted
    insert-IsSorted s [] h = tt
    insert-IsSorted s (x ∷ c) h = elim (Bool-cases (before s x)) [
      | inl t ↦ rw (t) (yes_before s x t, h)
      | inr f ↦ rw (f) (later-IsSorted x s c h (not_before s x f))
    ]

    sorting_laws : IndexLaws sorting id (λ a b. a == b) Before
    unfolding sorting insert_new
    sorting_laws = record {
      ordered_empty = refl;
      refused = λ c s t. rw (t) refl;
      placed = λ c s f. rw (f) (sorted_place s c);
      kept_sorted = λ c s h. elim (Bool-cases (holds id (λ a b. a == b) c (id s))) [
        | inl t ↦ rw (t) h
        | inr f ↦ rw (f) (insert-IsSorted s c h)
      ];
    }

abbrev Checkpoint : Type 0
Checkpoint = PbftCheckpointState ℕ ℕ ℕ

abbrev checkpoint : ℕ → ℕ → Checkpoint
checkpoint id num = record { block_id = id; block_num = num; checkpoints = []; is_stable = true }

abbrev pack_checkpoint : Checkpoint → Bytes
pack_checkpoint s = s.block_id ∷ s.block_num ∷ []

abbrev unpack_checkpoint : Bytes → Option (Checkpoint × Bytes)
unpack_checkpoint (id ∷ num ∷ rest) = some (checkpoint id num, rest)
unpack_checkpoint _ = none

abbrev pack_number : ℕ → Bytes
pack_number n = n ∷ []

abbrev unpack_number : Bytes → Option (ℕ × Bytes)
unpack_number [] = none
unpack_number (n ∷ rest) = some (n, rest)

abbrev num_before : Checkpoint → Checkpoint → Bool
num_before a b = leb a.block_num b.block_num

abbrev by_num : IndexOps Checkpoint (List Checkpoint)
by_num = sorting (λ s. s.block_id) num_before

by_num_laws : IndexLaws by_num (λ s. s.block_id) (λ a b. a == b) ByNum
by_num_laws =
    sorting_laws (λ s. s.block_id) num_before ByNum (λ a b h. leb→le a.block_num b.block_num h)
      (λ a b h. ground arith)

abbrev three : List Checkpoint
three = checkpoint 7 30 ∷ checkpoint 8 20 ∷ checkpoint 7 10 ∷ []

read_checkpoints-firsts_example :
    (printed : List Checkpoint) × (read_checkpoints by_num unpack_checkpoint unpack_number
        (some (pack_number (length three) ++ pack_all pack_checkpoint three))
      ≡ some (map info printed))
    × Perm printed (firsts (λ s. s.block_id) (λ a b. a == b) [] three)
    × IsSorted ByNum printed
read_checkpoints-firsts_example =
    read_checkpoints-firsts by_num_laws unpack_checkpoint pack_checkpoint unpack_number pack_number
      (λ n rest. refl) three (λ rest. refl, (λ rest. refl, (λ rest. refl, tt)))

checkpoints_printed :
    read_checkpoints by_num unpack_checkpoint unpack_number
      (some (3 ∷ 7 ∷ 30 ∷ 8 ∷ 20 ∷ 7 ∷ 10 ∷ []))
    ≡ some (info (checkpoint 8 20) ∷ info (checkpoint 7 30) ∷ [])
unfolding read_checkpoints load_loop print_all sorting insert_new insert_sorted holds
checkpoints_printed = refl

abbrev State : Type 0
State = PbftState ℕ ℕ ℕ

abbrev state : ℕ → ℕ → Bool → State
state id num committed = record {
  block_id = id;
  block_num = num;
  prepares = [];
  should_prepared = true;
  commits = [];
  should_committed = committed;
}

abbrev pack_state : State → Bytes
pack_state s = s.block_id ∷ s.block_num ∷ (if s.should_committed then 1 else 0) ∷ []

abbrev unpack_state : Bytes → Option (State × Bytes)
unpack_state (id ∷ num ∷ committed ∷ rest) = some (state id num (committed == 1), rest)
unpack_state _ = none

abbrev commit_before : State → State → Bool
commit_before a b =
    if a.should_committed
    then not b.should_committed || leb b.block_num a.block_num
    else not b.should_committed && leb b.block_num a.block_num

abbrev by_commit : IndexOps State (List State)
by_commit = sorting (λ s. s.block_id) commit_before

commit_yes :
    (a b : Bool) (n m : ℕ)
    → (if a then not b || leb m n else not b && leb m n) ≡ true
    → ((a ≡ true) × (b ≡ false)) ⊎ ((a ≡ b) × (m ≤ n))
commit_yes true true n m h = inr (refl, leb→le m n h)
commit_yes true false n m h = inl (refl, refl)
commit_yes false true n m h = absurd (ground arith)
commit_yes false false n m h = inr (refl, leb→le m n h)

commit_no :
    (a b : Bool) (n m : ℕ)
    → (if a then not b || leb m n else not b && leb m n) ≡ false
    → ((b ≡ true) × (a ≡ false)) ⊎ ((b ≡ a) × (n ≤ m))
commit_no true true n m h = inr (refl, ground arith)
commit_no true false n m h = absurd (ground arith)
commit_no false true n m h = inl (refl, refl)
commit_no false false n m h = inr (refl, ground arith)

by_commit_laws : IndexLaws by_commit (λ s. s.block_id) (λ a b. a == b) ByCommitAndNum
by_commit_laws =
    sorting_laws (λ s. s.block_id) commit_before ByCommitAndNum
      (λ a b h. commit_yes a.should_committed b.should_committed a.block_num b.block_num h)
      (λ a b h. commit_no a.should_committed b.should_committed a.block_num b.block_num h)

abbrev four : List State
four = state 1 30 false ∷ state 2 20 true ∷ state 3 40 true ∷ state 2 50 false ∷ []

read_states-firsts_example :
    (printed : List State) × (read_states by_commit unpack_state unpack_number unpack_number
        (some (pack_number 5 ++ (pack_number (length four) ++ pack_all pack_state four)))
      ≡ some (map info printed))
    × Perm printed (firsts (λ s. s.block_id) (λ a b. a == b) [] four)
    × IsSorted ByCommitAndNum printed
read_states-firsts_example =
    read_states-firsts by_commit_laws unpack_state pack_state unpack_number unpack_number
      pack_number pack_number (λ n rest. refl) (λ n rest. refl) 5 four
      (λ rest. refl, (λ rest. refl, (λ rest. refl, (λ rest. refl, tt))))

states_printed :
    read_states by_commit unpack_state unpack_number unpack_number
      (some (5 ∷ 4 ∷ 1 ∷ 30 ∷ 0 ∷ 2 ∷ 20 ∷ 1 ∷ 3 ∷ 40 ∷ 1 ∷ 2 ∷ 50 ∷ 0 ∷ []))
    ≡ some (info (state 3 40 true) ∷ info (state 2 20 true) ∷ info (state 1 30 false) ∷ [])
unfolding read_states load_loop print_all sorting insert_new insert_sorted holds
states_printed = refl

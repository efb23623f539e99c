-- ===== src/Pbft/Index.antt =====
-- The boost `multi_index_container` of src/eosio-pbftdb/pbft_database.hpp and
-- src/eosio-checkpoints/checkpoints.hpp, behind its operations and laws: a hashed unique index by
-- block id and an ordered index that the program prints.
use eos_tools.Prelude.{Bool, true, false, List, [], ◌∷◌, ◌++◌, ◌≡◌, ◌||◌}

pub record IndexOps (S C : Type 0) : Type 0 where
  pub empty : C
  pub insert : C → S → C
  -- The elements from `begin()` to `end()` of the ordered index.
  pub ordered : C → List S

-- One of the elements has the id.
unfoldable pub holds : {S I : Type 0} → (S → I) → (I → I → Bool) → List S → I → Bool
holds id same [] i = false
holds id same (x ∷ xs) i = same (id x) i || holds id same xs i

-- Each element may stand before the next one.
abbrev pub IsSorted : {S : Type 0} → (S → S → Type 0) → List S → Type 0
IsSorted Before [] = Unit
IsSorted Before (x ∷ []) = Unit
IsSorted Before (x ∷ y ∷ xs) = Before x y × IsSorted Before (y ∷ xs)

-- What boost documents: an element whose id is there is refused, another is put at a place of the
-- ordered index that keeps it in order.
pub record IndexLaws {S I C : Type 0} (ops : IndexOps S C) (id : S → I) (same : I → I → Bool)
    (Before : S → S → Type 0) : Type 0 where
  pub ordered_empty : ops.ordered ops.empty ≡ []
  pub refused : (c : C) (s : S) → holds id same (ops.ordered c) (id s) ≡ true → ops.insert c s ≡ c
  pub placed :
      (c : C) (s : S)
      → holds id same (ops.ordered c) (id s) ≡ false
      → (xs ys : List S) × (ops.ordered c ≡ xs ++ ys)
        × (ops.ordered (ops.insert c s) ≡ xs ++ (s ∷ ys))
  pub kept_sorted :
      (c : C) (s : S)
      → IsSorted Before (ops.ordered c)
      → IsSorted Before (ops.ordered (ops.insert c s))

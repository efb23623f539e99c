-- ===== src/Tests/Digest.antt =====
-- A concrete digest type and incremental merkle tree that meet what the program relies on.
use eos_tools.Prelude.{
  ℕ, zero, suc, ◌+◌, ◌-◌, ◌*◌, ◌/◌, ◌%◌, ◌^◌, ◌≤◌, ◌<◌, ◌≡◌, refl, true, false, List, [], ◌∷◌,
  arith, ◌==◌, ==_iff,
}
use native.Mathlib.Nat.{pow-suc}
use eos_tools.Merkle.Digest.{DigestOps, DigestLaws, IncrementalMerkle}
use eos_tools.Merkle.Node.{hash_pair}
use eos_tools.Merkle.Tree.{Tree, Active, Realizes, halved}
use eos_tools.Merkle.Active.{law_last}
use eos_tools.Merkle.SimCorrect.{AppendLaw}

-- The number of binary digits.
bits : ℕ → ℕ → ℕ
bits zero n = 0
bits (suc fuel) n = elim (n == 0) [ true ↦ 0 | false ↦ suc (bits fuel (n / 2)) ]

lt-bits : (fuel n : ℕ) → n ≤ fuel → n < 2 ^ bits fuel n
unfolding bits
lt-bits zero n h = omega arith
lt-bits (suc fuel) n h = ground (arith, lt-bits fuel (n / 2), pow-suc 2 (bits fuel (n / 2)))

depth : ℕ → ℕ
depth n = suc (bits n (n - 1))

abbrev mix : ℕ × ℕ → ℕ
mix (a, b) = a * 3 + b + 1

abbrev pair : ℕ → ℕ → ℕ × ℕ
pair a b = (2 * a, 2 * b + 1)

-- Adding a leaf carries upwards past the full branches.
carry : ℕ → ℕ → List ℕ → ℕ → List ℕ
carry zero n xs d = d ∷ xs
carry (suc fuel) n [] d = d ∷ []
carry (suc fuel) n (x ∷ xs) d = elim (n % 2 == 1) [
  | true ↦ carry fuel (n / 2) xs (mix (pair x d))
  | false ↦ d ∷ x ∷ xs
]

abbrev pub ops : DigestOps ℕ
unfolding depth bits carry
ops = record {
  zero_digest = 0;
  beq = ◌==◌;
  hash = mix;
  make_canonical_pair = pair;
  make_canonical_left = λ a. 2 * a;
  make_canonical_right = λ b. 2 * b + 1;
  is_canonical_left = λ a. a % 2 == 0;
  calcluate_max_depth = depth;
  append = λ m d. record {
    node_count = m.node_count + 1;
    active_nodes = carry (m.node_count + 1) m.node_count m.active_nodes d;
  };
}

depth_fits : (n : ℕ) → 0 < n → n ≤ 2 ^ (depth n - 1)
unfolding depth
depth_fits n h =
    let same : suc (bits n (n - 1)) - 1 ≡ bits n (n - 1) = omega arith in
    rw same (omega (arith, lt-bits n (n - 1) (omega arith)))

pub ops_laws : DigestLaws ops
unfolding ops depth
ops_laws = record {
  beq_iff = ==_iff;
  pair_lem = λ a b. refl;
  left_is_left = λ a. ground arith;
  right_not_left = λ a. ground arith;
  depth_lem = depth_fits;
  depth_pos = λ n h. omega arith;
}

put_even :
    (node : ℕ → ℕ → ℕ) (k n : ℕ) (xs : List ℕ) (d : ℕ)
    → n % 2 ≡ 0
    → Active node (suc k) (n / 2) xs
    → d ≡ node k (suc n)
    → Active node k (suc n) (d ∷ xs)
put_even node k n xs d p a e =
    let half : suc n / 2 ≡ n / 2 = omega arith in Active.odd (omega arith) e (rw half a)

carry-Active :
    {base : ℕ} (t : Tree ops base) (fuel k n : ℕ) (xs : List ℕ) (d : ℕ)
    → n < fuel
    → base < suc n * 2 ^ k
    → Active t.node k n xs
    → d ≡ t.node k (suc n)
    → Active t.node k (suc n) (carry fuel n xs d)
unfolding carry ops hash_pair
carry-Active t zero k n xs d f b a e = elim f [ ]
carry-Active t (suc fuel) k n [] d f b (Active.top z) e =
    put_even t.node k n [] d (omega arith) (Active.top (omega arith)) e
carry-Active t (suc fuel) k n [] d f b (Active.even p a) e = put_even t.node k n [] d p a e
carry-Active t (suc fuel) k n (x ∷ xs) d f b (Active.top z) e =
    let test : n % 2 == 1 ≡ false = ground arith in
    rw (test, carry) (put_even t.node k n (x ∷ xs) d (omega arith) (Active.top (omega arith)) e)
carry-Active t (suc fuel) k n (x ∷ xs) d f b (Active.odd p q a) e =
    let test : n % 2 == 1 ≡ true = ground arith in
    let half : suc n / 2 ≡ suc (n / 2) = omega arith in
    rw (test, carry)
      (Active.even (omega arith) (
        rw half (
          carry-Active t fuel (suc k) (n / 2) xs (mix (pair x d)) (omega arith)
            (omega (arith, halved (suc n) (suc (n / 2)) k (omega arith))) a
            (rw q (rw e (law_last ops t k n p b))))))
carry-Active t (suc fuel) k n (x ∷ xs) d f b (Active.even p a) e =
    let test : n % 2 == 1 ≡ false = ground arith in
    rw (test, carry) (put_even t.node k n (x ∷ xs) d p a e)

append_ops :
    (base : ℕ) (t : Tree ops base) (n : ℕ) (m : IncrementalMerkle ℕ)
    → base ≤ n
    → Realizes t.node n m
    → Realizes t.node (suc n) (ops.append m (t.node 0 (suc n)))
unfolding ops
append_ops base t n m h w = record {
  counted = omega (arith, w.counted);
  active = rw w.counted (
      carry-Active t (n + 1) 0 n m.active_nodes (t.node 0 (suc n)) (omega arith) (omega arith)
        w.active refl);
}

pub ops_grows : AppendLaw ops
ops_grows = record { append_lem = append_ops }

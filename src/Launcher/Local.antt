-- ===== src/Launcher/Local.antt =====
-- The way from the options to the producers' schedule on one host, of eosio-launcher2/main.cpp:
-- `initialize`, `define_network` and `bind_nodes`.
use eos_tools.Prelude.{
  ℕ, zero, suc, false, List, [], ◌∷◌, ◌+◌, ◌-◌, ◌^◌, ◌≤◌, ◌<◌, ◌≡◌, refl, sym, ap, ◌∙◌, arith, map,
  some, cons≢nil, head-eq_of_cons-eq, tail-eq_of_cons-eq,
}
use eos_tools.Prelude.Text.{String, str_eq, append}
use eos_tools.Prelude.Word.{add64_lem}
use eos_tools.Launcher.Counts.{node_counts}
use eos_tools.Launcher.Host.{EosdDef}
use eos_tools.Launcher.Define.{Names, define_local, dex}
use eos_tools.Launcher.DefineCorrect.{place, places, place-define_local}
use eos_tools.Launcher.Bind.{BindState, bind_nodes, setprods}
use eos_tools.Launcher.BindCorrect.{labels, workers_of, all_workers, setprods-bind_nodes}

counts_enough :
    (prod_nodes total_nodes producers : ℕ)
    → prod_nodes < 2 ^ 31
    → total_nodes < 2 ^ 31
    → producers < 2 ^ 31
    → (let counts = node_counts prod_nodes total_nodes producers in
        (counts.0 ≤ counts.1) × (0 < counts.1) × (counts.1 ≤ prod_nodes + total_nodes + 1))
unfolding node_counts
counts_enough prod_nodes total_nodes producers p t r =
    rw
      (
        add64_lem producers 1 (omega arith),
        add64_lem prod_nodes 1 (omega arith),
        add64_lem total_nodes 1 (omega arith),
      )
      (ground arith, ground arith, ground arith)

module _ (lexical_cast : ℕ → String) (join : String → String → String) (names : Names) where
  -- No node is named as bios is.
  abbrev OthersNamed : Type 0
  OthersNamed =
      (k : ℕ) → str_eq (append names.network_name (dex lexical_cast join names k)) "bios" ≡ false

  workers_placed :
      (k count : ℕ) (xs : List EosdDef)
      → OthersNamed
      → map place xs ≡ places lexical_cast join names k count
      → workers_of xs ≡ count
  unfolding workers_of places place
  workers_placed k zero [] h e = refl
  workers_placed k zero (x ∷ xs) h e = absurd (cons≢nil e)
  workers_placed k (suc count) [] h e = absurd (cons≢nil (sym e))
  workers_placed k (suc count) (x ∷ xs) h e =
      let named = ap (λ n. str_eq n "bios") (ap (λ p. p.0) (head-eq_of_cons-eq e)) ∙ h k in
      rw (named) (ap suc (workers_placed (k + 1) count xs h (tail-eq_of_cons-eq e)))

  workers_first :
      (count : ℕ) (xs : List EosdDef)
      → OthersNamed
      → map place xs ≡ ("bios", 9776, 8788) ∷ places lexical_cast join names 0 count
      → workers_of xs ≡ count
  unfolding workers_of place
  workers_first count [] h e = absurd (cons≢nil (sym e))
  workers_first count (x ∷ xs) h e =
      let named = ap (λ n. str_eq n "bios") (ap (λ p. p.0) (head-eq_of_cons-eq e)) in
      rw (named) (workers_placed 0 count xs h (tail-eq_of_cons-eq e))

  local_workers :
      (total_nodes : ℕ)
      → OthersNamed
      → 0 < total_nodes
      → total_nodes < 55660
      → all_workers ((define_local lexical_cast join names total_nodes).local_host ∷ [])
        ≡ total_nodes - 1
  unfolding all_workers
  local_workers zero h p b = absurd (omega arith)
  local_workers (suc count) h p b =
      let placed = (place-define_local lexical_cast join names count (omega arith)).0 in
      let counted = workers_first count _ h placed in omega (arith, counted)

-- Where the nodes that `initialize` leaves for producers are two at least with bios, and no other
-- node is named bios, `bind_nodes` returns on the host that `define_network` makes, and each producer
-- is in the schedule once and in order.
pub local_network-setprods :
    {P : Type 0} (lexical_cast : ℕ → String) (join : String → String → String) (names : Names)
    (generate : ℕ → P) (bios_key : P) (prod_nodes total_nodes producers : ℕ)
    → ((k : ℕ) → str_eq (append names.network_name (dex lexical_cast join names k)) "bios" ≡ false)
    → prod_nodes + total_nodes < 55659
    → producers < 2 ^ 31
    → 2 ≤ (node_counts prod_nodes total_nodes producers).0
    → (let counts = node_counts prod_nodes total_nodes producers in
        (st : BindState P) × (bind_nodes generate bios_key counts.0 producers
            ((define_local lexical_cast join names counts.1).local_host ∷ [])
          ≡ some st)
        × (setprods st.schedule ≡ labels 0 producers))
local_network-setprods lexical_cast join names generate bios_key prod_nodes total_nodes producers h
      b p m =
    let (enough, some_node, few) =
      counts_enough prod_nodes total_nodes producers (omega arith) (omega arith) p in
    let counts = node_counts prod_nodes total_nodes producers in
    let workers = local_workers lexical_cast join names counts.1 h some_node (omega arith) in
    setprods-bind_nodes generate bios_key counts.0 producers _ m p (omega (arith, workers))
      (omega (arith, workers))

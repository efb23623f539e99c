-- ===== src/Launcher/Counts.antt =====
-- The numbers of nodes that `initialize` of eosio-launcher2/main.cpp sets where no server file is
-- given.
use eos_tools.Prelude.{ℕ, ltb, if◌then◌else◌}
use eos_tools.Prelude.Word.{add64}

-- The new `prod_nodes` and `total_nodes`; bios counts in both.
unfoldable pub node_counts : ℕ → ℕ → ℕ → ℕ × ℕ
node_counts prod_nodes total_nodes producers =
    let with_bios = add64 prod_nodes 1 in
    let all_with_bios = add64 total_nodes 1 in
    let capped = if ltb (add64 producers 1) with_bios then producers else with_bios in
    (capped, if ltb all_with_bios capped then capped else all_with_bios)

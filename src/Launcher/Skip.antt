-- ===== src/Launcher/Skip.antt =====
-- `skip_ndx` of eosio-launcher2/main.cpp, which the mesh and the star choose peers by. A remainder by
-- 0 is undefined behaviour, `none`.
use eos_tools.Prelude.{
  ℕ, zero, suc, true, false, Option, none, some, List, ◌==◌, ◌-◌, ◌%◌, ◌||◌, ltb, if◌then◌else◌,
  ◌>>=◌,
}
use eos_tools.Prelude.Text.{String}
use eos_tools.Prelude.Word.{add64}
use eos_tools.Launcher.Ndx.{is_bios_ndx, next_ndx}

-- The loop, for the count of rounds for which `--attempts` is not 0.
unfoldable pub skip_loop : ℕ → List String → ℕ → ℕ → ℕ → Option ℕ
skip_loop zero aliases total_nodes from ndx = some ndx
skip_loop (suc attempts) aliases total_nodes from ndx = do
  bios ← is_bios_ndx aliases ndx
  elim (bios || (ndx == from)) [
    | true ↦ (do
      (loop, next) ← next_ndx aliases total_nodes ndx
      skip_loop attempts aliases total_nodes from next)
    | false ↦ some ndx
  ]

-- `attempts` begins at `total_nodes - 1`, and the first test counts it down.
unfoldable pub skip_ndx : List String → ℕ → ℕ → ℕ → Option ℕ
skip_ndx aliases total_nodes from offset =
    if total_nodes == 0
    then none
    else let ndx = add64 from offset % total_nodes in
      if ltb 2 total_nodes
      then skip_loop (total_nodes - 2) aliases total_nodes from ndx
      else some ndx

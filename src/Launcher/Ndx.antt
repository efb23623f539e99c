-- ===== src/Launcher/Ndx.antt =====
-- The walk over the node names, of eosio-launcher2/main.cpp: `aliases` holds the names in the order
-- of their definition, and the node of the name bios is left out. An access outside `aliases` is
-- undefined behaviour, `none`.
use eos_tools.Prelude.{
  ℕ, zero, suc, Bool, true, false, Option, none, some, List, ◌==◌, if◌then◌else◌, ◌>>=◌, get_elem?,
}
use eos_tools.Prelude.Text.{String, str_eq}
use eos_tools.Prelude.Word.{add64}

unfoldable pub is_bios_ndx : List String → ℕ → Option Bool
is_bios_ndx aliases ndx = do name ← get_elem? aliases ndx; some (str_eq name "bios")

unfoldable pub start_ndx : List String → Option ℕ
start_ndx aliases = do bios ← is_bios_ndx aliases 0; some (if bios then 1 else 0)

-- Returns whether the walk is back at its start, and the new index. A call goes on only from a name
-- of `aliases`, so `total_nodes` calls are enough.
unfoldable pub next_ndx_calls : ℕ → List String → ℕ → ℕ → Option (Bool × ℕ)
next_ndx_calls zero aliases total_nodes ndx = none
next_ndx_calls (suc calls) aliases total_nodes ndx =
    if add64 ndx 1 == total_nodes then (do start ← start_ndx aliases; some (true, start)) else (do
      bios ← is_bios_ndx aliases (add64 ndx 1)
      elim bios [
        | true ↦ next_ndx_calls calls aliases total_nodes (add64 ndx 1)
        | false ↦ some (false, add64 ndx 1)
      ])

unfoldable pub next_ndx : List String → ℕ → ℕ → Option (Bool × ℕ)
next_ndx aliases total_nodes ndx = next_ndx_calls total_nodes aliases total_nodes ndx

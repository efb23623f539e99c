-- ===== src/Launcher/Bind.antt =====
-- The allotment of the producers to the nodes, `bind_nodes` of eosio-launcher2/main.cpp, and the
-- producers that `write_setprods_file` writes. `generate i` is the public key of the call number i
-- of `private_key_type::generate`, and `bios_key` that of the constant key of bios. `none` is an
-- exception of `producer_name`, or the end of the program with an error.
use eos_tools.Prelude.{
  ℕ, zero, suc, Option, none, some, List, [], ◌∷◌, ◌++◌, ◌+◌, ◌-◌, ◌/◌, ◌%◌, ◌==◌, ltb,
  if◌then◌else◌, ◌>>=◌, not,
}
use eos_tools.Prelude.Text.{String, str_eq}
use eos_tools.Prelude.Word.{add32}
use eos_tools.Launcher.Host.{EosdDef, HostDef}
use eos_tools.Launcher.Network.{TnNodeDef, put_node}
use eos_tools.Launcher.ProducerName.{producer_name}

pub record ProdkeyDef (P : Type 0) : Type 0 where
  pub producer_name : String
  pub block_signing_key : P

-- What the loops change; `calls` counts those of `generate`.
pub record BindState (P : Type 0) : Type 0 where
  pub i : ℕ
  pub extra : ℕ
  pub producer_number : ℕ
  pub calls : ℕ
  pub schedule : List (ProdkeyDef P)
  pub nodes : List (String × TnNodeDef)

-- `while (count--)`: the names for a node, and the number that follows.
unfoldable pub names_loop : ℕ → ℕ → Option (List String × ℕ)
names_loop zero producer_number = some ([], producer_number)
names_loop (suc count) producer_number = do
  prodname ← producer_name producer_number
  (names, next) ← names_loop count (add32 producer_number 1)
  some (prodname ∷ names, next)

module _ {P : Type 0} where
  unfoldable pub keyed : P → List String → List (ProdkeyDef P)
  keyed pubkey [] = []
  keyed pubkey (name ∷ names) =
      record { producer_name = name; block_signing_key = pubkey } ∷ keyed pubkey names

  module _ (generate : ℕ → P) (bios_key : P) (non_bios per_node : ℕ) where
    unfoldable pub bind_bios : BindState P → EosdDef → BindState P
    bind_bios st inst = record st {
      schedule = st.schedule ++ keyed bios_key ("eosio" ∷ []);
      nodes =
          put_node st.nodes inst.name
            (record { name = inst.name; peers = []; producers = "eosio" ∷ [] });
    }

    -- A node beside bios, with the producers `names`; `next` is the number that follows theirs.
    unfoldable pub add_worker : BindState P → EosdDef → ℕ → List String → ℕ → BindState P
    add_worker st inst extra names next = record {
      i = add32 st.i 1;
      extra = extra;
      producer_number = next;
      calls = st.calls + 1;
      schedule = st.schedule ++ keyed (generate st.calls) names;
      nodes =
          put_node st.nodes inst.name (record { name = inst.name; peers = []; producers = names });
    }

    unfoldable pub bind_worker : BindState P → EosdDef → ℕ → ℕ → Option (BindState P)
    bind_worker st inst count extra = do
      (names, next) ← names_loop count st.producer_number
      some (add_worker st inst extra names next)

    unfoldable pub bind_instance : BindState P → EosdDef → Option (BindState P)
    bind_instance st inst =
        if str_eq inst.name "bios"
        then some (bind_bios st inst)
        else if ltb st.i non_bios
        then (if not (st.extra == 0)
            then bind_worker st inst (per_node + 1) (st.extra - 1)
            else bind_worker st inst per_node st.extra)
        else bind_worker st inst 0 st.extra

    unfoldable pub bind_instances : BindState P → List EosdDef → Option (BindState P)
    bind_instances st [] = some st
    bind_instances st (inst ∷ instances) = do
      next ← bind_instance st inst
      bind_instances next instances

    unfoldable pub bind_hosts : BindState P → List HostDef → Option (BindState P)
    bind_hosts st [] = some st
    bind_hosts st (h ∷ bindings) = do next ← bind_instances st h.instances; bind_hosts next bindings

  unfoldable pub start_state : ℕ → ℕ → BindState P
  start_state non_bios producers = record {
    i = 0;
    extra = producers % non_bios;
    producer_number = 0;
    calls = 0;
    schedule = [];
    nodes = [];
  }

  -- `prod_nodes` and `producers` are taken as values of the type `int`, below 2 ^ 31, as the
  -- conversions to `int` give for others no value that the language fixes.
  unfoldable pub bind_nodes : (ℕ → P) → P → ℕ → ℕ → List HostDef → Option (BindState P)
  bind_nodes generate bios_key prod_nodes producers bindings =
      if ltb prod_nodes 2
      then none
      else let non_bios = prod_nodes - 1 in
        bind_hosts generate bios_key non_bios (producers / non_bios)
          (start_state non_bios producers) bindings

  -- The names that `write_setprods_file` writes.
  unfoldable pub setprods : List (ProdkeyDef P) → List String
  setprods [] = []
  setprods (p ∷ schedule) =
      let rest = setprods schedule in
      if str_eq p.producer_name "eosio" then rest else p.producer_name ∷ rest

-- ===== src/Tests/Launcher.antt =====
-- The theorems on the launcher, applied to small networks.
use eos_tools.Prelude.{
  ℕ, Bool, true, false, ltb, Option, none, some, ◌+◌, ◌==◌, if◌then◌else◌, List, [], ◌∷◌, ◌≡◌, refl,
  length, arith, map,
}
use eos_tools.Prelude.Text.{String, append, str_eq}
use eos_tools.Launcher.Network.{TnNodeDef, push_peer}
use eos_tools.Launcher.Walk.{workers}
use eos_tools.Prelude.Word.{sub64, add64}
use eos_tools.Launcher.Ndx.{start_ndx, is_bios_ndx, next_ndx, next_ndx_calls}
use eos_tools.Launcher.Ring.{link_ring, ring_loop, connect}
use eos_tools.Launcher.RingCorrect.{cycle, connect_all, ring_is_cycle}
use eos_tools.Launcher.ProducerName.{producer_name, template, clear_loop, digits_loop, set_char}
use eos_tools.Launcher.ProducerNameLaws.{label, producer_name_total}
use eos_tools.Launcher.Host.{EosdDef, HostDef, new_host}
use eos_tools.Launcher.Bind.{BindState, bind_nodes, setprods}
use eos_tools.Launcher.BindCorrect.{labels, all_workers, workers_of, setprods-bind_nodes}
use eos_tools.Launcher.Define.{Names, define_local, new_eosd, dex}
use eos_tools.Launcher.Counts.{node_counts}
use eos_tools.Launcher.Local.{local_network-setprods}
use eos_tools.Launcher.DefineCorrect.{place, places, place-define_local}

abbrev aliases : List String
aliases = "bios" ∷ "a" ∷ "b" ∷ "c" ∷ []

abbrev lone_node : String → String × TnNodeDef
lone_node name = (name, record { name = name; peers = []; producers = [] })

abbrev nodes : List (String × TnNodeDef)
nodes = lone_node "a" ∷ lone_node "b" ∷ lone_node "bios" ∷ lone_node "c" ∷ []

abbrev linked : Option (List (String × TnNodeDef)) → List (String × TnNodeDef)
linked none = []
linked (some found) = found

ring_is_cycle_example :
    link_ring aliases (length aliases) nodes ≡ connect_all aliases (cycle (workers 0 aliases)) nodes
unfolding workers
ring_is_cycle_example = ring_is_cycle aliases nodes (omega arith) refl

ring_of_three :
    map (λ n. n.1.peers) (linked (link_ring aliases 4 nodes))
    ≡ ("b" ∷ []) ∷ ("c" ∷ []) ∷ [] ∷ ("a" ∷ []) ∷ []
unfolding link_ring start_ndx is_bios_ndx next_ndx next_ndx_calls ring_loop connect push_peer sub64
    add64
ring_of_three = refl

producer_name_total_example : producer_name 27 ≡ some (label 27)
producer_name_total_example = producer_name_total 27 (omega arith)

name_27 : producer_name 27 ≡ some "defpraaaaabb"
unfolding producer_name template clear_loop digits_loop set_char
name_27 = refl

name_26 : producer_name 26 ≡ some "defproduceba"
unfolding producer_name template clear_loop digits_loop set_char
name_26 = refl

abbrev instance_named : String → EosdDef
instance_named name = record new_eosd { name = name }

abbrev bindings : List HostDef
bindings =
    record new_host {
      instances = instance_named "bios" ∷ instance_named "a" ∷ instance_named "b" ∷ [];
    }
    ∷ []

setprods-bind_nodes_example :
    (st : BindState ℕ) × (bind_nodes (λ i. i + 1) 0 3 5 bindings ≡ some st)
    × (setprods st.schedule ≡ labels 0 5)
unfolding all_workers workers_of
setprods-bind_nodes_example =
    setprods-bind_nodes (λ i. i + 1) 0 3 5 bindings (omega arith) (omega arith) (omega arith)
      (omega arith)

abbrev digit_text : ℕ → String
digit_text n = if n == 0 then "0" else if n == 1 then "1" else "2"

abbrev join : String → String → String
join dir file = append dir (append "/" file)

abbrev names : Names
names = record {
  network_name = "testnet_";
  config_dir_base = "etc/eosio";
  data_dir_base = "var/lib";
  erd = "/eos";
  genesis = "./genesis.json";
}

place-define_local_example :
    (let st = define_local digit_text join names 4 in
      (map place st.local_host.instances ≡ ("bios", 9776, 8788) ∷ places digit_text join names 0 3)
      × (st.aliases ≡ "bios" ∷ map (λ p. p.0) (places digit_text join names 0 3)))
place-define_local_example = place-define_local digit_text join names 3 (omega arith)

-- The bound of the test is `producers + 1`, the value set is `producers`.
counts_capped : node_counts 2 2 1 ≡ (1, 3)
unfolding node_counts add64
counts_capped = refl

others_named :
    (few none_of one_of : Bool)
    → str_eq
        (append "testnet_"
          (append (if few then "0" else "") (if none_of then "0" else if one_of then "1" else "2")))
        "bios"
      ≡ false
others_named true true one_of = refl
others_named true false true = refl
others_named true false false = refl
others_named false true one_of = refl
others_named false false true = refl
others_named false false false = refl

local_network-setprods_example :
    (st : BindState ℕ) × (bind_nodes
        (λ i. i + 1)
        0
        (node_counts 2 3 5).0
        5
        ((define_local digit_text join names (node_counts 2 3 5).1).local_host ∷ [])
      ≡ some st)
    × (setprods st.schedule ≡ labels 0 5)
unfolding dex node_counts add64
local_network-setprods_example =
    local_network-setprods digit_text join names (λ i. i + 1) 0 2 3 5
      (λ k. others_named (ltb k 10) (k == 0) (k == 1)) (omega arith) (omega arith) (omega arith)

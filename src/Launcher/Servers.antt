-- ===== src/Launcher/Servers.antt =====
-- Servers that are named in a file, of eosio-launcher2/main.cpp: `load_servers` and the branch of
-- `define_network` for `per_host != 0`. `lexical_cast` is what `boost::lexical_cast` writes for a
-- number, `join` the operator `/` on paths and `contains` the test `local_id.contains`. `ph_count`, an
-- int, is taken modulo 2 ^ 32. `none` is the use of a null pointer.
use Prim.Native.String.{len}
use eos_tools.Prelude.{
  ℕ, zero, suc, ◌-◌, ◌==◌, Bool, false, ◌||◌, List, [], ◌∷◌, ◌++◌, Option, none, some, length,
  get_elem?, ◌>>=◌, if◌then◌else◌,
}
use eos_tools.Prelude.Text.{String, str_eq, append}
use eos_tools.Prelude.Word.{add64, sub32}
use eos_tools.Launcher.Host.{HostDef, new_host, set_host}
use eos_tools.Launcher.Define.{Names, new_eosd, assign_name, dex}

pub record ServerNameDef : Type 0 where
  pub ipaddr : String
  pub name : String
  pub has_bios : Bool
  pub eosio_home : String
  pub instances : ℕ

pub record ServerIdentities : Type 0 where
  pub producer : List ServerNameDef
  pub nonprod : List ServerNameDef
  pub db : List String
  pub default_eosio_home : String

-- `for (auto &s : servers) count += s.instances`
unfoldable pub add_instances : ℕ → List ServerNameDef → ℕ
add_instances count [] = count
add_instances count (s ∷ servers) = add_instances (add64 count s.instances) servers

-- The new values of `prod_nodes` and `total_nodes`.
unfoldable pub server_counts : ServerIdentities → ℕ × ℕ
server_counts servers =
    let prod_nodes = add_instances 0 servers.producer in
    (prod_nodes, add_instances prod_nodes servers.nonprod)

-- What the loop changes; `lhost` is `none` where it is a null pointer.
pub record HostsState : Type 0 where
  pub next_node : ℕ
  pub aliases : List String
  pub bindings : List HostDef
  pub lhost : Option HostDef
  pub ph_count : ℕ
  pub host_ndx : ℕ

-- What the loop begins with.
abbrev pub no_hosts : HostsState
no_hosts = record {
  next_node = 0;
  aliases = [];
  bindings = [];
  lhost = none;
  ph_count = 0;
  host_ndx = 0;
}

unfoldable pub holds_name : String → List String → Bool
holds_name name [] = false
holds_name name (x ∷ xs) = str_eq name x || holds_name name xs

module _ (lexical_cast : ℕ → String) (join : String → String → String) (names : Names)
    (contains : String → Bool) (servers : ServerIdentities) where
  -- The server of a host, producers first.
  unfoldable pub server_at : ℕ → Option ServerNameDef
  server_at host_ndx = elim (get_elem? servers.producer host_ndx) [
    | none ↦ get_elem? servers.nonprod (host_ndx - length servers.producer)
    | some s ↦ some s
  ]

  -- The name and public name of a host, the count of its instances, and whether bios is among them.
  unfoldable pub server_or_pseudo : ℕ → ServerNameDef
  server_or_pseudo host_ndx = elim (server_at host_ndx) [
    | none ↦
        (let name = append "pseudo_" (dex lexical_cast join names host_ndx) in
          record { ipaddr = name; name = name; has_bios = false; eosio_home = ""; instances = 1 })
    | some s ↦ s
  ]

  -- `bindings`, with the host that `lhost` points to.
  unfoldable pub with_lhost : List HostDef → Option HostDef → List HostDef
  with_lhost bindings none = bindings
  with_lhost bindings (some h) = bindings ++ h ∷ []

  unfoldable pub server_host : ServerNameDef → HostDef
  server_host s = record new_host {
    genesis = names.genesis;
    host_name = s.ipaddr;
    public_name = s.name;
    eosio_home =
        if contains s.ipaddr || len servers.default_eosio_home == 0
        then names.erd
        else servers.default_eosio_home;
  }

  unfoldable pub start_host : HostsState → HostsState × Bool
  start_host st =
      let s = server_or_pseudo st.host_ndx in
      (
        record st {
          bindings = with_lhost st.bindings st.lhost;
          lhost = some (server_host s);
          ph_count = s.instances;
          host_ndx = add64 st.host_ndx 1;
        },
        s.has_bios,
      )

  unfoldable pub place_node : HostsState → HostDef → Bool → HostsState
  place_node st lhost do_bios =
      let (named, next_node) = assign_name lexical_cast join names st.next_node new_eosd do_bios in
      let eosd = record named { has_db = holds_name lhost.host_name servers.db } in
      let (placed, host) = set_host lexical_cast eosd lhost do_bios in
      record st {
        next_node = next_node;
        aliases = st.aliases ++ eosd.name ∷ [];
        lhost = some (record host { instances = host.instances ++ placed ∷ [] });
        ph_count = sub32 st.ph_count 1;
      }

  -- A node on the host that `lhost` points to.
  unfoldable pub place_next : HostsState × Bool → Option HostsState
  place_next (st, do_bios) = elim st.lhost [ none ↦ none | some h ↦ some (place_node st h do_bios) ]

  unfoldable pub hosts_step : HostsState → Option HostsState
  hosts_step st = place_next (if st.ph_count == 0 then start_host st else (st, false))

  unfoldable pub hosts_loop : ℕ → HostsState → Option HostsState
  hosts_loop zero st = some st
  hosts_loop (suc rounds) st = hosts_step st >>= λ later. hosts_loop rounds later

  -- The names of the nodes and `bindings`, with the last host.
  unfoldable pub finish : HostsState → Option (List String × List HostDef)
  finish st = elim st.lhost [
    | none ↦ none
    | some h ↦ some (st.aliases, with_lhost st.bindings (some h))
  ]

  unfoldable pub define_hosts : ℕ → Option (List String × List HostDef)
  define_hosts total_nodes = hosts_loop total_nodes no_hosts >>= λ st. finish st

-- ===== src/Launcher/ServersFilled.antt =====
-- How `define_network` of eosio-launcher2/main.cpp fills the host of one server.
use eos_tools.Prelude.{
  ℕ, zero, suc, ◌+◌, ◌<◌, ◌==◌, Bool, true, false, Option, none, some, length, length-append, ◌≡◌,
  refl, ap, ◌∙◌, arith,
}
use eos_tools.Prelude.Text.{String}
use eos_tools.Prelude.Word.{add64, sub32, sub32_lem, u32_mod}
use eos_tools.Launcher.Host.{HostDef, new_host, set_host, next_p2p_port, next_http_port}
use eos_tools.Launcher.Define.{Names}
use eos_tools.Launcher.Servers.{
  ServerNameDef, ServerIdentities, HostsState, server_at, server_or_pseudo, with_lhost, server_host,
  start_host, place_node, place_next, hosts_step, hosts_loop,
}

is_suc : (n k : ℕ) → n ≡ suc k → (n == 0) ≡ false
is_suc n k e = ground arith

module _ (lexical_cast : ℕ → String) (join : String → String → String) (names : Names)
    (contains : String → Bool) (servers : ServerIdentities) where
  abbrev loop : ℕ → HostsState → Option HostsState
  loop = hosts_loop lexical_cast join names contains servers

  placed :
      (st : HostsState) (h : HostDef) (do_bios : Bool)
      → (g : HostDef) × ((place_node lexical_cast join names contains servers st h do_bios).lhost
          ≡ some g)
        × (g.host_name ≡ h.host_name)
        × (length g.instances ≡ length h.instances + 1)
  unfolding place_node set_host next_p2p_port next_http_port
  placed st h true = (_, refl, refl, length-append h.instances _)
  placed st h false = (_, refl, refl, length-append h.instances _)

  -- A node more, on the host at hand.
  fill_step :
      (st : HostsState) (h : HostDef) (k : ℕ)
      → st.lhost ≡ some h
      → st.ph_count ≡ suc k
      → hosts_step lexical_cast join names contains servers st
        ≡ some (place_node lexical_cast join names contains servers st h false)
  unfolding hosts_step place_next
  fill_step st h k e p =
      rw (is_suc st.ph_count k p, hosts_step)
        (ap
          (λ o. elim o [
            | none ↦ none
            | some g ↦ some (place_node lexical_cast join names contains servers st g false)
          ])
          e)

  fill_left :
      (st : HostsState) (h : HostDef) (do_bios : Bool) (k : ℕ)
      → st.ph_count ≡ suc k
      → suc k < u32_mod
      → (place_node lexical_cast join names contains servers st h do_bios).ph_count ≡ k
  unfolding place_node
  fill_left st h do_bios k p b =
      ap (λ c. sub32 c 1) p ∙ sub32_lem (suc k) 1 (omega arith) b ∙ omega arith

  -- The host in `g` has `k` instances more than that in `h`, and `st'` has no more to place.
  record Filled (k r : ℕ) (st : HostsState) (h : HostDef) : Type 0 where
    later : HostsState
    host : HostDef
    goes_on : loop (k + r) st ≡ loop r later
    at_host : later.lhost ≡ some host
    empty : later.ph_count ≡ 0
    bindings_kept : later.bindings ≡ st.bindings
    ndx_kept : later.host_ndx ≡ st.host_ndx
    name_kept : host.host_name ≡ h.host_name
    more : length host.instances ≡ length h.instances + k

  fill :
      (k r : ℕ) (st : HostsState) (h : HostDef)
      → st.lhost ≡ some h
      → st.ph_count ≡ k
      → k < u32_mod
      → Filled k r st h
  unfolding place_node hosts_loop
  fill zero r st h e p b =
      let no_rounds : zero + r ≡ r = omega arith in
      record {
        later = st;
        host = h;
        goes_on = ap (λ n. loop n st) no_rounds;
        at_host = e;
        empty = p;
        bindings_kept = refl;
        ndx_kept = refl;
        name_kept = refl;
        more = omega arith;
      }
  fill (suc k) r st h e p b =
      let (g, at, named, counted) = placed st h false in
      let mid = place_node lexical_cast join names contains servers st h false in
      let more_rounds : suc k + r ≡ suc (k + r) = omega arith in
      let step : hosts_step lexical_cast join names contains servers st ≡ some mid =
        fill_step st h k e p in
      let left : mid.ph_count ≡ k = fill_left st h false k p b in
      let rest = fill k r mid g at left (omega arith) in
      record {
        later = rest.later;
        host = rest.host;
        goes_on = ap (λ n. loop n st) more_rounds ∙ rw (step, hosts_loop) rest.goes_on;
        at_host = rest.at_host;
        empty = rest.empty;
        bindings_kept = rest.bindings_kept ∙ refl;
        ndx_kept = rest.ndx_kept ∙ refl;
        name_kept = rest.name_kept ∙ named;
        more = let m = rest.more in omega arith;
      }

  -- The first node of a host, on the host that it makes.
  start_step :
      (st : HostsState)
      → st.ph_count ≡ 0
      → (let s = server_or_pseudo lexical_cast join names contains servers st.host_ndx in
          hosts_step lexical_cast join names contains servers st
          ≡ some (
              place_node lexical_cast join names contains servers
                (start_host lexical_cast join names contains servers st).0
                (server_host lexical_cast join names contains servers s)
                s.has_bios))
  unfolding hosts_step place_next start_host
  start_step st p =
      let zero_left : (st.ph_count == 0) ≡ true = ground arith in rw (zero_left, hosts_step) refl

  host-empty :
      (s : ServerNameDef)
      → length (server_host lexical_cast join names contains servers s).instances ≡ 0
  unfolding server_host new_host
  host-empty s = refl

  one_more : (k : ℕ) → 0 + 1 + k ≡ suc k
  one_more k = omega arith

  server_found :
      (i : ℕ) (s : ServerNameDef)
      → server_at lexical_cast join names contains servers i ≡ some s
      → server_or_pseudo lexical_cast join names contains servers i ≡ s
  unfolding server_or_pseudo
  server_found i s at = rw (at, server_or_pseudo) refl

  -- A server with `suc k` instances has its host filled.
  pub record Started (k r : ℕ) (st : HostsState) (s : ServerNameDef) : Type 0 where
    pub later : HostsState
    pub host : HostDef
    pub goes_on : loop (suc k + r) st ≡ loop r later
    pub at_host : later.lhost ≡ some host
    pub empty : later.ph_count ≡ 0
    pub before :
        later.bindings ≡ with_lhost lexical_cast join names contains servers st.bindings st.lhost
    pub ndx_next : later.host_ndx ≡ add64 st.host_ndx 1
    pub named : host.host_name ≡ s.ipaddr
    pub counted : length host.instances ≡ suc k

  pub start :
      (k r : ℕ) (st : HostsState) (s : ServerNameDef)
      → st.ph_count ≡ 0
      → server_at lexical_cast join names contains servers st.host_ndx ≡ some s
      → s.instances ≡ suc k
      → suc k < u32_mod
      → Started k r st s
  unfolding place_node hosts_loop start_host server_host
  start k r st s p at i b =
      let t = server_or_pseudo lexical_cast join names contains servers st.host_ndx in
      let found : t ≡ s = server_found st.host_ndx s at in
      let on_host = (start_host lexical_cast join names contains servers st).0 in
      let (g, there, named, one) =
        placed on_host (server_host lexical_cast join names contains servers t) t.has_bios in
      let mid =
        place_node lexical_cast join names contains servers on_host
          (server_host lexical_cast join names contains servers t) t.has_bios in
      let left = fill_left on_host g t.has_bios k (ap (λ x. x.instances) found ∙ i) b in
      let rest = fill k r mid g there left (omega arith) in
      let more_rounds : suc k + r ≡ suc (k + r) = omega arith in
      record {
        later = rest.later;
        host = rest.host;
        goes_on = ap (λ n. loop n st) more_rounds ∙ rw (start_step st p, hosts_loop) rest.goes_on;
        at_host = rest.at_host;
        empty = rest.empty;
        before = rest.bindings_kept;
        ndx_next = rest.ndx_kept;
        named = rest.name_kept ∙ named ∙ ap (λ x. x.ipaddr) found;
        counted = rest.more ∙ ap (λ n. n + k) (one ∙ ap (λ n. n + 1) (host-empty t)) ∙ one_more k;
      }

-- ===== src/Launcher/ServersPlaced.antt =====
-- Which hosts `define_network` of eosio-launcher2/main.cpp makes from a file of servers.
use eos_tools.Prelude.{
  or_true, ℕ, zero, suc, ◌-◌, ◌+◌, ◌<◌, ◌≤◌, Bool, true, false, not, ◌||◌, List, [], ◌∷◌, ◌++◌, map,
  Option, none, some, length, get_elem?, length-append, get_elem?-append, All, ◌>>=◌, ◌≡◌, refl, ap,
  sym, ◌∙◌, arith,
}
use eos_tools.Prelude.Text.{String}
use eos_tools.Prelude.Word.{add64, add64_lem, u64_mod, u16_mod}
use eos_tools.Launcher.Host.{HostDef}
use eos_tools.Launcher.Define.{Names}
use eos_tools.Launcher.Command.{is_empty}
use eos_tools.Launcher.Settings.{append_nil}
use eos_tools.Launcher.Servers.{
  ServerNameDef, ServerIdentities, HostsState, no_hosts, add_instances, server_counts, server_at,
  with_lhost, hosts_loop, finish, define_hosts,
}
use eos_tools.Launcher.ServersFilled.{Started, start}

-- The count of the instances of servers.
abbrev pub total : List ServerNameDef → ℕ
total [] = 0
total (s ∷ servers) = s.instances + total servers

abbrev pub HasInstances : ServerNameDef → Type 0
HasInstances s = (0 < s.instances) × (s.instances < u16_mod)

add_instances-total :
    (count : ℕ) (servers : List ServerNameDef)
    → count + total servers < u64_mod
    → add_instances count servers ≡ count + total servers
unfolding add_instances
add_instances-total count [] h = omega arith
add_instances-total count (s ∷ servers) h =
    let first = add64_lem count s.instances (omega arith) in
    rw (first) (add_instances-total (count + s.instances) servers (omega arith) ∙ omega arith)

total-append : (xs ys : List ServerNameDef) → total (xs ++ ys) ≡ total xs + total ys
total-append [] ys = omega arith
total-append (x ∷ xs) ys = let rest = total-append xs ys in omega arith

length-total : (xs : List ServerNameDef) → All HasInstances xs → length xs ≤ total xs
length-total [] h = omega arith
length-total (x ∷ xs) h = let rest = length-total xs h.1 in let some_here = h.0.0 in omega arith

get_elem?_behind :
    {A : Type 0} (xs ys : List A) (i : ℕ)
    → elim (get_elem? xs i) [ none ↦ get_elem? ys (i - length xs) | some x ↦ some x ]
      ≡ get_elem? (xs ++ ys) i
get_elem?_behind [] ys i = ap (get_elem? ys) (omega arith)
get_elem?_behind (x ∷ xs) ys zero = refl
get_elem?_behind (x ∷ xs) ys (suc i) =
    let one_less : suc i - suc (length xs) ≡ i - length xs = omega arith in
    ap (λ n. elim (get_elem? xs i) [ none ↦ get_elem? ys n | some y ↦ some y ]) one_less
    ∙ get_elem?_behind xs ys i

abbrev pub host_told : HostDef → String × ℕ
host_told h = (h.host_name, length h.instances)

abbrev pub server_told : ServerNameDef → String × ℕ
server_told s = (s.ipaddr, s.instances)

map-append : {A B : Type 0} (f : A → B) (xs ys : List A) → map f (xs ++ ys) ≡ map f xs ++ map f ys
map-append f [] ys = refl
map-append f (x ∷ xs) ys = ap (◌∷◌ (f x)) (map-append f xs ys)

abbrev is_some : {A : Type 0} → Option A → Bool
is_some none = false
is_some (some x) = true

append-append : {A : Type 0} (xs ys zs : List A) → (xs ++ ys) ++ zs ≡ xs ++ (ys ++ zs)
append-append [] ys zs = refl
append-append (x ∷ xs) ys zs = ap (◌∷◌ x) (append-append xs ys zs)

module _ (lexical_cast : ℕ → String) (join : String → String → String) (names : Names)
    (contains : String → Bool) (servers : ServerIdentities) where
  abbrev loop : ℕ → HostsState → Option HostsState
  loop = hosts_loop lexical_cast join names contains servers

  abbrev all_servers : List ServerNameDef
  all_servers = servers.producer ++ servers.nonprod

  server_at-all :
      (i : ℕ) → server_at lexical_cast join names contains servers i ≡ get_elem? all_servers i
  unfolding server_at
  server_at-all i = get_elem?_behind servers.producer servers.nonprod i

  abbrev hosts_of : HostsState → List HostDef
  hosts_of st = with_lhost lexical_cast join names contains servers st.bindings st.lhost

  told_more :
      (st : HostsState) (s : ServerNameDef) (k r : ℕ)
      (one : Started lexical_cast join names contains servers k r st s)
      → s.instances ≡ suc k
      → map host_told (hosts_of one.later) ≡ map host_told (hosts_of st) ++ server_told s ∷ []
  unfolding with_lhost
  told_more st s k r one i =
      let told : host_told one.host ≡ server_told s =
        ap (λ x. (x, length one.host.instances)) one.named
        ∙ ap (λ x. (s.ipaddr, x)) (one.counted ∙ sym i) in
      ap
        (λ o.
          map host_told (with_lhost lexical_cast join names contains servers one.later.bindings o))
        one.at_host
      ∙ ap (λ l. map host_told (l ++ one.host ∷ [])) one.before
      ∙ map-append host_told (hosts_of st) (one.host ∷ [])
      ∙ ap (λ x. map host_told (hosts_of st) ++ x ∷ []) told

  -- The rest of the servers is placed.
  record Placed (after : List ServerNameDef) (st : HostsState) : Type 0 where
    later : HostsState
    goes_on : loop (total after) st ≡ some later
    host_there : is_some later.lhost ≡ (not (is_empty after) || is_some st.lhost)
    told : map host_told (hosts_of later) ≡ map host_told (hosts_of st) ++ map server_told after

  place :
      (before after : List ServerNameDef) (st : HostsState)
      → before ++ after ≡ all_servers
      → st.host_ndx ≡ length before
      → st.ph_count ≡ 0
      → length before + length after < u64_mod
      → All HasInstances after
      → Placed after st
  unfolding hosts_loop with_lhost
  place before [] st e n p b h = record {
    later = st;
    goes_on = refl;
    host_there = refl;
    told = sym (append_nil (map host_told (hosts_of st)));
  }
  place before (s ∷ after) st e n p b h =
      let k = s.instances - 1 in
      let i : s.instances ≡ suc k = let some_here = h.0.0 in omega arith in
      let at : server_at lexical_cast join names contains servers st.host_ndx ≡ some s =
        server_at-all st.host_ndx
        ∙ ap (λ j. get_elem? all_servers j) n
        ∙ ap (λ l. get_elem? l (length before)) (sym e)
        ∙ get_elem?-append before s after in
      let one =
        start lexical_cast join names contains servers k (total after) st s p at i
          (let few = h.0.1 in omega arith) in
      let next : one.later.host_ndx ≡ length (before ++ s ∷ []) =
        one.ndx_next
        ∙ ap (λ j. add64 j 1) n
        ∙ add64_lem (length before) 1 (omega arith)
        ∙ sym (length-append before (s ∷ [])) in
      let counted = length-append before (s ∷ []) in
      let bound : length (before ++ s ∷ []) + length after < u64_mod = omega arith in
      let rest =
        place (before ++ s ∷ []) after one.later (append-append before (s ∷ []) after ∙ e) next
          one.empty bound h.1 in
      let rounds : s.instances + total after ≡ suc k + total after = ap (λ m. m + total after) i in
      record {
        later = rest.later;
        goes_on = ap (λ m. loop m st) rounds ∙ one.goes_on ∙ rest.goes_on;
        host_there =
            rest.host_there
            ∙ ap (λ o. not (is_empty after) || is_some o) one.at_host
            ∙ or_true (not (is_empty after));
        told =
            rest.told
            ∙ ap (λ l. l ++ map server_told after) (told_more st s k (total after) one i)
            ∙ append-append (map host_told (hosts_of st)) (server_told s ∷ [])
                (map server_told after);
      }

  last_host :
      (st : HostsState)
      → is_some st.lhost ≡ true
      → finish lexical_cast join names contains servers st ≡ some (st.aliases, hosts_of st)
  unfolding finish
  last_host st there = by_host st.lhost there
    where
      by_host :
          (o : Option HostDef)
          → is_some o ≡ true
          → finish lexical_cast join names contains servers (record st { lhost = o })
            ≡ some (st.aliases, hosts_of (record st { lhost = o }))
      by_host none there = absurd (cc there)
      by_host (some h) there = refl

-- From the counts that `load_servers` sets, where there is a server and each has an instance at least,
-- `define_network` makes one host for each server, in order, with its address and as many instances
-- as it has.
pub define_hosts-servers :
    (lexical_cast : ℕ → String) (join : String → String → String) (names : Names)
    (contains : String → Bool) (servers : ServerIdentities) (s : ServerNameDef)
    (rest : List ServerNameDef)
    → servers.producer ++ servers.nonprod ≡ s ∷ rest
    → All HasInstances (servers.producer ++ servers.nonprod)
    → total (servers.producer ++ servers.nonprod) < u64_mod
    → (aliases : List String) × (bindings : List HostDef) × (define_hosts lexical_cast join names
          contains servers
          (server_counts servers).1
        ≡ some (aliases, bindings))
      × (map host_told bindings ≡ map server_told (servers.producer ++ servers.nonprod))
unfolding define_hosts server_counts with_lhost
define_hosts-servers lexical_cast join names contains servers s rest e h b =
    let all = servers.producer ++ servers.nonprod in
    let sums = total-append servers.producer servers.nonprod in
    let short = length-total all h in
    let prods : add_instances 0 servers.producer ≡ total servers.producer =
      add_instances-total 0 servers.producer (omega arith) ∙ omega arith in
    let nodes : (server_counts servers).1 ≡ total all =
      ap (λ c. add_instances c servers.nonprod) prods
      ∙ add_instances-total (total servers.producer) servers.nonprod (omega arith)
      ∙ sym sums in
    let end =
      place lexical_cast join names contains servers [] all no_hosts refl refl refl (omega arith)
        h in
    let there : is_some end.later.lhost ≡ true =
      end.host_there ∙ ap (λ l. not (is_empty l) || false) e in
    (
      end.later.aliases,
      _,
      ap
            (λ n. hosts_loop lexical_cast join names contains servers n no_hosts >>= λ st.
              finish lexical_cast join names contains servers st)
            nodes
          ∙ rw (end.goes_on) (last_host lexical_cast join names contains servers end.later there),
      end.told,
    )

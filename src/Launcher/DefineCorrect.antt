-- ===== src/Launcher/DefineCorrect.antt =====
-- The names and ports that `define_network` of eosio-launcher2/main.cpp gives on one host.
use eos_tools.Prelude.{
  ℕ, zero, suc, false, List, [], ◌∷◌, ◌++◌, ◌+◌, ◌<◌, ◌≡◌, ==_no, refl, sym, ap, ◌∙◌, arith, map,
}
use mathlib.Core.List.{map-append, append_assoc, append-nil}
use eos_tools.Prelude.Text.{String, append}
use eos_tools.Prelude.Word.{add64_lem, add16_lem, sub16}
use eos_tools.Launcher.Host.{
  EosdDef, new_host, set_host, next_p2p_port, next_http_port, p2p_bios_port, http_bios_port,
}
use eos_tools.Launcher.Define.{
  Names, DefineState, dex, assign_name, define_instance, define_loop, define_local,
}

-- An instance's name and ports.
unfoldable pub place : EosdDef → String × ℕ × ℕ
place e = (e.name, e.p2p_port, e.http_port)

module _ (lexical_cast : ℕ → String) (join : String → String → String) (names : Names) where
  -- The places of `count` nodes from the number `k` on.
  unfoldable pub places : ℕ → ℕ → List (String × ℕ × ℕ)
  places k zero = []
  places k (suc count) =
      (append names.network_name (dex lexical_cast join names k), 9876 + k, 8888 + k)
      ∷ places (k + 1) count

  -- The state before the node of number `k`.
  record IsAt (k : ℕ) (st : DefineState) : Type 0 where
    number : st.next_node ≡ k
    p2p_base : st.local_host.base_p2p_port ≡ 9876
    http_base : st.local_host.base_http_port ≡ 8888
    p2ps : st.local_host.p2p_count ≡ k
    https : st.local_host.http_count ≡ k

  node_placed :
      (k : ℕ) (st : DefineState)
      → IsAt k st
      → k < 55659
      → (let next = define_instance lexical_cast join names st false in
          IsAt (k + 1) next
          × (map place next.local_host.instances ≡ map place st.local_host.instances ++ places k 1)
          × (next.aliases ≡ st.aliases ++ map (λ p. p.0) (places k 1)))
  unfolding define_instance assign_name set_host next_p2p_port next_http_port place places
  node_placed k st a b = (
    record {
      number = rw (a.number) (add64_lem k 1 (omega arith));
      p2p_base = a.p2p_base;
      http_base = a.http_base;
      p2ps = rw (a.p2ps) (add16_lem k 1 (omega arith));
      https = rw (a.https) (add16_lem k 1 (omega arith));
    },
    map-append place st.local_host.instances _
        ∙ rw
            (
              a.number,
              a.p2p_base,
              a.p2ps,
              a.http_base,
              a.https,
              add16_lem 9876 k (omega arith),
              add16_lem 8888 k (omega arith),
            )
            refl,
    rw (a.number) refl,
  )

  -- The loop behind the first round.
  nodes_placed :
      (rounds i k : ℕ) (st : DefineState)
      → IsAt k st
      → 0 < i
      → k + rounds < 55660
      → (let last = define_loop lexical_cast join names rounds i st in
          (map place last.local_host.instances
            ≡ map place st.local_host.instances ++ places k rounds)
          × (last.aliases ≡ st.aliases ++ map (λ p. p.0) (places k rounds)))
  unfolding define_loop places
  nodes_placed zero i k st a p b =
      (sym (append-nil (map place st.local_host.instances)), sym (append-nil st.aliases))
  nodes_placed (suc rounds) i k st a p b =
      let (at, e, f) = node_placed k st a (omega arith) in
      let (g, h) =
        nodes_placed rounds (i + 1) (k + 1) (define_instance lexical_cast join names st false) at
          (omega arith) (omega arith) in
      let round : define_loop lexical_cast join names (suc rounds) i st
          ≡ define_loop lexical_cast join names rounds (i + 1)
              (define_instance lexical_cast join names st false) =
        ap
          (λ c.
            define_loop lexical_cast join names rounds (i + 1)
              (define_instance lexical_cast join names st c))
          (==_no i 0 (omega arith)) in
      (
        ap (λ d. map place d.local_host.instances) round
            ∙ g
            ∙ rw (e) (
                append_assoc (map place st.local_host.instances) (places k 1)
                  (places (k + 1) rounds)),
        ap (λ d. d.aliases) round
            ∙ h
            ∙ rw (f) (
                append_assoc st.aliases (map (λ p. p.0) (places k 1))
                  (map (λ p. p.0) (places (k + 1) rounds))),
      )

-- For fewer than 55660 nodes beside bios no port wraps: the nodes' ports go up from 9876 and 8888 in
-- their order, bios has 100 less than the first of them, and `aliases` holds the names, bios first.
pub place-define_local :
    (lexical_cast : ℕ → String) (join : String → String → String) (names : Names) (count : ℕ)
    → count < 55660
    → (let st = define_local lexical_cast join names (suc count) in
        (map place st.local_host.instances
          ≡ ("bios", 9776, 8788) ∷ places lexical_cast join names 0 count)
        × (st.aliases ≡ "bios" ∷ map (λ p. p.0) (places lexical_cast join names 0 count)))
unfolding define_local define_loop define_instance assign_name set_host new_host p2p_bios_port
    http_bios_port sub16 place
place-define_local lexical_cast join names count b =
    nodes_placed lexical_cast join names count 1 0 _
      (record { number = refl; p2p_base = refl; http_base = refl; p2ps = refl; https = refl })
      (omega arith) (omega arith)

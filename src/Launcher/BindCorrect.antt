-- ===== src/Launcher/BindCorrect.antt =====
-- `bind_nodes` of eosio-launcher2/main.cpp gives each producer to one node.
use eos_tools.Prelude.{
  ℕ, zero, suc, some, List, [], ◌∷◌, ◌++◌, ◌+◌, ◌-◌, ◌*◌, ◌^◌, ◌/◌, ◌==◌, ◌<◌, ◌≤◌, ◌≡◌, refl, sym,
  ap, subst, ◌∙◌, ltb, ltb_no, lt→ltb, ltb→lt, arith, inl, inr, Bool-cases, ==_iff, if◌then◌else◌,
}
use mathlib.Core.Bool.{true≢false}
use mathlib.Core.List.{append-nil}
use native.Mathlib.Nat.{div-add-mod, mod-lt}
use eos_tools.Prelude.Text.{String, str_eq}
use eos_tools.Prelude.Word.{add32_lem, u32_mod}
use eos_tools.Launcher.Host.{EosdDef, HostDef}
use eos_tools.Launcher.ProducerNameLaws.{label, producer_name_total, label-ne-eosio}
use eos_tools.Launcher.Bind.{
  ProdkeyDef, BindState, names_loop, keyed, bind_bios, add_worker, bind_worker, bind_instance,
  bind_instances, bind_hosts, start_state, bind_nodes, setprods,
}

-- The names of `count` producers from the number `n` on.
unfoldable pub labels : ℕ → ℕ → List String
labels n zero = []
labels n (suc count) = label n ∷ labels (n + 1) count

pub labels-append : (n a b : ℕ) → labels n (a + b) ≡ labels n a ++ labels (n + a) b
unfolding labels
labels-append n zero b =
    let same : n + 0 ≡ n = omega arith in
    let none_more : 0 + b ≡ b = omega arith in rw (same, none_more) refl
labels-append n (suc a) b =
    let one_more : suc a + b ≡ suc (a + b) = omega arith in
    let same : n + suc a ≡ n + 1 + a = omega arith in
    rw (one_more, same) (ap (◌∷◌ (label n)) (labels-append (n + 1) a b))

labels_first : (a b : ℕ) → labels 0 (a + b) ≡ labels 0 a ++ labels a b
labels_first a b =
    let same : 0 + a ≡ a = omega arith in
    subst (λ x. labels 0 (a + b) ≡ labels 0 a ++ labels x b) same (labels-append 0 a b)

names_loop_lem :
    (count n : ℕ) → n + count < u32_mod → names_loop count n ≡ some (labels n count, n + count)
unfolding names_loop labels
names_loop_lem zero n h = let same : n + 0 ≡ n = omega arith in rw (same) refl
names_loop_lem (suc count) n h =
    let same : n + suc count ≡ n + 1 + count = omega arith in
    rw
      (
        producer_name_total n (omega arith),
        add32_lem n 1 (omega arith),
        names_loop_lem count (n + 1) (omega arith),
        same,
      )
      refl

module _ {P : Type 0} where
  setprods-append : (xs ys : List (ProdkeyDef P)) → setprods (xs ++ ys) ≡ setprods xs ++ setprods ys
  unfolding setprods
  setprods-append [] ys = refl
  setprods-append (x ∷ xs) ys = elim (Bool-cases (str_eq x.producer_name "eosio")) [
    | inl t ↦ rw (t) (setprods-append xs ys)
    | inr f ↦ rw (f) (ap (◌∷◌ x.producer_name) (setprods-append xs ys))
  ]

  setprods-keyed :
      (k : P) (n count : ℕ)
      → n + count < u32_mod
      → setprods (keyed k (labels n count)) ≡ labels n count
  unfolding setprods keyed labels
  setprods-keyed k n zero h = refl
  setprods-keyed k n (suc count) h =
      rw (label-ne-eosio n (omega arith))
        (ap (◌∷◌ (label n)) (setprods-keyed k (n + 1) count (omega arith)))

-- The number of instances beside bios.
unfoldable pub workers_of : List EosdDef → ℕ
workers_of [] = 0
workers_of (inst ∷ instances) =
    let rest = workers_of instances in if str_eq inst.name "bios" then rest else suc rest

unfoldable pub all_workers : List HostDef → ℕ
all_workers [] = 0
all_workers (h ∷ bindings) = workers_of h.instances + all_workers bindings

module _ {P : Type 0} (generate : ℕ → P) (bios_key : P) (non_bios per_node producers : ℕ) where
  -- The producers allotted so far are the first ones, and the nodes to come can take the others.
  record IsFair (st : BindState P) : Type 0 where
    allotted : setprods st.schedule ≡ labels 0 st.producer_number
    shares : st.producer_number + (non_bios - st.i) * per_node + st.extra ≡ producers
    extras : st.extra ≤ non_bios - st.i

  worker_takes :
      (st : BindState P) (inst : EosdDef) (count extra : ℕ)
      → setprods st.schedule ≡ labels 0 st.producer_number
      → st.producer_number + count < u32_mod
      → st.i + 1 < u32_mod
      → (next : BindState P) × (bind_worker generate bios_key non_bios per_node st inst count extra
          ≡ some next)
        × (setprods next.schedule ≡ labels 0 next.producer_number)
        × (next.producer_number ≡ st.producer_number + count)
        × (next.i ≡ st.i + 1)
        × (next.extra ≡ extra)
  unfolding bind_worker add_worker
  worker_takes st inst count extra a b c =
      let n = st.producer_number in
      let names = labels n count in
      let keys = keyed (generate st.calls) names in
      (
        add_worker generate bios_key non_bios per_node st inst extra names (n + count),
        rw (names_loop_lem count n b) refl,
        setprods-append st.schedule keys
            ∙ rw (a, setprods-keyed (generate st.calls) n count b) (sym (labels_first n count)),
        refl,
        add32_lem st.i 1 c,
        refl,
      )

  one_share : (m : ℕ) → 0 < m → m * per_node ≡ per_node + (m - 1) * per_node
  one_share zero h = absurd (omega arith)
  one_share (suc m) h = let same : suc m - 1 ≡ m = omega arith in rw (same) (grind arith)

  worker-IsFair :
      (st : BindState P) (inst : EosdDef) (count extra : ℕ)
      → IsFair st
      → producers < 2 ^ 31
      → st.i + 1 < u32_mod
      → count + (non_bios - (st.i + 1)) * per_node + extra ≡ (non_bios - st.i) * per_node + st.extra
      → extra ≤ non_bios - (st.i + 1)
      → (next : BindState P) × (bind_worker generate bios_key non_bios per_node st inst count extra
          ≡ some next)
        × IsFair next
        × (next.i ≡ st.i + 1)
  worker-IsFair st inst count extra f p b e l =
      let (next, r, a, m, k, x) =
        worker_takes st inst count extra f.allotted (omega (arith, f.shares, e)) b in
      let left : non_bios - next.i ≡ non_bios - (st.i + 1) = rw (k) refl in
      (
        next,
        r,
        record {
          allotted = a;
          shares = rw (m, left, x) (omega (arith, f.shares, e));
          extras = rw (left, x) l;
        },
        k,
      )

  bios-IsFair :
      (st : BindState P) (inst : EosdDef)
      → IsFair st
      → IsFair (bind_bios generate bios_key non_bios per_node st inst)
  unfolding bind_bios keyed setprods
  bios-IsFair st inst f = record {
    allotted =
        setprods-append st.schedule (keyed bios_key ("eosio" ∷ []))
        ∙ append-nil (setprods st.schedule)
        ∙ f.allotted;
    shares = f.shares;
    extras = f.extras;
  }

  bios_stays :
      (st : BindState P) (inst : EosdDef)
      → (bind_bios generate bios_key non_bios per_node st inst).i ≡ st.i
  unfolding bind_bios
  bios_stays st inst = refl

  -- A node beside bios keeps the allotment fair, and bios leaves it as it is.
  instance-IsFair :
      (st : BindState P) (inst : EosdDef)
      → IsFair st
      → producers < 2 ^ 31
      → st.i + 1 < u32_mod
      → (next : BindState P) × (bind_instance generate bios_key non_bios per_node st inst
          ≡ some next)
        × IsFair next
        × (next.i ≡ st.i + (if str_eq inst.name "bios" then 0 else 1))
  unfolding bind_instance
  instance-IsFair st inst f p b =
      let next_left : non_bios - (st.i + 1) ≡ non_bios - st.i - 1 = omega arith in
      elim (Bool-cases (str_eq inst.name "bios")) [
        | inl t ↦ (
          bind_bios generate bios_key non_bios per_node st inst,
          rw (t) refl,
          bios-IsFair st inst f,
          rw (t) (bios_stays st inst ∙ add_zero),
        )
        | inr n ↦ elim (Bool-cases (ltb st.i non_bios)) [
          | inl l ↦
              let share = one_share (non_bios - st.i) (omega (arith, ltb→lt st.i non_bios l)) in
              elim (Bool-cases (st.extra == 0)) [
                | inl z ↦
                    let zero_left = (==_iff st.extra 0).0 z in
                    let (next, r, g, k) =
                      worker-IsFair st inst per_node st.extra f p b
                        (rw (next_left) (omega (arith, share))) (omega arith) in
                    (next, rw (n, l, z) r, g, rw (n) k)
                | inr s ↦
                    let some_left : ¬ (st.extra ≡ 0) = grind (arith, s) in
                    let (next, r, g, k) =
                      worker-IsFair st inst (per_node + 1) (st.extra - 1) f p b
                        (rw (next_left) (omega (arith, share))) (omega (arith, f.extras)) in
                    (next, rw (n, l, s) r, g, rw (n) k)
              ]
          | inr g ↦
              let past : ¬ (st.i < non_bios) = λ h. true≢false (sym (lt→ltb st.i non_bios h) ∙ g) in
              let no_more : non_bios - st.i ≡ 0 = omega arith in
              let (next, r, g2, k) =
                worker-IsFair st inst 0 st.extra f p b (rw (next_left, no_more) (omega arith))
                  (omega (arith, f.extras)) in
              (next, rw (n, g) r, g2, rw (n) k)
        ]
      ]
    where
      add_zero : st.i ≡ st.i + 0
      add_zero = omega arith

  instances-IsFair :
      (st : BindState P) (instances : List EosdDef)
      → IsFair st
      → producers < 2 ^ 31
      → st.i + workers_of instances + 1 < u32_mod
      → (next : BindState P) × (bind_instances generate bios_key non_bios per_node st instances
          ≡ some next)
        × IsFair next
        × (next.i ≡ st.i + workers_of instances)
  unfolding bind_instances workers_of
  instances-IsFair st [] f p b = (st, refl, f, omega arith)
  instances-IsFair st (inst ∷ instances) f p b =
      let (mid, r, g, k) = instance-IsFair st inst f p (omega arith) in
      let count = count_first inst (workers_of instances) in
      let (next, q, h, m) = instances-IsFair mid instances g p (omega (arith, count)) in
      (next, rw (r) q, h, omega (arith, count))
    where
      count_first :
          (inst : EosdDef) (rest : ℕ)
          → (if str_eq inst.name "bios" then rest else suc rest)
            ≡ (if str_eq inst.name "bios" then 0 else 1) + rest
      count_first inst rest = elim (Bool-cases (str_eq inst.name "bios")) [
        | inl t ↦ rw (t) (omega arith)
        | inr n ↦ rw (n) (omega arith)
      ]

  hosts-IsFair :
      (st : BindState P) (bindings : List HostDef)
      → IsFair st
      → producers < 2 ^ 31
      → st.i + all_workers bindings + 1 < u32_mod
      → (next : BindState P) × (bind_hosts generate bios_key non_bios per_node st bindings
          ≡ some next)
        × IsFair next
        × (next.i ≡ st.i + all_workers bindings)
  unfolding bind_hosts all_workers
  hosts-IsFair st [] f p b = (st, refl, f, omega arith)
  hosts-IsFair st (h ∷ bindings) f p b =
      let (mid, r, g, k) = instances-IsFair st h.instances f p (omega arith) in
      let (next, q, e, m) = hosts-IsFair mid bindings g p (omega arith) in
      (next, rw (r) q, e, omega arith)

  all_allotted :
      (st : BindState P) → IsFair st → non_bios ≤ st.i → setprods st.schedule ≡ labels 0 producers
  all_allotted st f b =
      let none_left : non_bios - st.i ≡ 0 = omega arith in
      let no_share : (non_bios - st.i) * per_node ≡ 0 = rw (none_left) (grind arith) in
      let all : st.producer_number ≡ producers =
        omega (arith, f.shares, f.extras, none_left, no_share) in
      f.allotted ∙ ap (labels 0) all

start-IsFair :
    {P : Type 0} (generate : ℕ → P) (bios_key : P) (non_bios producers : ℕ)
    → 0 < non_bios
    → IsFair generate bios_key non_bios
        (producers / non_bios)
        producers
        (start_state non_bios producers)
unfolding start_state setprods labels
start-IsFair generate bios_key non_bios producers h = record {
  allotted = refl;
  shares =
      let from_start : non_bios - 0 ≡ non_bios = omega arith in
      rw (from_start) (omega (arith, div-add-mod producers non_bios));
  extras = omega (arith, mod-lt producers h);
}

-- Where `prod_nodes` is 2 at least, there are fewer than 2 ^ 31 producers, and the hosts have
-- `prod_nodes - 1` nodes beside bios at least and fewer than 2 ^ 32 - 1, `bind_nodes` returns, and
-- the schedule without bios is that of the first `producers` names, each once and in order.
pub setprods-bind_nodes :
    {P : Type 0} (generate : ℕ → P) (bios_key : P) (prod_nodes producers : ℕ)
    (bindings : List HostDef)
    → 2 ≤ prod_nodes
    → producers < 2 ^ 31
    → prod_nodes - 1 ≤ all_workers bindings
    → all_workers bindings + 1 < u32_mod
    → (st : BindState P) × (bind_nodes generate bios_key prod_nodes producers bindings ≡ some st)
      × (setprods st.schedule ≡ labels 0 producers)
unfolding bind_nodes start_state
setprods-bind_nodes generate bios_key prod_nodes producers bindings m p enough b =
    let non_bios = prod_nodes - 1 in
    let (st, r, f, k) =
      hosts-IsFair generate bios_key non_bios (producers / non_bios) producers
        (start_state non_bios producers) bindings
        (start-IsFair generate bios_key non_bios producers (omega arith)) p (omega arith) in
    (
      st,
      rw (ltb_no prod_nodes 2 m) r,
      all_allotted generate bios_key non_bios (producers / non_bios) producers st f (omega arith),
    )

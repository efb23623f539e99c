-- ===== src/ForkDb/Temporary.antt =====
-- What `main` of eosio-forkdb/forkdb.cpp does with the directory `tmp`, into which it copies the file
-- of the fork database before it reads it.
use eos_tools.Prelude.{
  Bool, true, false, Option, none, some, List, [], ◌∷◌, ◌<◌, ◌⊎◌, inl, inr, ltb→lt, All, ◌≡◌, refl,
  ap, sym, ◌∙◌, subst, ltb, if◌then◌else◌, arith,
}
use mathlib.Core.Option.{some-injective}
use eos_tools.Prelude.Text.{String}
use eos_tools.ForkDb.Read.{StateOps, Item, Outcome, no_blocks_found, unable_to_open_file, finished}
use eos_tools.ForkDb.Options.{OptionDef, VariablesMap, program_options}
use eos_tools.ForkDb.Run.{
  Action, is_directory, exists, create_directories, remove, copy_file, remove_all, print,
  print_help, elog, Result, done, thrown, endless, World, Run, ask, pure, throw, act, ◌>>=◌,
  attempt, or_throw, never,
}
use eos_tools.ForkDb.Main.{
  ForkDatabase, Paths, Dirs, returned_0, absolute, temporary, make_tmp_dir, remove_old, output_path,
  initialize, initialize_in, run_with, print_db, written, read_db, tried, end_main, main,
}
use eos_tools.ForkDb.Only.{
  Only, Only-bind, Only-pure, Only-throw, Only-never, Only-attempt, Only-or_throw,
  Only-or_throw-bind, only_rules, bind_parts, pure_parts, or_throw_parts, attempt_parts,
}

module _ (paths : Paths) (bld : String) where
  abbrev tmp_dir : String
  tmp_dir = temporary paths bld

  abbrev tmp_file : String
  tmp_file = paths.slash tmp_dir paths.forkdb_filename

  abbrev db_file : String
  db_file = paths.slash (absolute paths bld) paths.forkdb_filename

  -- What changes a file changes the directory `tmp` or the copy in it.
  abbrev pub StaysInside : {S : Type 0} → Action S → Type 0
  StaysInside (is_directory dir) = Unit
  StaysInside (exists file) = Unit
  StaysInside (create_directories dir) = dir ≡ tmp_dir
  StaysInside (remove file) = file ≡ tmp_file
  StaysInside (copy_file from to) = (from ≡ db_file) × (to ≡ tmp_file)
  StaysInside (remove_all dir) = dir ≡ tmp_dir
  StaysInside (print items) = Unit
  StaysInside print_help = Unit
  StaysInside elog = Unit

module _ {S : Type 0} (world : World S) (paths : Paths) (bld : String) where
  make_tmp_dir-Only : Only (StaysInside paths bld) (make_tmp_dir world paths (temporary paths bld))
  unfolding make_tmp_dir
  make_tmp_dir-Only = search only_rules depth 10

  remove_old-Only :
      Only
        (StaysInside paths bld)
        (remove_old world paths (paths.slash (temporary paths bld) paths.forkdb_filename))
  unfolding remove_old
  remove_old-Only = search only_rules depth 10

  initialize-Only :
      (vmap : VariablesMap)
      → vmap.blocks_dir ≡ some bld
      → Only (StaysInside paths bld) (initialize world paths vmap)
  unfolding initialize initialize_in
  initialize-Only vmap e = Only-or_throw-bind _ _ (λ b h.
      let same : bld ≡ b = some-injective _ _ (sym e ∙ h) in
      subst (λ c. Only (StaysInside paths bld) (initialize_in world paths vmap c)) same
        (Only-bind _ _ make_tmp_dir-Only (λ made.
          Only-bind _ _ remove_old-Only (λ removed.
            Only-bind _ _ (Only-attempt world _ (refl, refl)) (λ copied. Only-pure _)))))

  module _ {I : Type 0} (ops : StateOps S I) (open_db : String → Option (ForkDatabase S I))
      (can_open : String → Bool) where
    written-Only :
        (o : Option (Outcome S))
        → Only (StaysInside paths bld) (written world paths ops open_db can_open o)
    unfolding written
    written-Only none = Only-never
    written-Only (some no_blocks_found) = Only-throw
    written-Only (some (unable_to_open_file items)) = search only_rules
    written-Only (some (finished items)) = search only_rules

    print_db-Only :
        (vmap : VariablesMap)
        → vmap.blocks_dir ≡ some bld
        → Only (StaysInside paths bld) (print_db world paths ops open_db can_open vmap)
    unfolding print_db
    print_db-Only vmap e = Only-bind _ _ (initialize-Only vmap e) (λ dirs.
        Only-bind _ _ (Only-or_throw (open_db dirs.blocks_dir))
          (λ db. Only-bind _ _ (written-Only _) (λ read. Only-pure _)))

    run_with-Only :
        (vmap : VariablesMap)
        → vmap.blocks_dir ≡ some bld
        → Only (StaysInside paths bld) (run_with world paths ops open_db can_open vmap)
    unfolding run_with
    run_with-Only vmap e = search (only_rules, print_db-Only)

  -- The parts of `initialize` that is done.
  initialize_parts :
      (vmap : VariablesMap) (dirs : Dirs) (s s' : List (Action S))
      → vmap.blocks_dir ≡ some bld
      → initialize world paths vmap s ≡ (done dirs, s')
      → (before : List (Action S)) × (s'
          ≡ copy_file (db_file paths bld) (tmp_file paths bld) ∷ before)
        × (dirs ≡ record {
          blocks_dir = temporary paths bld;
          tmp_dir = temporary paths bld;
          output_file = output_path world paths vmap.output_file;
        })
  unfolding initialize initialize_in
  initialize_parts vmap dirs s s' e h =
      let (b, s1, p, h1) = bind_parts _ _ _ _ _ h in
      let (q, _) = or_throw_parts _ _ _ _ p in
      let same : b ≡ bld = some-injective _ _ (sym q ∙ e) in
      let (_, s2, _, h2) = bind_parts _ _ _ _ _ h1 in
      let (_, s3, _, h3) = bind_parts _ _ _ _ _ h2 in
      let (u, s4, c, h4) = bind_parts _ _ _ _ _ h3 in
      let (d, z) = pure_parts _ _ _ _ h4 in
      (s3, rw (sym same) (sym z ∙ attempt_parts _ _ _ _ _ c), rw (sym same) (sym d))

  module _ {I : Type 0} (ops : StateOps S I) (open_db : String → Option (ForkDatabase S I))
      (can_open : String → Bool) where
    -- What `main` did where it returns 0 behind `read_log`.
    pub record Printed (vmap : VariablesMap) (s : List (Action S)) : Type 0 where
      pub db : ForkDatabase S I
      pub items : List (Item S)
      pub before : List (Action S)
      pub opened : open_db (temporary paths bld) ≡ some db
      pub read :
          read_db world paths ops open_db can_open db vmap.members
            (output_path world paths vmap.output_file)
          ≡ some (finished items)
      pub acted : s ≡ print items ∷ copy_file (db_file paths bld) (tmp_file paths bld) ∷ before

    written_parts :
        (o : Option (Outcome S)) (u : Unit {0}) (s s' : List (Action S))
        → written world paths ops open_db can_open o s ≡ (done u, s')
        → (items : List (Item S)) × (o ≡ some (finished items)) × (s' ≡ print items ∷ s)
    unfolding written never throw act ◌>>=◌ eos_tools.ForkDb.Run.continue
    written_parts none u s s' h = absurd (cc h)
    written_parts (some no_blocks_found) u s s' h = absurd (cc h)
    written_parts (some (unable_to_open_file items)) u s s' h = absurd (cc h)
    written_parts (some (finished items)) u s s' h = (items, refl, sym (ap (λ r. r.1) h))

    print_db_parts :
        (vmap : VariablesMap) (o : Option String) (s s' : List (Action S))
        → vmap.blocks_dir ≡ some bld
        → print_db world paths ops open_db can_open vmap s ≡ (done o, s')
        → (o ≡ some (temporary paths bld)) × Printed vmap s'
    unfolding print_db
    print_db_parts vmap o s s' e h =
        let (dirs, s1, p, h1) = bind_parts _ _ _ _ _ h in
        let (before, c, d) = initialize_parts vmap dirs _ _ e p in
        let (db, s2, q, h2) = bind_parts _ _ _ _ _ h1 in
        let (opened, same) = or_throw_parts _ _ _ _ q in
        let (_, s3, w, h3) = bind_parts _ _ _ _ _ h2 in
        let (items, read, printed) = written_parts _ _ _ _ w in
        let (t, z) = pure_parts _ _ _ _ h3 in
        let out : List (Action S) = copy_file (db_file paths bld) (tmp_file paths bld) ∷ before in
        let acted : s' ≡ print items ∷ out =
          sym z ∙ printed ∙ ap (λ r. print items ∷ r) (sym same ∙ c) in
        (
          sym t ∙ ap (λ r. some r.tmp_dir) d,
          record {
            db = db;
            items = items;
            before = before;
            opened = ap (λ r. open_db r.blocks_dir) (sym d) ∙ opened;
            read =
                ap (λ r. read_db world paths ops open_db can_open db vmap.members r.output_file)
                  (sym d)
                ∙ read;
            acted = acted;
          },
        )

    -- Where the `try` block ends with no exception, the help was asked for or the database printed.
    run_with_parts :
        (vmap : VariablesMap) (o : Option String) (s s' : List (Action S))
        → vmap.blocks_dir ≡ some bld
        → run_with world paths ops open_db can_open vmap s ≡ (done o, s')
        → ((0 < vmap.help) × (o ≡ none)) ⊎ ((o ≡ some (temporary paths bld)) × Printed vmap s')
    unfolding run_with
    run_with_parts vmap o s s' e h = by_help (ltb 0 vmap.help) refl h
      where
        by_help :
            (b : Bool)
            → ltb 0 vmap.help ≡ b
            → (if b
                  then (act print_help >>= λ helped. pure none)
                  else print_db world paths ops open_db can_open vmap)
                s
              ≡ (done o, s')
            → ((0 < vmap.help) × (o ≡ none)) ⊎ ((o ≡ some (temporary paths bld)) × Printed vmap s')
        by_help true b h =
            let (_, s1, p, h1) = bind_parts _ _ _ _ _ h in
            let (d, _) = pure_parts _ _ _ _ h1 in inl (ltb→lt _ _ b, sym d)
        by_help false b h = inr (print_db_parts vmap o s s' e h)

    module _ (parse : List OptionDef → List String → Option VariablesMap) where
      tried_parts :
          (args : List String) (vmap : VariablesMap) (o : Option String) (s s' : List (Action S))
          → parse program_options args ≡ some vmap
          → vmap.blocks_dir ≡ some bld
          → tried world paths ops open_db can_open parse args s ≡ (done o, s')
          → ((0 < vmap.help) × (o ≡ none)) ⊎ ((o ≡ some (temporary paths bld)) × Printed vmap s')
      unfolding tried
      tried_parts args vmap o s s' v e h =
          let (w, s1, p, h1) = bind_parts _ _ _ _ _ h in
          let (q, _) = or_throw_parts _ _ _ _ p in
          let same : w ≡ vmap = some-injective _ _ (sym q ∙ v) in
          run_with_parts vmap o s1 s' e
            (subst (λ x. run_with world paths ops open_db can_open x s1 ≡ (done o, s')) same h1)

      tried-Only :
          (args : List String) (vmap : VariablesMap)
          → parse program_options args ≡ some vmap
          → vmap.blocks_dir ≡ some bld
          → Only (StaysInside paths bld) (tried world paths ops open_db can_open parse args)
      unfolding tried
      tried-Only args vmap v e = Only-or_throw-bind _ _ (λ w q.
          run_with-Only ops open_db can_open w
            (ap (λ x. x.blocks_dir) (some-injective _ _ (sym q ∙ v)) ∙ e))

      -- Where the options are read and `blocks-dir` among them, `main` calls `create_directories`
      -- on no path but `tmp` in that one (the call makes missing parents too), removes no file but
      -- the copy in it and no directory but itself, and copies nothing but the file of the fork
      -- database into it.
      pub main-StaysInside :
          (args : List String) (vmap : VariablesMap)
          → parse program_options args ≡ some vmap
          → vmap.blocks_dir ≡ some bld
          → All (StaysInside paths bld) (main world paths ops open_db can_open parse args).1
      unfolding main end_main
      main-StaysInside args vmap v e =
          by_end (tried world paths ops open_db can_open parse args []).0 refl
            ((tried-Only args vmap v e).at [] tt)
        where
          by_end :
              (r : Result (Option String))
              → (tried world paths ops open_db can_open parse args []).0 ≡ r
              → All (StaysInside paths bld) (tried world paths ops open_db can_open parse args []).1
              → All
                  (StaysInside paths bld)
                  (end_main world paths ops open_db can_open parse r
                    (tried world paths ops open_db can_open parse args []).1).1
          by_end (done none) h all = all
          by_end (done (some tmp)) h all =
              elim (tried_parts args vmap (some tmp) [] _ v e
                (ap (λ r. (r, (tried world paths ops open_db can_open parse args []).1)) h)) [
                  | inl (_, n) ↦ absurd (cc n)
                  | inr (same, _) ↦ (some-injective _ _ same, all)
                ]
          by_end thrown h all = (tt, all)
          by_end endless h all = all

      -- Where the options are read, `blocks-dir` among them and no `help`, and `main` returns 0, its
      -- last action removes `tmp`, the one before writes what `read_log` gives for the database that
      -- was opened there, and the one before that copied the file into it.
      pub main-Printed :
          (args : List String) (vmap : VariablesMap)
          → parse program_options args ≡ some vmap
          → vmap.blocks_dir ≡ some bld
          → vmap.help ≡ 0
          → (main world paths ops open_db can_open parse args).0 ≡ returned_0
          → (s : List (Action S)) × Printed vmap s
            × ((main world paths ops open_db can_open parse args).1
                ≡ remove_all (temporary paths bld) ∷ s)
      unfolding main end_main
      main-Printed args vmap v e no_help h0 =
          by_end (tried world paths ops open_db can_open parse args []).0 refl h0
        where
          by_end :
              (r : Result (Option String))
              → (tried world paths ops open_db can_open parse args []).0 ≡ r
              → (end_main world paths ops open_db can_open parse r
                  (tried world paths ops open_db can_open parse args []).1).0
                ≡ returned_0
              → (s : List (Action S)) × Printed vmap s
                × ((end_main world paths ops open_db can_open parse r
                      (tried world paths ops open_db can_open parse args []).1).1
                    ≡ remove_all (temporary paths bld) ∷ s)
          by_end (done none) h z =
              elim (tried_parts args vmap none [] _ v e
                (ap (λ r. (r, (tried world paths ops open_db can_open parse args []).1)) h)) [
                  | inl (pos, _) ↦ absurd (omega arith)
                  | inr (n, _) ↦ absurd (cc n)
                ]
          by_end (done (some tmp)) h z =
              elim (tried_parts args vmap (some tmp) [] _ v e
                (ap (λ r. (r, (tried world paths ops open_db can_open parse args []).1)) h)) [
                  | inl (pos, _) ↦ absurd (omega arith)
                  | inr (same, printed) ↦ (
                    (tried world paths ops open_db can_open parse args []).1,
                    printed,
                    ap
                        (λ t.
                          remove_all t ∷ (tried world paths ops open_db can_open parse args []).1)
                        (some-injective _ _ same),
                  )
                ]
          by_end thrown h z = absurd (cc z)
          by_end endless h z = absurd (cc z)

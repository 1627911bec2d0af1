-- ===== src/Simulator/Main/Ends.antt =====
-- Whatever the command line, the program ends as it should or is still running.
use csci3757_operating_syste.Base.{
  ℕ, ◌≤◌, ◌≡◌, refl, ◌⊎◌, inl, inr, Bool, true, false, List, [], ◌∷◌, Result, ok, err, out_of_fuel,
  pos_part,
}
use csci3757_operating_syste.Simulator.Types.{max_processes, Sim}
use csci3757_operating_syste.Simulator.Branching.{Random}
use csci3757_operating_syste.Simulator.Process.{Outside}
use csci3757_operating_syste.Simulator.Queue.{allinit}
use csci3757_operating_syste.Simulator.Control.{Pager, alldone, allscore}
use csci3757_operating_syste.Simulator.Options.{
  Argument, help_option, all_option, load_option, block_option, page_option, branch_option,
  dead_option, seed_option, csv_option, procs_option, text, Settings, defaults, number, set_seed,
  set_procs, open_csv, one_error, parse, Outcome, exit_failure, exit_success, goes_on, outcome,
  command_line,
}
use csci3757_operating_syste.Simulator.Options.Limits.{command_line-WithinLimits}
use csci3757_operating_syste.Simulator.Invariant.{Inv}
use csci3757_operating_syste.Simulator.Invariant.Loading.{allinit-Inv}
use csci3757_operating_syste.Simulator.Invariant.Starting.{Tame-cases, allinit-Tame}
use csci3757_operating_syste.Simulator.Invariant.Running.{Lawful, simulate-Ended}
use csci3757_operating_syste.Simulator.Pagers.Basic
use csci3757_operating_syste.Simulator.Pagers.Basic.Law.{basic-Lawful}
use csci3757_operating_syste.Simulator.Pagers.Lru
use csci3757_operating_syste.Simulator.Pagers.Lru.{lru_start}
use csci3757_operating_syste.Simulator.Pagers.Lru.Law.{lru-Lawful}
use csci3757_operating_syste.Simulator.Pagers.Predict
use csci3757_operating_syste.Simulator.Pagers.Predict.{predict_start}
use csci3757_operating_syste.Simulator.Pagers.Predict.Law.{predict-Lawful}
use csci3757_operating_syste.Simulator.Pagers.Runs.{lru_start-IsLru}
use csci3757_operating_syste.Simulator.Main.{Invocation, End, failed, helped, scored, run, main}

-- Each -seed and -procs is followed by another argument.
unfoldable pub is_complete : List Argument → Bool
is_complete [] = true
is_complete (seed_option ∷ []) = false
is_complete (seed_option ∷ a ∷ args) = is_complete args
is_complete (procs_option ∷ []) = false
is_complete (procs_option ∷ a ∷ args) = is_complete args
is_complete (a ∷ args) = is_complete args

abbrev Parsed : Result Settings → Type 0
Parsed r = (s : Settings) × (r ≡ ok s)

parse-Parsed :
    (o p : Bool) (args : List Argument) (s : Settings)
    → is_complete args ≡ true
    → Parsed (parse o p args s)
unfolding parse is_complete
parse-Parsed o p [] s c = (s, refl)
parse-Parsed o p (help_option ∷ args) s c = parse-Parsed o p args _ c
parse-Parsed o p (all_option ∷ args) s c = parse-Parsed o p args _ c
parse-Parsed o p (load_option ∷ args) s c = parse-Parsed o p args _ c
parse-Parsed o p (block_option ∷ args) s c = parse-Parsed o p args _ c
parse-Parsed o p (page_option ∷ args) s c = parse-Parsed o p args _ c
parse-Parsed o p (branch_option ∷ args) s c = parse-Parsed o p args _ c
parse-Parsed o p (dead_option ∷ args) s c = parse-Parsed o p args _ c
parse-Parsed o p (seed_option ∷ []) s c = absurd (cc)
parse-Parsed o p (seed_option ∷ a ∷ args) s c = parse-Parsed o p args (set_seed (number a) s) c
parse-Parsed o p (csv_option ∷ args) s c = parse-Parsed o p args (open_csv o p s) c
parse-Parsed o p (procs_option ∷ []) s c = absurd (cc)
parse-Parsed o p (procs_option ∷ a ∷ args) s c = parse-Parsed o p args (set_procs (number a) s) c
parse-Parsed o p (text z ∷ args) s c = parse-Parsed o p args (one_error s) c

command_line-Parsed :
    (o p : Bool) (t t' t'' : ℕ) (args : List Argument)
    → is_complete args ≡ true
    → (x : Outcome) × (command_line o p t t' t'' args ≡ ok x)
unfolding command_line
command_line-Parsed o p t t' t'' args c =
    let (s, e) = parse-Parsed o p args defaults c in (outcome t t' t'' s, rw e refl)

-- Still running, or ended: after the usage text, or with every process done and the scores given.
abbrev pub Ends : Outside → Result End → Type 0
Ends o r =
    (r ≡ err out_of_fuel)
    ⊎ (r ≡ ok failed)
    ⊎ (r ≡ ok helped)
    ⊎ ((s : Sim) × (r ≡ ok (scored (allscore s))) × (alldone s ≡ true) × Inv o s)

module _ (o : Outside) {S : Type 0} (pageit : Pager S) (law : Lawful o pageit) (v : S)
    (good : law.Good v) (z : o.wherefrom ≡ 0) where
  run-Ends :
      (fuel steps : ℕ) (r : Random) (procs : ℕ)
      → procs ≤ max_processes
      → Ends o (run o pageit v fuel steps r procs)
  unfolding run
  run-Ends fuel steps r procs few =
      elim (Tame-cases (allinit r fuel procs) (allinit-Tame o r fuel procs z)) [
        | inl e ↦ rw e (inl refl)
        | inr (s, e) ↦
            elim (simulate-Ended o pageit law steps v s good
              (allinit-Inv o r fuel procs s z few e)) [
                | inl f ↦ rw (e, f) (inl refl)
                | inr (v', s', f, done, g, i) ↦ rw (e, f) (inr (inr (inr (s', refl, done, i))))
              ]
      ]

  main-Ends_by :
      (fuel steps : ℕ) (i : Invocation) (x : Outcome)
      → command_line i.output i.pages i.time0 i.time1 i.time2 i.arguments ≡ ok x
      → Ends o (main o pageit v fuel steps i)
  unfolding main
  main-Ends_by fuel steps i exit_failure e = rw e (inr (inl refl))
  main-Ends_by fuel steps i exit_success e = rw e (inr (inr (inl refl)))
  main-Ends_by fuel steps i (goes_on s) e =
      let limits =
        command_line-WithinLimits i.output i.pages i.time0 i.time1 i.time2 i.arguments s e in
      let few : pos_part s.procs ≤ max_processes = rw (limits.0.is_it) limits.0.to in
      rw e (run-Ends fuel steps (i.srand48 s.seed) (pos_part s.procs) few)

  main-Ends :
      (fuel steps : ℕ) (i : Invocation)
      → is_complete i.arguments ≡ true
      → Ends o (main o pageit v fuel steps i)
  main-Ends fuel steps i c =
      let (x, e) = command_line-Parsed i.output i.pages i.time0 i.time1 i.time2 i.arguments c in
      main-Ends_by fuel steps i x e

-- Whatever the arguments (as long as a number stands after each -seed and -procs), the files, the times
-- and the random numbers: with each of the three pagers the program is still running after any number
-- of time steps (or of rounds of an IF loop in the initialisation), or it has ended after the usage text,
-- or it has given the scores of a simulation in the invariant in which every process is done. It never
-- fails an assertion, uses a null pointer, divides by zero or leaves an array, but for the write just
-- past `brings` at the end of an IF loop, which is taken to change nothing. The memory just before the
-- branch table of the program without branches is taken to be 0.
pub mains-End :
    (o : Outside) (fuel steps : ℕ) (i : Invocation)
    → o.wherefrom ≡ 0
    → is_complete i.arguments ≡ true
    → Ends o (main o Basic.pageit tt fuel steps i)
      × Ends o (main o Lru.pageit lru_start fuel steps i)
      × Ends o (main o Predict.pageit predict_start fuel steps i)
mains-End o fuel steps i z c = (
  main-Ends o Basic.pageit (basic-Lawful o) tt tt z fuel steps i c,
  main-Ends o Lru.pageit (lru-Lawful o) lru_start lru_start-IsLru z fuel steps i c,
  main-Ends o Predict.pageit (predict-Lawful o) predict_start refl z fuel steps i c,
)

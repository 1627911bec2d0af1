-- ===== src/Simulator/Options.antt =====
-- PA4/PA4/simulator.c: the command line of `main`. Messages are left out; `-csv` is the two fopen
-- calls.
pub mod Limits
use csci3757_operating_syste.Base.{
  ℕ, zero, suc, ◌+◌, ◌*◌, ◌%◌, ◌^◌, ◌-◌, Bool, true, false, Option, none, some, List, [], ◌∷◌, ℤ,
  pos, negsuc, Result, ok, err, null_pointer, ◌>>=◌, ltb, ◌==◌, not, ◌||◌, if◌then◌else◌,
}
use csci3757_operating_syste.Simulator.Types.{max_processes}

-- An argument; of any other text, the number that sscanf reads from it, if it does.
pub data Argument : Type 0 where
  help_option all_option load_option block_option page_option branch_option dead_option : Argument
  seed_option csv_option procs_option : Argument
  text : Option ℤ → Argument

pub record Settings : Type 0 where
  pub log_load : Bool
  pub log_block : Bool
  pub log_page : Bool
  pub log_branch : Bool
  pub log_dead : Bool
  pub seed : ℤ
  pub procs : ℤ
  pub errors : ℕ
  pub help : ℕ

abbrev pub defaults : Settings
defaults = record {
  log_load = false;
  log_block = false;
  log_page = false;
  log_branch = false;
  log_dead = false;
  seed = pos 0;
  procs = pos max_processes;
  errors = 0;
  help = 0;
}

abbrev pub number : Argument → Option ℤ
number a = elim a [ text z ↦ z | _ ↦ none ]

-- z < 1 || z > high
abbrev pub is_outside : ℕ → ℤ → Bool
is_outside high (pos n) = ltb n 1 || ltb high n
is_outside high (negsuc n) = true

abbrev pub max_seed : ℕ
max_seed = 2 ^ 30 - 1

abbrev pub one_error : Settings → Settings
one_error s = record s { errors = s.errors + 1 }

unfoldable pub set_seed : Option ℤ → Settings → Settings
set_seed none s = one_error s
set_seed (some z) s =
    if is_outside max_seed z then one_error (record s { seed = z }) else record s { seed = z }

unfoldable pub set_procs : Option ℤ → Settings → Settings
set_procs none s = one_error s
set_procs (some z) s =
    if is_outside max_processes z
    then one_error (record s { procs = z })
    else record s { procs = z }

-- Whether output.csv and pages.csv can be opened.
unfoldable pub open_csv : Bool → Bool → Settings → Settings
open_csv output pages s =
    let s' = if output then s else one_error s in if pages then s' else one_error s'

-- A number that is missing after `-seed` or `-procs` makes sscanf read the null pointer that ends argv.
unfoldable pub parse : Bool → Bool → List Argument → Settings → Result Settings
unfolding set_seed set_procs open_csv
parse o p [] s = ok s
parse o p (help_option ∷ args) s = parse o p args (record s { help = s.help + 1 })
parse o p (all_option ∷ args) s =
    parse o p args
      (record s { log_load = true; log_block = true; log_page = true; log_branch = true })
parse o p (load_option ∷ args) s = parse o p args (record s { log_load = true })
parse o p (block_option ∷ args) s = parse o p args (record s { log_block = true })
parse o p (page_option ∷ args) s = parse o p args (record s { log_page = true })
parse o p (branch_option ∷ args) s = parse o p args (record s { log_branch = true })
parse o p (dead_option ∷ args) s = parse o p args (record s { log_dead = true })
parse o p (seed_option ∷ []) s = err null_pointer
parse o p (seed_option ∷ a ∷ args) s = parse o p args (set_seed (number a) s)
parse o p (csv_option ∷ args) s = parse o p args (open_csv o p s)
parse o p (procs_option ∷ []) s = err null_pointer
parse o p (procs_option ∷ a ∷ args) s = parse o p args (set_procs (number a) s)
parse o p (text z ∷ args) s = parse o p args (one_error s)

-- What `main` does with the settings: it ends with EXIT_FAILURE or EXIT_SUCCESS, or goes on.
pub data Outcome : Type 0 where
  exit_failure exit_success : Outcome
  goes_on : Settings → Outcome

-- The seed from three calls of `time`.
abbrev pub time_seed : ℕ → ℕ → ℕ → ℕ
time_seed t t' t'' = (t * 38491 + 71831 + t' * t'') % 2 ^ 30

abbrev pub or_time : ℕ → ℤ → ℤ
or_time now (pos zero) = pos now
or_time now (pos (suc n)) = pos (suc n)
or_time now (negsuc n) = negsuc n

abbrev pub with_seed : ℕ → Settings → Settings
with_seed now s = record s { seed = or_time now s.seed }

abbrev pub outcome : ℕ → ℕ → ℕ → Settings → Outcome
outcome t t' t'' s =
    if not (s.errors == 0)
    then exit_failure
    else if not (s.help == 0)
    then exit_success
    else goes_on (with_seed (time_seed t t' t'') s)

unfoldable pub command_line : Bool → Bool → ℕ → ℕ → ℕ → List Argument → Result Outcome
unfolding parse
command_line o p t t' t'' args = parse o p args defaults >>= λ s. ok (outcome t t' t'' s)

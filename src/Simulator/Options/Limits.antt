-- ===== src/Simulator/Options/Limits.antt =====
-- The limits of the settings with which the simulation begins.
use csci3757_operating_syste.Base.{
  ℕ, zero, suc, ◌+◌, ◌≤◌, ◌≡◌, refl, subst, Bool, true, false, Option, none, some, List, [], ◌∷◌, ℤ,
  pos, negsuc, ok, ◌==◌, if◌then◌else◌, arith, Bool-cases, >>=-eq-ok, inl, inr, not,
}
use csci3757_operating_syste.Simulator.Types.{max_processes}
use csci3757_operating_syste.Simulator.Options.{
  Argument, help_option, all_option, load_option, block_option, page_option, branch_option,
  dead_option, seed_option, csv_option, procs_option, text, Settings, defaults, number, is_outside,
  max_seed, one_error, set_seed, set_procs, open_csv, parse, exit_failure, exit_success, or_time,
  goes_on, time_seed, with_seed, outcome, command_line,
}

pub record IsIn (low high : ℕ) (z : ℤ) : Type 0 where
  pub it : ℕ
  pub is_it : z ≡ pos it
  pub from : low ≤ it
  pub to : it ≤ high

abbrev pub WithinLimits : Settings → Type 0
WithinLimits s = IsIn 1 max_processes s.procs × IsIn 0 max_seed s.seed

-- Settings out of the limits have been counted as errors.
abbrev Checked : Settings → Type 0
Checked s = s.errors ≡ 0 → WithinLimits s

inside-IsIn : (high : ℕ) (z : ℤ) → is_outside high z ≡ false → IsIn 1 high z
inside-IsIn high (pos n) e = record { it = n; is_it = refl; from = ground arith; to = ground arith }
inside-IsIn high (negsuc n) e = absurd (ground arith)

one_error-Checked : (s : Settings) → Checked (one_error s)
one_error-Checked s = λ e. absurd (omega (arith, e))

set_seed-Checked : (z : Option ℤ) (s : Settings) → Checked s → Checked (set_seed z s)
unfolding set_seed
set_seed-Checked none s c = one_error-Checked s
set_seed-Checked (some z) s c = elim (Bool-cases (is_outside max_seed z)) [
  | inl t ↦ rw t (one_error-Checked (record s { seed = z }))
  | inr f ↦
      let i = inside-IsIn max_seed z f in
      rw f (λ e. ((c e).0, record { it = i.it; is_it = i.is_it; from = omega arith; to = i.to }))
]

set_procs-Checked : (z : Option ℤ) (s : Settings) → Checked s → Checked (set_procs z s)
unfolding set_procs
set_procs-Checked none s c = one_error-Checked s
set_procs-Checked (some z) s c = elim (Bool-cases (is_outside max_processes z)) [
  | inl t ↦ rw t (one_error-Checked (record s { procs = z }))
  | inr f ↦ rw f (λ e. (inside-IsIn max_processes z f, (c e).1))
]

open_csv-Checked : (o p : Bool) (s : Settings) → Checked s → Checked (open_csv o p s)
unfolding open_csv
open_csv-Checked true true s c = c
open_csv-Checked true false s c = one_error-Checked s
open_csv-Checked false true s c = one_error-Checked s
open_csv-Checked false false s c = one_error-Checked (one_error s)

parse-Checked :
    (o p : Bool) (args : List Argument) (s t : Settings)
    → Checked s
    → parse o p args s ≡ ok t
    → Checked t
unfolding parse
parse-Checked o p [] s t c e = let same : s ≡ t = cc in subst Checked same c
parse-Checked o p (help_option ∷ args) s t c e =
    parse-Checked o p args (record s { help = s.help + 1 }) t c e
parse-Checked o p (all_option ∷ args) s t c e =
    parse-Checked o p args
      (record s { log_load = true; log_block = true; log_page = true; log_branch = true }) t c e
parse-Checked o p (load_option ∷ args) s t c e =
    parse-Checked o p args (record s { log_load = true }) t c e
parse-Checked o p (block_option ∷ args) s t c e =
    parse-Checked o p args (record s { log_block = true }) t c e
parse-Checked o p (page_option ∷ args) s t c e =
    parse-Checked o p args (record s { log_page = true }) t c e
parse-Checked o p (branch_option ∷ args) s t c e =
    parse-Checked o p args (record s { log_branch = true }) t c e
parse-Checked o p (dead_option ∷ args) s t c e =
    parse-Checked o p args (record s { log_dead = true }) t c e
parse-Checked o p (seed_option ∷ []) s t c e = absurd (ground arith)
parse-Checked o p (seed_option ∷ a ∷ args) s t c e =
    parse-Checked o p args (set_seed (number a) s) t (set_seed-Checked (number a) s c) e
parse-Checked o p (csv_option ∷ args) s t c e =
    parse-Checked o p args (open_csv o p s) t (open_csv-Checked o p s c) e
parse-Checked o p (procs_option ∷ []) s t c e = absurd (ground arith)
parse-Checked o p (procs_option ∷ a ∷ args) s t c e =
    parse-Checked o p args (set_procs (number a) s) t (set_procs-Checked (number a) s c) e
parse-Checked o p (text z ∷ args) s t c e =
    parse-Checked o p args (one_error s) t (one_error-Checked s) e

or_time-IsIn :
    (now : ℕ) (z : ℤ) → now ≤ max_seed → IsIn 0 max_seed z → IsIn 0 max_seed (or_time now z)
or_time-IsIn now (pos zero) h i = record { it = now; is_it = refl; from = omega arith; to = h }
or_time-IsIn now (pos (suc n)) h i = i
or_time-IsIn now (negsuc n) h i = i

past_the_checks :
    (b c : Bool) (s s' : Settings)
    → (if not b then exit_failure else if not c then exit_success else goes_on s) ≡ goes_on s'
    → (b ≡ true) × (s ≡ s')
past_the_checks true true s s' h = (refl, cc)
past_the_checks true false s s' h = absurd (cc)
past_the_checks false c s s' h = absurd (cc)

outcome-goes_on :
    (t t' t'' : ℕ) (s s' : Settings) → Checked s → outcome t t' t'' s ≡ goes_on s' → WithinLimits s'
outcome-goes_on t t' t'' s s' c e =
    let now = time_seed t t' t'' in
    let (none_wrong, same) = past_the_checks (s.errors == 0) (s.help == 0) (with_seed now s) s' e in
    let (few, seeded) = c (ground arith) in
    subst WithinLimits same (few, or_time-IsIn now s.seed (omega arith) seeded)

-- Whatever the arguments, the times and the files: where the simulator goes on after its command line,
-- the number of processors is from 1 to 20 and the seed is from 0 to 2^30 - 1.
pub command_line-WithinLimits :
    (o p : Bool) (t t' t'' : ℕ) (args : List Argument) (s : Settings)
    → command_line o p t t' t'' args ≡ ok (goes_on s)
    → WithinLimits s
unfolding command_line
command_line-WithinLimits o p t t' t'' args s e =
    let (s', f, g) = >>=-eq-ok (parse o p args defaults) (λ s. ok (outcome t t' t'' s)) e in
    outcome-goes_on t t' t'' s' s
      (parse-Checked o p args defaults s'
        (λ z. (
          record { it = max_processes; is_it = refl; from = omega arith; to = omega arith },
          record { it = 0; is_it = refl; from = omega arith; to = omega arith },
        ))
        f)
      cc

-- ===== src/Simulator/Process/Within.antt =====
-- What a step of `process_step` reads of the memory before its arrays.
use native.Mathlib.Decide.{dec_lt}
use csci3757_operating_syste.Base.{
  ℕ, zero, suc, ◌/◌, ◌<◌, ◌≡◌, refl, ◌∙◌, ap, ◌⊎◌, inl, inr, false, List, some, ℤ, pos, negsuc,
  Result, ok, ◌>>=◌, or_err, out_of_bounds, get_elem?, arith, if◌then◌else◌, err, assert, leb,
}
use csci3757_operating_syste.Simulator.Types.{max_exits, page_size, Program, Process}
use csci3757_operating_syste.Simulator.Search.{Hit, miss, before, hit, search_keys}
use csci3757_operating_syste.Simulator.Process.{
  Outside, find_exit, find_branch, execute, run_step, step_page, process_step,
}
use csci3757_operating_syste.Simulator.Process.WellFormed.{IsProcess}
use csci3757_operating_syste.Simulator.Process.Step.{Steps, process_step-Steps}

-- A search among some keys does not look before them.
search_keys-within :
    (keys : List ℕ) (a b n key : ℕ) → 0 < n → search_keys keys a n key ≡ search_keys keys b n key
unfolding search_keys
search_keys-within keys a b zero key h = absurd (omega (arith, h))
search_keys-within keys a b (suc n) key h = refl

bind-same {ℓ κ} :
    {A : Type ℓ} {B : Type κ} (x y : Result A) (f g : A → Result B)
    → x ≡ y
    → ((a : A) → f a ≡ g a)
    → (x >>= f) ≡ (y >>= g)
bind-same (ok a) y f g e h = h a ∙ ap (λ r. r >>= g) e
bind-same (err x) y f g e h = ap (λ r. r >>= g) e

module _ (o o' : Outside) (p : Program) (some_exit : 0 < p.nexits)
    (branches : (pc : ℕ) → find_branch o' p pc ≡ find_branch o p pc) where
  find_exit-within : (pc : ℕ) → find_exit o' p pc ≡ find_exit o p pc
  unfolding find_exit
  find_exit-within pc = search_keys-within p.exits o'.exit o.exit p.nexits pc some_exit

  execute-within : (q : Process) (h : Hit) → execute o' q p h ≡ execute o q p h
  unfolding execute
  execute-within q (hit i) = refl
  execute-within q before = refl
  execute-within q miss = rw (branches q.pc) refl

  run_step-within : (q : Process) → q.program ≡ some p → run_step o' q ≡ run_step o q
  unfolding run_step
  run_step-within q e = simp e (
      bind-same (assert (leb p.nexits max_exits)) (assert (leb p.nexits max_exits)) _ _ refl
        (λ checked.
          bind-same (find_exit o' p q.pc) (find_exit o p q.pc) _ _ (find_exit-within q.pc)
            (execute-within q)))

  step_page-within :
      (q : Process) (page : ℕ) (z : ℤ)
      → q.program ≡ some p
      → step_page o' q page z ≡ step_page o q page z
  unfolding step_page
  step_page-within q page (pos zero) e = run_step-within _ e
  step_page-within q page (pos (suc n)) e = refl
  step_page-within q page (negsuc n) e = refl

  process_step-same : (q : Process) → q.program ≡ some p → process_step o' q ≡ process_step o q
  unfolding process_step
  process_step-same q e =
      ap (λ r. if q.active then r else ok (false, q))
        (bind-same (or_err (get_elem? q.pages (q.pc / page_size)) out_of_bounds) _ _ _ refl
          (λ z. step_page-within q (q.pc / page_size) z e))

-- The program of the process has no branch.
abbrev pub IsBranchless : Process → Type 0
IsBranchless q = (p : Program) × (q.program ≡ some p) × (p.nbranches ≡ 0)

branches-within :
    (o o' : Outside) (p : Program)
    → 0 < p.nbranches
    → (pc : ℕ) → find_branch o' p pc ≡ find_branch o p pc
unfolding find_branch
branches-within o o' p h pc = search_keys-within _ o'.wherefrom o.wherefrom p.nbranches pc h

exits_only :
    (o : Outside) (x : ℕ) (p : Program) (pc : ℕ)
    → find_branch (record o { exit = x }) p pc ≡ find_branch o p pc
unfolding find_branch
exits_only o x p pc = refl

-- A step of a well-formed process always succeeds: no assertion fails, no null pointer is used and both
-- searches end; the process stays well formed, and the step changes neither the states of its pages
-- nor `active`. The step does not use what stands before the array of the exits; nor what stands before
-- the array of the branches, unless the program has no branch: then the read of branches[-1] is taken to
-- give a number, and the process is well formed only if this is the number of the first branch's entry.
pub process_step-Within :
    (o : Outside) (q : Process)
    → IsProcess o q
    → Steps o q (process_step o q)
      × ((e : ℕ) → process_step (record o { exit = e }) q ≡ process_step o q)
      × (IsBranchless q ⊎ ((o' : Outside) → process_step o' q ≡ process_step o q))
process_step-Within o q v =
    let (p, e, w, below) = v.loaded in
    (
      process_step-Steps o q v,
      λ x. process_step-same o (record o { exit = x }) p w.some_exit (exits_only o x p) q e,
      elim (dec_lt 0 p.nbranches) [
        | yes some_branch ↦
            inr
              (λ o'. process_step-same o o' p w.some_exit (branches-within o o' p some_branch) q e)
        | no none ↦ inl (p, e, omega (arith, none))
      ],
    )

-- ===== src/Simulator/Control/Deadlock.antt =====
-- What `allblocked` finds out.
use csci3757_operating_syste.Base.{
  ℕ, zero, suc, ◌/◌, ◌≤◌, ◌<◌, ◌≡◌, ◌≢◌, refl, sym, ◌∙◌, ◌⊎◌, inl, inr, ◌↔◌, true, not, ◌&&◌, ◌==◌,
  arith, Bool-cases, Option-cases, ℤ, pos, negsuc, some, get_elem?,
}
use csci3757_operating_syste.Simulator.Types.{page_size, page_wait, Process, Sim}
use csci3757_operating_syste.Simulator.Paging.{live}
use csci3757_operating_syste.Simulator.Invariant.Transit.{Runs, live_of_Runs, live-Runs}
use csci3757_operating_syste.Simulator.Control.{
  Wait, idle, memwait, runnable, allfree, freewait, wait_of, wait_at, tally, count_below,
  allblocked,
}

-- A count is zero exactly if no slot below the bound is counted.
count_below-none :
    (w : Wait) (n : ℕ) (s : Sim)
    → count_below w n s ≡ 0
    → (i : ℕ) → i < n
    → tally w (wait_at s i) ≡ 0
unfolding count_below
count_below-none w zero s h i l = absurd (omega arith)
count_below-none w (suc n) s h i l = elim (Bool-cases (i == n)) [
  | inl e ↦ let same : i ≡ n = ground arith in rw same (omega (arith, h))
  | inr e ↦ count_below-none w n s (omega (arith, h)) i (ground arith)
]

none-count_below :
    (w : Wait) (n : ℕ) (s : Sim)
    → ((i : ℕ) → i < n → tally w (wait_at s i) ≡ 0)
    → count_below w n s ≡ 0
unfolding count_below
none-count_below w zero s h = refl
none-count_below w (suc n) s h =
    omega (arith, h n (omega arith), none-count_below w n s (λ i l. h i (omega (arith, l))))

count_below-some :
    (w : Wait) (n : ℕ) (s : Sim)
    → 0 < count_below w n s
    → (i : ℕ) × (i < n) × (0 < tally w (wait_at s i))
unfolding count_below
count_below-some w zero s h = absurd (omega (arith, h))
count_below-some w (suc n) s h = elim (Bool-cases (tally w (wait_at s n) == 0)) [
  | inl e ↦ let (i, l, t) = count_below-some w n s (ground arith) in (i, omega (arith, l), t)
  | inr e ↦ (n, omega arith, ground arith)
]

tally-allfree : (x : Wait) → 0 < tally allfree x → x ≡ allfree
tally-allfree allfree h = refl
tally-allfree idle h = absurd (omega (arith, h))
tally-allfree memwait h = absurd (omega (arith, h))
tally-allfree runnable h = absurd (omega (arith, h))
tally-allfree freewait h = absurd (omega (arith, h))

tally-rest :
    (x : Wait)
    → tally memwait x ≡ 0
    → tally runnable x ≡ 0
    → tally freewait x ≡ 0
    → (x ≡ allfree) ⊎ (x ≡ idle)
tally-rest allfree m r f = inl refl
tally-rest idle m r f = inr refl
tally-rest memwait m r f = absurd (omega (arith, m))
tally-rest runnable m r f = absurd (omega (arith, r))
tally-rest freewait m r f = absurd (omega (arith, f))

-- Below -PAGEWAIT: the page is out of memory, and no longer on its way out.
abbrev pub IsOut : ℤ → Type 0
IsOut z = (n : ℕ) × (z ≡ negsuc n) × (page_wait ≤ n)

-- The process that runs at `i` needs a page at `z`.
pub record Needs (s : Sim) (i : ℕ) (z : ℤ) : Type 0 where
  pub k : ℕ
  pub q : Process
  pub runs : Runs s i k q
  pub needed : get_elem? q.pages (q.pc / page_size) ≡ some z

-- Some process that runs needs a page that is out, and so does every process that runs.
pub record Deadlocked (s : Sim) : Type 0 where
  pub one : ℕ
  pub at : ℤ
  pub one_needs : Needs s one at
  pub one_out : IsOut at
  pub each : (i : ℕ) (z : ℤ) → Needs s i z → IsOut z

Needs-wait : (s : Sim) (i : ℕ) (z : ℤ) → Needs s i z → wait_at s i ≡ wait_of (some z)
unfolding wait_at
Needs-wait s i z n = rw (live_of_Runs s i n.k n.q n.runs) (rw (n.needed) refl)

-- A slot waits for nothing, or its process needs a page.
idle_or_Needs : (s : Sim) (i : ℕ) → (wait_at s i ≡ idle) ⊎ ((z : ℤ) × Needs s i z)
unfolding wait_at
idle_or_Needs s i = elim (Option-cases (live s i)) [
  | inl e ↦ inl (rw e refl)
  | inr ((k, q), e) ↦ elim (Option-cases (get_elem? q.pages (q.pc / page_size))) [
    | inl f ↦ inl (rw e (rw f refl))
    | inr (z, f) ↦ inr (z, record { k = k; q = q; runs = live-Runs s i k q e; needed = f })
  ]
]

wait_of-IsOut : (z : ℤ) → wait_of (some z) ≡ allfree → IsOut z
wait_of-IsOut (pos zero) h = absurd (cc)
wait_of-IsOut (pos (suc n)) h = absurd (cc)
wait_of-IsOut (negsuc n) h = (n, refl, ground arith)

IsOut-wait_of : (z : ℤ) → IsOut z → wait_of (some z) ≡ allfree
IsOut-wait_of z (n, e, h) = rw e (ground (arith, h))

wait_of-not_idle : (z : ℤ) → wait_of (some z) ≢ idle
wait_of-not_idle (pos zero) h = cc
wait_of-not_idle (pos (suc n)) h = cc
wait_of-not_idle (negsuc n) h = ground (arith, h)

four_tests :
    (a m r f : ℕ)
    → (not (a == 0) && (m == 0) && (r == 0) && (f == 0)) ≡ true
    → (0 < a) × (m ≡ 0) × (r ≡ 0) × (f ≡ 0)
four_tests a m r f h = (ground arith, ground arith, ground arith, ground arith)

tests_four :
    (a m r f : ℕ)
    → 0 < a
    → m ≡ 0
    → r ≡ 0
    → f ≡ 0
    → (not (a == 0) && (m == 0) && (r == 0) && (f == 0)) ≡ true
tests_four a m r f pa pm pr pf = ground arith

-- A slot that is counted as free needs a page that is out.
allfree-Needs : (s : Sim) (i : ℕ) → wait_at s i ≡ allfree → (z : ℤ) × Needs s i z × IsOut z
allfree-Needs s i h = elim (idle_or_Needs s i) [
  | inl e ↦ absurd (cc (sym h ∙ e))
  | inr (z, n) ↦ (z, n, wait_of-IsOut z (sym (Needs-wait s i z n) ∙ h))
]

rest-IsOut :
    (s : Sim) (i : ℕ) (z : ℤ)
    → (wait_at s i ≡ allfree) ⊎ (wait_at s i ≡ idle)
    → Needs s i z
    → IsOut z
rest-IsOut s i z (inl h) n = wait_of-IsOut z (sym (Needs-wait s i z n) ∙ h)
rest-IsOut s i z (inr h) n = absurd (wait_of-not_idle z (sym (Needs-wait s i z n) ∙ h))

allblocked_sound : (s : Sim) → allblocked s ≡ true → Deadlocked s
unfolding allblocked
allblocked_sound s h =
    let (a, m, r, f) =
      four_tests (count_below allfree s.procs s) (count_below memwait s.procs s)
        (count_below runnable s.procs s) (count_below freewait s.procs s) h in
    let (i, l, t) = count_below-some allfree s.procs s a in
    let (z, n, out) = allfree-Needs s i (tally-allfree (wait_at s i) t) in
    record {
      one = i;
      at = z;
      one_needs = n;
      one_out = out;
      each = λ j x k.
          rest-IsOut s j x
            (tally-rest (wait_at s j) (count_below-none memwait s.procs s m j k.runs.below)
              (count_below-none runnable s.procs s r j k.runs.below)
              (count_below-none freewait s.procs s f j k.runs.below))
            k;
    }

Deadlocked-wait : (s : Sim) (i : ℕ) → Deadlocked s → (wait_at s i ≡ allfree) ⊎ (wait_at s i ≡ idle)
Deadlocked-wait s i d = elim (idle_or_Needs s i) [
  | inl e ↦ inr e
  | inr (z, n) ↦ inl (Needs-wait s i z n ∙ IsOut-wait_of z (d.each i z n))
]

-- Where each process that runs waits for a page swapped out, nothing else is counted.
nothing_else :
    (w : Wait) (s : Sim)
    → tally w allfree ≡ 0
    → tally w idle ≡ 0
    → Deadlocked s
    → count_below w s.procs s ≡ 0
nothing_else w s a n d =
    none-count_below w s.procs s
      (λ i l. elim (Deadlocked-wait s i d) [ inl e ↦ rw e a | inr e ↦ rw e n ])

count_below-one : (n i : ℕ) (s : Sim) → i < n → wait_at s i ≡ allfree → 0 < count_below allfree n s
count_below-one n i s l e = elim (Bool-cases (count_below allfree n s == 0)) [
  | inl z ↦
      let counted : tally allfree (wait_at s i) ≡ 0 =
        count_below-none allfree n s (ground arith) i l in
      let one : tally allfree (wait_at s i) ≡ 1 = rw e refl in absurd (omega (arith, counted, one))
  | inr z ↦ ground arith
]

allblocked_complete : (s : Sim) → Deadlocked s → allblocked s ≡ true
unfolding allblocked
allblocked_complete s d =
    tests_four (count_below allfree s.procs s) (count_below memwait s.procs s)
      (count_below runnable s.procs s) (count_below freewait s.procs s)
      (count_below-one s.procs d.one s d.one_needs.runs.below
        (Needs-wait s d.one d.at d.one_needs ∙ IsOut-wait_of d.at d.one_out))
      (nothing_else memwait s refl refl d) (nothing_else runnable s refl refl d)
      (nothing_else freewait s refl refl d)

-- `allblocked` answers 1 exactly if some running process needs a page that is out of memory and no
-- longer on its way out, and so does every running process whose needed page is in the page table.
pub allblocked_iff : (s : Sim) → (allblocked s ≡ true) ↔ Deadlocked s
allblocked_iff s = (allblocked_sound s, allblocked_complete s)

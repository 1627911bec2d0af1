-- ===== src/Simulator/Process/Step.antt =====
-- `process_step` does not fail on a well-formed process.
use native.Mathlib.Decide.{dec_lt}
use csci3757_operating_syste.Base.{
  ℕ, zero, suc, ◌+◌, ◌/◌, ◌≤◌, ◌<◌, ◌≡◌, refl, ◌∙◌, inl, inr, Bool, true, false, List, some, ℤ, pos,
  negsuc, Result, ok, arith, length, length-set, length-map, get_or, get_elem?-some, set, All,
  All-get, All-set, leb, if◌then◌else◌, ◌==◌, Bool-cases, get_elem?-get_or, subst, sym,
}
use csci3757_operating_syste.Simulator.Types.{
  page_size, max_branches, max_exits, Program, Bcontext, Process, max_proc_pages,
}
use csci3757_operating_syste.Simulator.Branching.Decide.{IsContext, bcontext_decide-IsContext}
use csci3757_operating_syste.Simulator.Search.{Hit, miss, before, hit, search_keys}
use csci3757_operating_syste.Simulator.Search.Spec.{IsHit, search_keys-IsHit}
use csci3757_operating_syste.Simulator.Process.{
  Outside, process_dobranch, find_exit, find_branch, move_on, execute, run_step, step_page,
  process_step,
}
use csci3757_operating_syste.Simulator.Process.WellFormed.{origins, IsProgram, IsProcess}

-- A step succeeds, and leaves the pages and `active` alone.
abbrev pub Steps : Outside → Process → Result (Bool × Process) → Type 0
Steps o q r =
    (go : Bool) × (q' : Process) × (r ≡ ok (go, q'))
    × IsProcess o q'
    × (q'.pages ≡ q.pages)
    × (q'.active ≡ q.active)

-- An index below `n`, or a miss.
abbrev InTable : ℕ → Hit → Type 0
InTable n (hit i) = i < n
InTable n miss = Unit
InTable n before = ⊥

InTable-mono : (keys : List ℕ) (m n key : ℕ) (h : Hit) → m ≤ n → IsHit keys m key h → InTable n h
InTable-mono keys m n key (hit i) l s = omega arith
InTable-mono keys m n key miss l s = tt
InTable-mono keys m n key before l s = s

search_none :
    (keys : List ℕ) (stray key : ℕ)
    → 0 < length keys
    → get_or keys 0 0 ≡ stray
    → (h : Hit) × (search_keys keys stray 0 key ≡ ok h) × InTable (length keys) h
unfolding search_keys
search_none keys stray key len e = elim (Bool-cases (key == get_or keys 0 0)) [
  | inl same ↦ (hit 0, rw (get_elem?-get_or keys 0 0 len) (rw same refl), len)
  | inr other ↦ (miss, rw (get_elem?-get_or keys 0 0 len, ← e) (rw other refl), tt)
]

module _ (o : Outside) (p : Program) (w : IsProgram o p) where
  origins-length : length (origins p) ≡ max_branches
  origins-length = length-map p.branches (λ b. b.wherefrom) ∙ w.branch_table

  find_branch-InTable : (pc : ℕ) → (h : Hit) × (find_branch o p pc ≡ ok h) × InTable max_branches h
  unfolding find_branch
  find_branch-InTable pc = elim (dec_lt 0 p.nbranches) [
    | yes some_branch ↦
        let (h, e, s) =
          search_keys-IsHit (origins p) o.wherefrom p.nbranches pc some_branch
            (omega (arith, w.few_branches, origins-length)) in
        (
          h,
          e,
          InTable-mono (origins p) p.nbranches max_branches pc h (omega (arith, w.few_branches)) s,
        )
    | no no_branch ↦
        let none : p.nbranches ≡ 0 = omega arith in
        let (h, e, s) =
          search_none (origins p) o.wherefrom pc (omega (arith, origins-length)) (w.guarded none) in
        (
          h,
          subst (λ n. search_keys (origins p) o.wherefrom n pc ≡ ok h) (sym none) e,
          subst (λ n. InTable n h) origins-length s,
        )
  ]

  find_exit-IsHit : (pc : ℕ) → (h : Hit) × (find_exit o p pc ≡ ok h) × IsHit p.exits p.nexits pc h
  unfolding find_exit
  find_exit-IsHit pc =
      search_keys-IsHit p.exits o.exit p.nexits pc w.some_exit
        (omega (arith, w.few_exits, w.exit_table))

module _ (o : Outside) (q : Process) (v : IsProcess o q) (p : Program) (e : q.program ≡ some p)
    (w : IsProgram o p) where
  -- A process that is a well-formed one but for these fields.
  moved :
      (cs : List Bcontext) (pc : ℕ)
      → length cs ≡ max_branches
      → All IsContext cs
      → pc ≤ p.size
      → IsProcess o (record q { bcontexts = cs; pc = pc })
  moved cs pc len good below = record {
    loaded = (p, e, w, below);
    context_table = len;
    contexts = good;
    all_pages = v.all_pages;
    page_table = v.page_table;
    blocked_table = v.blocked_table;
    statuses = v.statuses;
    released = v.released;
  }

  dobranch-IsProcess :
      (i : ℕ)
      → i < max_branches
      → (q' : Process) × (process_dobranch q p i ≡ ok q')
        × IsProcess o q'
        × (q'.pages ≡ q.pages)
        × (q'.active ≡ q.active)
  unfolding process_dobranch
  dobranch-IsProcess i h =
      let (b, eb) = get_elem?-some p.branches i (omega (arith, w.branch_table)) in
      let (c, ec) = get_elem?-some q.bcontexts i (omega (arith, v.context_table)) in
      let (c', ed, ic) =
        bcontext_decide-IsContext c (All-get IsContext q.bcontexts i c v.contexts ec) in
      let next = if c.bvalue then b.whereto else q.pc + 1 in
      let pc' = if leb p.size next then 0 else next in
      (
        record q { bcontexts = set q.bcontexts i c'; pc = pc' },
        rw (eb, ec) (rw ed refl),
        moved (set q.bcontexts i c') pc' (length-set q.bcontexts i c' ∙ v.context_table)
            (All-set IsContext q.bcontexts i c' v.contexts ic) (ground arith),
        refl,
        refl,
      )

  move_on-Steps : (h : Hit) → InTable max_branches h → Steps o q (move_on q p h)
  unfolding move_on
  move_on-Steps before s = absurd s
  move_on-Steps miss s =
      (true, _, refl, moved q.bcontexts _ v.context_table v.contexts (ground arith), refl, refl)
  move_on-Steps (hit i) s =
      let (q', e', v', same, act) = dobranch-IsProcess i s in (true, q', rw e' refl, v', same, act)

  execute-Steps : (h : Hit) → InTable max_exits h → Steps o q (execute o q p h)
  unfolding execute
  execute-Steps before s = absurd s
  execute-Steps (hit i) s = (false, q, refl, v, refl, refl)
  execute-Steps miss s =
      let (h, eh, t) = find_branch-InTable o p w q.pc in rw (few, eh) (move_on-Steps h t)
    where
      few : leb p.nbranches max_branches ≡ true
      few = ground (arith, w.few_branches)

  run_step-Steps : Steps o q (run_step o q)
  unfolding run_step
  run_step-Steps =
      let (h, eh, t) = find_exit-IsHit o p w q.pc in
      simp (e, few, eh)
        (execute-Steps h (InTable-mono p.exits p.nexits max_exits q.pc h w.few_exits t))
    where
      few : leb p.nexits max_exits ≡ true
      few = ground (arith, w.few_exits)

-- Another note that the page is blocked, and other counts, make no difference.
noted :
    (o : Outside) (q : Process) (bs : List Bool) (compute block : ℕ)
    → length bs ≡ max_proc_pages
    → IsProcess o q
    → IsProcess o (record q { blocked = bs; compute = compute; block = block })
noted o q bs compute block len v = record {
  loaded = v.loaded;
  context_table = v.context_table;
  contexts = v.contexts;
  all_pages = v.all_pages;
  page_table = v.page_table;
  blocked_table = len;
  statuses = v.statuses;
  released = v.released;
}

step_page-Steps :
    (o : Outside) (q : Process) (page : ℕ) (z : ℤ)
    → IsProcess o q
    → Steps o q (step_page o q page z)
unfolding step_page
step_page-Steps o q page (pos zero) v =
    let bs = set q.blocked page false in
    let q' = record q { blocked = bs; compute = q.compute + 1 } in
    let v' =
      noted o q bs (q.compute + 1) q.block (length-set q.blocked page false ∙ v.blocked_table) v in
    let (p, e, w, below) = v.loaded in run_step-Steps o q' v' p e w
step_page-Steps o q page (pos (suc n)) v = (
  true,
  _,
  refl,
  noted o q (set q.blocked page true) q.compute (q.block + 1)
      (length-set q.blocked page true ∙ v.blocked_table) v,
  refl,
  refl,
)
step_page-Steps o q page (negsuc n) v = (
  true,
  _,
  refl,
  noted o q (set q.blocked page true) q.compute (q.block + 1)
      (length-set q.blocked page true ∙ v.blocked_table) v,
  refl,
  refl,
)

Steps-if :
    (o : Outside) (q : Process) (b : Bool) (r : Result (Bool × Process))
    → IsProcess o q
    → Steps o q r
    → Steps o q (if b then r else ok (false, q))
Steps-if o q true r v s = s
Steps-if o q false r v s = (false, q, refl, v, refl, refl)

-- A step of a well-formed process always succeeds, with the read of branches[-1] in a program without
-- branches taken to succeed. The process stays well formed, and the step changes neither the states of
-- its pages nor `active`.
pub process_step-Steps : (o : Outside) (q : Process) → IsProcess o q → Steps o q (process_step o q)
unfolding process_step
process_step-Steps o q v =
    let (p, e, w, below) = v.loaded in
    let (z, ez) =
      get_elem?-some q.pages (q.pc / page_size) (omega (arith, v.page_table, w.short, below)) in
    Steps-if o q q.active _ v (rw ez (step_page-Steps o q (q.pc / page_size) z v))

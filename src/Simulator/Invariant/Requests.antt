-- ===== src/Simulator/Invariant/Requests.antt =====
-- `pagein` and `pageout` keep the invariant, whatever is asked for.
use csci3757_operating_syste.Base.{
  ℕ, zero, suc, ◌+◌, ◌-◌, ◌≡◌, refl, ◌∙◌, inl, inr, true, false, Option, none, some, ℤ, pos, negsuc,
  arith, length-set, get_elem?, All-get, All-set, total-set, leb, Bool-cases, Option-cases, ltb,
  ◌==◌,
}
use csci3757_operating_syste.Simulator.Types.{going, coming, page_wait, Process, Sim}
use csci3757_operating_syste.Simulator.Process.{Outside, frame}
use csci3757_operating_syste.Simulator.Process.WellFormed.{IsStatus, held, IsProcess}
use csci3757_operating_syste.Simulator.Paging.{
  live, put_page, out_request, out_of, pageout, in_request, in_of, pagein,
}
use csci3757_operating_syste.Simulator.Invariant.{Inv, live-some, put-Inv}

module _ (o : Outside) (q : Process) (j : ℕ) (z z' : ℤ) (e : get_elem? q.pages j ≡ some z) where
  -- The state of one page of an active process changes.
  put_page-IsProcess : IsProcess o q → q.active ≡ true → IsStatus z' → IsProcess o (put_page q j z')
  put_page-IsProcess v on st = record {
    loaded = v.loaded;
    context_table = v.context_table;
    contexts = v.contexts;
    all_pages = v.all_pages;
    page_table = length-set q.pages j z' ∙ v.page_table;
    blocked_table = v.blocked_table;
    statuses = All-set IsStatus q.pages j z' v.statuses st;
    released = λ off. cc;
  }

  held-put_page : held (put_page q j z') + frame z ≡ held q + frame z'
  held-put_page = total-set frame q.pages j z z' e

module _ (o : Outside) (s : Sim) (v : Inv o s) (k : ℕ) (q : Process)
    (at : get_elem? s.queue k ≡ some q) (on : q.active ≡ true) where
  job : IsProcess o q
  job = All-get (IsProcess o) s.queue k q v.jobs at

  out_request-Inv :
      (j : ℕ) (z : Option ℤ) → get_elem? q.pages j ≡ z → Inv o (out_request s k q j z).1
  out_request-Inv j none e = v
  out_request-Inv j (some (negsuc n)) e = v
  out_request-Inv j (some (pos (suc n))) e = v
  out_request-Inv j (some (pos zero)) e =
      put-Inv o s k s.pagesavail q (put_page q j going) v at
        (put_page-IsProcess o q j (pos 0) going e job on (omega arith))
        (omega (arith, held-put_page o q j (pos 0) going e))

  in_request-Inv : (j : ℕ) (z : Option ℤ) → get_elem? q.pages j ≡ z → Inv o (in_request s k q j z).1
  in_request-Inv j none e = v
  in_request-Inv j (some (pos n)) e = v
  in_request-Inv j (some (negsuc n)) e = elim (Bool-cases (s.pagesavail == 0)) [
    | inl full ↦ rw full v
    | inr free ↦ elim (Bool-cases (ltb n page_wait)) [
      | inl leaving ↦ rw (free, leaving) v
      | inr out ↦
          let new : frame (negsuc n) ≡ 0 = rw out refl in
          rw (free, out)
            (put-Inv o s k (s.pagesavail - 1) q (put_page q j coming) v at
              (put_page-IsProcess o q j (negsuc n) coming e job on (omega arith))
              (ground (arith, held-put_page o q j (negsuc n) coming e)))
    ]
  ]

  out_of-Inv : (j : ℕ) → Inv o (out_of s j (some (k, q))).1
  out_of-Inv j = elim (Bool-cases (leb q.npages j)) [
    | inl outside ↦ rw outside v
    | inr inside ↦ rw inside (out_request-Inv j (get_elem? q.pages j) refl)
  ]

  in_of-Inv : (j : ℕ) → Inv o (in_of s j (some (k, q))).1
  in_of-Inv j = elim (Bool-cases (leb q.npages j)) [
    | inl outside ↦ rw outside v
    | inr inside ↦ rw inside (in_request-Inv j (get_elem? q.pages j) refl)
  ]

-- A request for a page out keeps the invariant: no physical page is lost or made up.
pub pageout-Inv :
    (o : Outside) (process page : ℤ) (s : Sim) → Inv o s → Inv o (pageout process page s).1
unfolding pageout
pageout-Inv o (pos i) (pos j) s v = elim (Option-cases (live s i)) [
  | inl e ↦ rw e v
  | inr ((k, q), e) ↦
      let (at, on, below) = live-some s i k q e in rw e (out_of-Inv o s v k q at on j)
]
pageout-Inv o (pos i) (negsuc j) s v = v
pageout-Inv o (negsuc i) page s v = v

-- So does a request for a page in, which takes one free page if it starts.
pub pagein-Inv :
    (o : Outside) (process page : ℤ) (s : Sim) → Inv o s → Inv o (pagein process page s).1
unfolding pagein
pagein-Inv o (pos i) (pos j) s v = elim (Option-cases (live s i)) [
  | inl e ↦ rw e v
  | inr ((k, q), e) ↦
      let (at, on, below) = live-some s i k q e in rw e (in_of-Inv o s v k q at on j)
]
pagein-Inv o (pos i) (negsuc j) s v = v
pagein-Inv o (negsuc i) page s v = v

in_request-false :
    (s : Sim) (k : ℕ) (q : Process) (j : ℕ) (z : Option ℤ)
    → (in_request s k q j z).0 ≡ false
    → (in_request s k q j z).1 ≡ s
in_request-false s k q j none e = refl
in_request-false s k q j (some (pos n)) e = cc
in_request-false s k q j (some (negsuc n)) e = ground arith

in_of-false :
    (s : Sim) (j : ℕ) (x : Option (ℕ × Process)) → (in_of s j x).0 ≡ false → (in_of s j x).1 ≡ s
in_of-false s j none e = refl
in_of-false s j (some (k, q)) e = ground (arith, in_request-false s k q j (get_elem? q.pages j))

-- A pagein that answers FALSE has changed nothing.
pub pagein-false :
    (process page : ℤ) (s : Sim) → (pagein process page s).0 ≡ false → (pagein process page s).1 ≡ s
unfolding pagein
pagein-false (pos i) (pos j) s e = in_of-false s j (live s i) e
pagein-false (pos i) (negsuc j) s e = refl
pagein-false (negsuc i) page s e = refl

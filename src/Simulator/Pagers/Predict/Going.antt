-- ===== src/Simulator/Pagers/Predict/Going.antt =====
-- A process whose pages are being sent out while no physical page is free.
use csci3757_operating_syste.Base.{
  ℕ, zero, suc, ◌<◌, ◌≡◌, refl, sym, ◌∙◌, ◌≢◌, ◌⊎◌, inl, inr, false, Option, none, some, ℤ, pos,
  negsuc, arith, subst, get_elem?, set, get_elem?-set_self, get_elem?-set_ne, get_elem?-lt, leb,
  ◌==◌, Bool-cases, List,
}
use csci3757_operating_syste.Simulator.Types.{max_proc_pages, going, Process, Sim}
use csci3757_operating_syste.Simulator.Paging.{
  live, put, put_page, pageout, pagein, out_request, in_request, in_of,
}
use csci3757_operating_syste.Simulator.Pointers.{ne_of_test}
use csci3757_operating_syste.Simulator.Invariant.Transit.{Runs, live_of_Runs}

in_request-full :
    (s : Sim) (k : ℕ) (q : Process) (j : ℕ) (z : Option ℤ)
    → s.pagesavail ≡ 0
    → (in_request s k q j z).1 ≡ s
in_request-full s k q j none e = refl
in_request-full s k q j (some (pos n)) e = refl
in_request-full s k q j (some (negsuc n)) e = ground (arith, e)

in_of-full : (s : Sim) (j : ℕ) (x : Option (ℕ × Process)) → s.pagesavail ≡ 0 → (in_of s j x).1 ≡ s
in_of-full s j none e = refl
in_of-full s j (some (k, q)) e = ground (arith, in_request-full s k q j (get_elem? q.pages j) e)

-- Where no physical page is free, pagein changes nothing.
pub pagein-full : (i j : ℤ) (s : Sim) → s.pagesavail ≡ 0 → (pagein i j s).1 ≡ s
unfolding pagein
pagein-full (pos i) (pos j) s e = in_of-full s j (live s i) e
pagein-full (pos i) (negsuc j) s e = refl
pagein-full (negsuc i) j s e = refl

-- The process at `proc` has no page of `Done` in memory, and `page` is out.
pub record Going (proc k page n : ℕ) (Done : ℕ → Type 0) (s : Sim) : Type 0 where
  pub q : Process
  pub runs : Runs s proc k q
  pub all_pages : q.npages ≡ max_proc_pages
  pub full : s.pagesavail ≡ 0
  pub gone : (j : ℕ) → Done j → get_elem? q.pages j ≢ some (pos 0)
  pub needed : get_elem? q.pages page ≡ some (negsuc n)

module _ (proc k page n : ℕ) (Done Done' : ℕ → Type 0) (j : ℕ)
    (next : (i : ℕ) → Done' i → Done i ⊎ (i ≡ j)) where
  -- A page that is not in memory stays as it is.
  stays :
      (s : Sim) (g : Going proc k page n Done s)
      → get_elem? (g.q).pages j ≢ some (pos 0)
      → Going proc k page n Done' s
  stays s g away = record {
    q = g.q;
    runs = g.runs;
    all_pages = g.all_pages;
    full = g.full;
    gone = λ i d. elim (next i d) [ inl old ↦ g.gone i old | inr same ↦ rw same away ];
    needed = g.needed;
  }

  set-going-gone :
      (zs : List ℤ) (i : ℕ)
      → get_elem? zs j ≡ some (pos 0)
      → ((Done i → get_elem? zs i ≢ some (pos 0)))
      → Done' i
      → get_elem? (set zs j going) i ≢ some (pos 0)
  set-going-gone zs i e old d = elim (Bool-cases (j == i)) [
    | inl t ↦
        let same : j ≡ i = ground arith in
        let here = get_elem?-set_self zs j going (get_elem?-lt zs j (pos 0) e) in
        λ f.
          (let f' : get_elem? (set zs j going) j ≡ some (pos 0) =
              subst (λ x. get_elem? (set zs j going) x ≡ some (pos 0)) (sym same) f in
            cc)
    | inr n ↦
        let apart = ne_of_test j i n in
        let other = get_elem?-set_ne zs j i going apart in
        elim (next i d) [
          | inl before ↦ λ f. old before (sym other ∙ f)
          | inr same ↦ absurd (apart (sym same))
        ]
  ]

  leaves :
      (s : Sim) (g : Going proc k page n Done s)
      → get_elem? (g.q).pages j ≡ some (pos 0)
      → Going proc k page n Done' (put s k (put_page g.q j going))
  leaves s g e =
      let r = g.runs in
      let apart : j ≢ page = λ same.
        (let f : get_elem? (g.q).pages page ≡ some (pos 0) =
            subst (λ x. get_elem? (g.q).pages x ≡ some (pos 0)) same e in
          let f' = g.needed in cc) in
      record {
        q = put_page g.q j going;
        runs = record {
          below = r.below;
          pointer = r.pointer;
          job =
              get_elem?-set_self s.queue k (put_page g.q j going)
                (get_elem?-lt s.queue k g.q r.job);
          on = r.on;
        };
        all_pages = g.all_pages;
        full = g.full;
        gone = λ i d. set-going-gone (g.q).pages i e (g.gone i) d;
        needed = get_elem?-set_ne (g.q).pages j page going apart ∙ g.needed;
      }

  out_request-Going :
      (s : Sim) (g : Going proc k page n Done s) (z : Option ℤ)
      → get_elem? (g.q).pages j ≡ z
      → Going proc k page n Done' (out_request s k g.q j z).1
  out_request-Going s g none e = stays s g (λ f. cc)
  out_request-Going s g (some (negsuc x)) e = stays s g (λ f. cc)
  out_request-Going s g (some (pos (suc x))) e = stays s g (λ f. cc)
  out_request-Going s g (some (pos zero)) e = leaves s g e

  pub pageout-Going :
      (s : Sim)
      → j < max_proc_pages
      → Going proc k page n Done s
      → Going proc k page n Done' (pageout (pos proc) (pos j) s).1
  unfolding pageout
  pageout-Going s h g =
      let inside : leb (g.q).npages j ≡ false = ground (arith, g.all_pages, h) in
      rw (live_of_Runs s proc k g.q g.runs)
        (rw inside (out_request-Going s g (get_elem? (g.q).pages j) refl))

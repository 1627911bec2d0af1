-- ===== src/Simulator/Pagers/Entries.antt =====
-- What the entries that a pager is shown satisfy under the invariant.
use csci3757_operating_syste.Base.{
  ℕ, zero, suc, ◌+◌, ◌/◌, ◌<◌, ◌≡◌, refl, ap, List, [], ◌∷◌, Option, none, some, ℤ, arith, length,
  All, All-get,
}
use csci3757_operating_syste.Simulator.Types.{max_proc_pages, page_size, Process, Pentry, Sim}
use csci3757_operating_syste.Simulator.Process.{Outside}
use csci3757_operating_syste.Simulator.Process.WellFormed.{IsProcess}
use csci3757_operating_syste.Simulator.Paging.{deref}
use csci3757_operating_syste.Simulator.Control.{shown_pages, entry, entries}
use csci3757_operating_syste.Simulator.Invariant.{Inv, deref-some}

-- The page of the program counter is one of the pages shown.
pub record IsEntry (e : Pentry) : Type 0 where
  pub whole : length e.pages ≡ max_proc_pages
  pub inside : e.pc / page_size < max_proc_pages

length-shown_pages : (n m : ℕ) (zs : List ℤ) → length (shown_pages n m zs) ≡ m
unfolding shown_pages
length-shown_pages n zero zs = refl
length-shown_pages zero (suc m) zs = ap suc (length-shown_pages zero m zs)
length-shown_pages (suc n) (suc m) [] = ap suc (length-shown_pages n m [])
length-shown_pages (suc n) (suc m) (z ∷ zs) = ap suc (length-shown_pages n m zs)

entry-IsEntry :
    (o : Outside) (x : Option (ℕ × Process))
    → ((k : ℕ) (q : Process) → x ≡ some (k, q) → IsProcess o q)
    → IsEntry (entry x)
entry-IsEntry o none h = record { whole = refl; inside = omega arith }
entry-IsEntry o (some (k, q)) h =
    let v = h k q refl in
    let (p, e, w, below) = v.loaded in
    record {
      whole = length-shown_pages q.npages max_proc_pages q.pages;
      inside = omega (arith, w.short, below);
    }

pub entries-IsEntry : (o : Outside) (n i : ℕ) (s : Sim) → Inv o s → All IsEntry (entries n i s)
unfolding entries
entries-IsEntry o zero i s v = tt
entries-IsEntry o (suc n) i s v = (
  entry-IsEntry o (deref s i)
      (λ k q e. All-get (IsProcess o) s.queue k q v.jobs (deref-some s i k q e)),
  entries-IsEntry o n (i + 1) s v,
)

pub length-entries : (n i : ℕ) (s : Sim) → length (entries n i s) ≡ n
unfolding entries
length-entries zero i s = refl
length-entries (suc n) i s = ap suc (length-entries n (i + 1) s)

-- ===== src/Lookup/Ending/Complete.antt =====
-- A run in which all threads have ended has resolved every line of every file.
use csci3757_operating_syste.Base.{
  ℕ, zero, suc, ◌<◌, ◌≤◌, ◌≡◌, refl, sym, ◌∙◌, inl, inr, Bool, true, false, none, some, List, [],
  ◌∷◌, ℤ, pos, negsuc, ok, ltb, ◌==◌, ◌||◌, if◌then◌else◌, length, replicate, total, total_first,
  All, arith, Bool-cases, subst,
}
use csci3757_operating_syste.Lookup.{
  Name, File, World, searching, stopped, entering, ended, Lookup, array_size, Turn, turns,
  is_valid_file, valid_files, launched, start_threads, max_requester_threads, max_resolver_threads,
}
use csci3757_operating_syste.Lookup.Invariant.{
  lines_weight, file_weight, requester_weight, resolver_weight, result_weight, weight,
}
use csci3757_operating_syste.Lookup.Runs.{launched-Inv, past_the_checks, total-replicate}
use csci3757_operating_syste.Lookup.Ending.{
  Ordered, is_stopped, is_ended, at_empty, one, unserviced,
}
use csci3757_operating_syste.Lookup.Ending.Turns.{turns-Ordered, turns-same_names}

total-all {ℓ} :
    {A : Type ℓ} (f : A → ℕ) (a : A) (xs : List A) → f a ≡ 0 → All (λ x. x ≡ a) xs → total f xs ≡ 0
unfolding total
total-all f a [] z h = refl
total-all f a (x ∷ xs) z (e, h) = rw e (omega (arith, z, total-all f a xs z h))

pub total-one_replicate {ℓ} : {A : Type ℓ} (n : ℕ) (a : A) → total one (replicate n a) ≡ n
unfolding total
total-one_replicate zero a = refl
total-one_replicate (suc n) a = omega (arith, total-one_replicate n a)

-- All of the files are serviced: no line is left in them.
pub file_weight-zero :
    (w : Name → ℕ) (v : World) (fs : List File)
    → total unserviced fs ≡ 0
    → total (file_weight w v) fs ≡ 0
unfolding total
file_weight-zero w v [] h = refl
file_weight-zero w v (f ∷ fs) h = elim (Bool-cases f.serviced) [
  | inl e ↦
      let rest = file_weight-zero w v fs (omega (arith, simp e at h)) in
      simp e (omega (arith, rest))
  | inr e ↦ absurd (omega (arith, simp e at h))
]

pub launched-Ordered :
    (readable : Name → Bool) (fresh : List Name) (m n : ℕ) (names : List Name)
    → 0 < m
    → 0 < n
    → Ordered (launched readable fresh m n names)
launched-Ordered readable fresh m n names g h = omega (
  arith,
  total-replicate is_stopped m (searching 0) refl,
  total-one_replicate m (searching 0),
  total-one_replicate n entering,
  total-replicate at_empty n entering refl,
  total-replicate is_ended n entering refl,
)

-- The lines of a file that nobody has begun to read.
pub valid_files-unread :
    (w : Name → ℕ) (v : World) (readable : Name → Bool) (names : List Name)
    → total (file_weight w v) (valid_files readable names)
      ≡ total (λ f. lines_weight w (v.fopen f.filename)) (valid_files readable names)
unfolding total
valid_files-unread w v readable [] = refl
valid_files-unread w v readable (name ∷ names) = elim (Bool-cases (is_valid_file readable name)) [
  | inl e ↦ rw e (omega (arith, valid_files-unread w v readable names))
  | inr e ↦ rw e (valid_files-unread w v readable names)
]

pub launched-weight :
    (w : Name → ℕ) (v : World) (readable : Name → Bool) (fresh : List Name) (m n : ℕ)
    (names : List Name)
    → weight w v (launched readable fresh m n names)
      ≡ total (λ f. lines_weight w (v.fopen f.filename)) (valid_files readable names)
unfolding weight total_first total
launched-weight w v readable fresh m n names = omega (
  arith,
  valid_files-unread w v readable names,
  total-replicate (requester_weight w) m (searching 0) refl,
  total-replicate (resolver_weight w) n entering refl,
)

-- All threads have ended.
pub record Finished (s : Lookup) : Type 0 where
  pub requesters_stopped : All (λ r. r ≡ stopped) s.requesters
  pub resolvers_ended : All (λ r. r ≡ ended) s.resolvers

total-every {ℓ} :
    {A : Type ℓ} (f : A → ℕ) (a : A) (xs : List A)
    → f a ≡ 1
    → All (λ x. x ≡ a) xs
    → total f xs ≡ total one xs
unfolding total
total-every f a [] z h = refl
total-every f a (x ∷ xs) z (e, h) = rw e (omega (arith, z, total-every f a xs z h))

pub total_first-zero : (w : Name → ℕ) (p : ℕ) (xs : List Name) → p ≡ 0 → total_first w p xs ≡ 0
unfolding total_first
total_first-zero w p xs e = rw e refl

-- With all threads at their end, nothing is left but the results.
Finished-weight :
    (w : Name → ℕ) (v : World) (s : Lookup)
    → Ordered s
    → Finished s
    → weight w v s ≡ total (result_weight w) s.results_log
unfolding weight
Finished-weight w v s o f =
    let ends = total-every is_ended ended s.resolvers refl f.resolvers_ended in
    let stops = total-every is_stopped stopped s.requesters refl f.requesters_stopped in
    let empty : s.current_position ≡ 0 = omega (arith, o.manned, o.over, ends) in
    let serviced : total unserviced s.files ≡ 0 =
      omega (arith, o.crew, o.nothing_left, stops, o.led) in
    omega (
      arith,
      file_weight-zero w v s.files serviced,
      total-all (requester_weight w) stopped s.requesters refl f.requesters_stopped,
      total_first-zero w s.current_position s.buffer empty,
      total-all (resolver_weight w) ended s.resolvers refl f.resolvers_ended,
    )

-- The checks of `main` let through only 1 to 5 requesters and 1 to 10 resolvers.
in_bounds :
    (b : Bool) (m n : ℕ) (x s : Lookup)
    → (if b || (ltb m 1 || ltb n 1)
        then none
        else if ltb max_requester_threads m || ltb max_resolver_threads n
        then none
        else some x)
      ≡ some s
    → (0 < m) × (0 < n) × (m ≤ 5) × (n ≤ 10)
in_bounds true m n x s h = absurd (ground arith)
in_bounds false m n x s h = (ground arith, ground arith, ground arith, ground arith)

pub started :
    (readable : Name → Bool) (fresh : List Name) (m n : ℤ) (names : List Name) (s : Lookup)
    → start_threads readable fresh m n names ≡ some s
    → (p q : ℕ) × (0 < p) × (0 < q) × (p ≤ 5) × (q ≤ 10) × (launched readable fresh p q names ≡ s)
unfolding start_threads
started readable fresh (negsuc m) n names s h = absurd (ground arith)
started readable fresh (pos m) (negsuc n) names s h = absurd (ground arith)
started readable fresh (pos m) (pos n) names s h =
    let few = ltb max_requester_threads m || ltb max_resolver_threads n in
    let start = launched readable fresh m n names in
    let (p, q, p_few, q_few) = in_bounds (length names == 0) m n start s h in
    let same = past_the_checks ((length names == 0) || (ltb m 1 || ltb n 1)) few start s h in
    (m, n, p, q, p_few, q_few, same)

-- In a run, from the start of `main`, in which every thread comes to its end, the results hold each
-- name exactly as often as the lines of the valid files do, however the threads were interleaved.
pub Finished-Resolved :
    (v : World) (readable : Name → Bool) (fresh : List Name) (m n : ℤ) (names : List Name)
    (s s' : Lookup) (ts : List Turn)
    → length fresh ≡ array_size
    → start_threads readable fresh m n names ≡ some s
    → turns v ts s ≡ ok s'
    → Finished s'
    → (w : Name → ℕ)
    → total (result_weight w) s'.results_log
      ≡ total (λ f. lines_weight w (v.fopen f.filename)) (valid_files readable names)
Finished-Resolved v readable fresh m n names s s' ts l h run f w =
    let (p, q, few, many, p_few, q_few, same) = started readable fresh m n names s h in
    let start = launched readable fresh p q names in
    let inv = launched-Inv readable fresh p q names l in
    let from_start : turns v ts start ≡ ok s' = subst (λ x. turns v ts x ≡ ok s') (sym same) run in
    let o =
      turns-Ordered v ts start s' inv (launched-Ordered readable fresh p q names few many)
        from_start in
    sym (Finished-weight w v s' o f)
    ∙ turns-same_names v ts start s' inv from_start w
    ∙ launched-weight w v readable fresh p q names

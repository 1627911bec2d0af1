-- ===== src/Lookup/Progress/Logged.antt =====
-- The log of the requesters where a run comes to rest.
use csci3757_operating_syste.Base.{
  ℕ, ◌≡◌, refl, sym, Bool, inl, inr, List, [], ◌∷◌, ℤ, some, ok, length, total, arith, Bool-cases,
  subst,
}
use csci3757_operating_syste.Lookup.{
  Name, World, Lookup, array_size, searching, stopped, Turn, turns, is_valid_file, valid_files,
  launched, start_threads,
}
use csci3757_operating_syste.Lookup.Runs.{total-replicate}
use csci3757_operating_syste.Lookup.Ending.{one, unserviced}
use csci3757_operating_syste.Lookup.Ending.Complete.{started}
use csci3757_operating_syste.Lookup.Progress.Rest.{AtRest, total-none}
use csci3757_operating_syste.Lookup.Progress.Resolved.{launched-Rested}
use csci3757_operating_syste.Lookup.Progress.Services.{service_count, Serviced, turns-Serviced}

total-one_length {ℓ} : {A : Type ℓ} (xs : List A) → total one xs ≡ length xs
unfolding total
total-one_length [] = refl
total-one_length (x ∷ xs) = omega (arith, total-one_length xs)

valid_files-unserviced :
    (readable : Name → Bool) (names : List Name)
    → total unserviced (valid_files readable names) ≡ length (valid_files readable names)
unfolding total
valid_files-unserviced readable [] = refl
valid_files-unserviced readable (name ∷ names) = elim (Bool-cases (is_valid_file readable name)) [
  | inl e ↦ rw e (omega (arith, valid_files-unserviced readable names))
  | inr e ↦ rw e (valid_files-unserviced readable names)
]

launched-Serviced :
    (readable : Name → Bool) (fresh : List Name) (m n : ℕ) (names : List Name)
    → Serviced (length (valid_files readable names)) (launched readable fresh m n names)
unfolding total
launched-Serviced readable fresh m n names = record {
  counted = omega (
    arith,
    total-replicate service_count m (searching 0) refl,
    valid_files-unserviced readable names,
  );
  lines = refl;
}

-- Where a run from the start of `main` comes to rest, the log of the requesters has a line for each of
-- them, and the numbers of files in it add up to the number of valid files.
pub AtRest-Logged :
    (v : World) (readable : Name → Bool) (fresh : List Name) (m n : ℤ) (names : List Name)
    (s s' : Lookup) (ts : List Turn)
    → length fresh ≡ array_size
    → start_threads readable fresh m n names ≡ some s
    → turns v ts s ≡ ok s'
    → AtRest v s'
    → (length s'.service_log ≡ length s'.requesters)
      × (total (λ k. k) s'.service_log ≡ length (valid_files readable names))
AtRest-Logged v readable fresh m n names s s' ts l h run still =
    let (p, q, few, many, p_few, q_few, same) = started readable fresh m n names s h in
    let start = launched readable fresh p q names in
    let from_start : turns v ts start ≡ ok s' = subst (λ x. turns v ts x ≡ ok s') (sym same) run in
    let r = launched-Rested v readable fresh p q names s' ts l few many from_start still in
    let files = length (valid_files readable names) in
    let logged =
      turns-Serviced v files ts start s' (launched-Serviced readable fresh p q names) from_start in
    let o = r.ordered in
    let log = total-one_length s'.service_log in
    let left =
      total-none (λ r. r ≡ stopped) service_count (λ r e. rw e refl) s'.requesters
        r.asleep.all_stopped in
    (
      omega (arith, log, total-one_length s'.requesters, logged.lines, o.counted, r.stops),
      omega (arith, logged.counted, left, r.stops, o.nothing_left, o.crew, o.led),
    )

-- ===== src/Lookup/Progress/Resolved.antt =====
-- The results where a run comes to rest.
use csci3757_operating_syste.Base.{
  ℕ, ◌≡◌, refl, sym, ◌∙◌, ◌⊎◌, inl, inr, Bool, some, List, ℤ, ok, length, total, arith, subst, ◌<◌,
}
use csci3757_operating_syste.Lookup.{
  Name, World, Requester, stopped, Resolver, empty_wait, ended, Lookup, array_size, Turn, turns,
  valid_files, launched, start_threads,
}
use csci3757_operating_syste.Lookup.Invariant.{
  lines_weight, requester_weight, resolver_weight, result_weight, weight,
}
use csci3757_operating_syste.Lookup.Runs.{launched-Inv}
use csci3757_operating_syste.Lookup.Ending.{Ordered, one, is_stopped, unserviced}
use csci3757_operating_syste.Lookup.Ending.Turns.{turns-Ordered, turns-Inv, turns-same_names}
use csci3757_operating_syste.Lookup.Ending.Complete.{
  started, launched-Ordered, launched-weight, file_weight-zero, total_first-zero,
}
use csci3757_operating_syste.Lookup.Ending.Asleep.{Asleep}
use csci3757_operating_syste.Lookup.Progress.Alert.Turns.{turns-Alert, launched-Alert}
use csci3757_operating_syste.Lookup.Progress.Rest.{
  AtRest, total-none, none_waits, still-Asleep, requester-Still, resolver-Still,
}

resolver_weight-resting :
    (w : Name → ℕ) (r : Resolver) → (r ≡ ended) ⊎ (r ≡ empty_wait) → resolver_weight w r ≡ 0
resolver_weight-resting w r (inl e) = rw e refl
resolver_weight-resting w r (inr e) = rw e refl

requester_weight-stopped : (w : Name → ℕ) (r : Requester) → r ≡ stopped → requester_weight w r ≡ 0
requester_weight-stopped w r e = rw e refl

-- With all threads at rest, nothing is left but the results.
Asleep-weight :
    (w : Name → ℕ) (v : World) (s : Lookup)
    → Ordered s
    → Asleep s
    → total is_stopped s.requesters ≡ total one s.requesters
    → s.current_position ≡ 0
    → weight w v s ≡ total (result_weight w) s.results_log
unfolding weight
Asleep-weight w v s o a stops empty =
    let serviced : total unserviced s.files ≡ 0 =
      omega (arith, o.crew, o.nothing_left, stops, o.led) in
    omega (
      arith,
      file_weight-zero w v s.files serviced,
      total_first-zero w s.current_position s.buffer empty,
      total-none (λ r. r ≡ stopped) (requester_weight w) (requester_weight-stopped w) s.requesters
          a.all_stopped,
      total-none (λ r. (r ≡ ended) ⊎ (r ≡ empty_wait)) (resolver_weight w)
          (resolver_weight-resting w) s.resolvers a.all_rest,
    )

-- A state at rest at the end of a run from the start.
pub record Rested (s : Lookup) : Type 0 where
  pub ordered : Ordered s
  pub asleep : Asleep s
  pub stops : total is_stopped s.requesters ≡ total one s.requesters
  pub empty : s.current_position ≡ 0

pub launched-Rested :
    (v : World) (readable : Name → Bool) (fresh : List Name) (p q : ℕ) (names : List Name)
    (s : Lookup) (ts : List Turn)
    → length fresh ≡ array_size
    → 0 < p
    → 0 < q
    → turns v ts (launched readable fresh p q names) ≡ ok s
    → AtRest v s
    → Rested s
launched-Rested v readable fresh p q names s ts l few many run still =
    let start = launched readable fresh p q names in
    let inv = launched-Inv readable fresh p q names l in
    let o = launched-Ordered readable fresh p q names few many in
    let inv' = turns-Inv v ts start s inv run in
    let a = turns-Alert v ts start s inv o (launched-Alert readable fresh p q names) run in
    let rq = requester-Still v s still in
    let rs = resolver-Still v s still in
    let (all_stop, no_more) = none_waits s rq rs inv' a in
    record {
      ordered = turns-Ordered v ts start s inv o run;
      asleep = still-Asleep s rq rs inv' a;
      stops = all_stop;
      empty = no_more;
    }

-- Where a run from the start of `main` comes to rest, so that no thread can go on, all requesters have
-- stopped, each resolver has ended or waits, and the results hold each name exactly as often as the
-- lines of the valid files do: there is no deadlock before all names are resolved.
pub AtRest-Resolved :
    (v : World) (readable : Name → Bool) (fresh : List Name) (m n : ℤ) (names : List Name)
    (s s' : Lookup) (ts : List Turn) (w : Name → ℕ)
    → length fresh ≡ array_size
    → start_threads readable fresh m n names ≡ some s
    → turns v ts s ≡ ok s'
    → AtRest v s'
    → Asleep s'
      × (total (result_weight w) s'.results_log
          ≡ total (λ f. lines_weight w (v.fopen f.filename)) (valid_files readable names))
AtRest-Resolved v readable fresh m n names s s' ts w l h run still =
    let (p, q, few, many, p_few, q_few, same) = started readable fresh m n names s h in
    let start = launched readable fresh p q names in
    let from_start : turns v ts start ≡ ok s' = subst (λ x. turns v ts x ≡ ok s') (sym same) run in
    let r = launched-Rested v readable fresh p q names s' ts l few many from_start still in
    (
      r.asleep,
      sym (Asleep-weight w v s' r.ordered r.asleep r.stops r.empty)
          ∙ turns-same_names v ts start s' (launched-Inv readable fresh p q names l) from_start w
          ∙ launched-weight w v readable fresh p q names,
    )

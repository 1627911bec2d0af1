-- ===== src/Lookup/Progress/Terminates.antt =====
-- A run without wake-ups for no reason comes to rest.
use csci3757_operating_syste.Base.{
  ℕ, zero, suc, ◌+◌, ◌*◌, ◌≤◌, ◌<◌, ◌≡◌, ◌≢◌, refl, sym, ◌∙◌, ◌⊎◌, inl, inr, Bool, List, [], ◌∷◌,
  some, ok, err, length, get_elem?, total, replicate, arith, Option-cases, Bool-cases, subst,
  Result, ℤ, Error,
}
use csci3757_operating_syste.Lookup.{
  Name, World, Lookup, searching, entering, Turn, requester_turn, resolver_turn, stir_requester,
  stir_resolver, turn, is_valid_file, valid_files, launched, start_threads, File,
}
use csci3757_operating_syste.Lookup.Invariant.{lines_weight, file_weight}
use csci3757_operating_syste.Lookup.Ending.{one, unserviced}
use csci3757_operating_syste.Lookup.Ending.Asleep.{IsTurn}
use csci3757_operating_syste.Lookup.Ending.Complete.{total-one_replicate, started}
use csci3757_operating_syste.Lookup.Progress.{
  line_effort, requester_effort, resolver_effort, effort, Moves, Outcome,
}
use csci3757_operating_syste.Lookup.Progress.Requesters.{requester_step-Outcome}
use csci3757_operating_syste.Lookup.Progress.Resolvers.{resolver_step-Outcome}
use native.Mathlib.Nat.{suc-mul}

-- A turn takes the run further, or fails, or changes nothing.
abbrev pub Steps : World → ℕ → Lookup → Result Lookup → Type 0
Steps v c s x = Moves v c s x ⊎ (((e : Error) × (x ≡ err e)) ⊎ (x ≡ ok s))

Outcome-Steps :
    (v : World) (c rests holds : ℕ) (s : Lookup) (x : Result Lookup)
    → Outcome v c s rests holds x
    → Steps v c s x
Outcome-Steps v c rests holds s x (inl m) = inl m
Outcome-Steps v c rests holds s x (inr (inl f)) = inr (inl f)
Outcome-Steps v c rests holds s x (inr (inr (e, why))) = inr (inr e)

pub turn-Steps :
    (v : World) (c : ℕ) (t : Turn) (s : Lookup)
    → total one s.resolvers ≡ c
    → IsTurn t
    → Steps v c s (turn v t s)
unfolding turn
turn-Steps v c (requester_turn i k) s crew h = elim (Option-cases (get_elem? s.requesters i)) [
  | inl e ↦ rw (e, turn) (inr (inr refl))
  | inr (r, e) ↦
      rw (e, turn) (Outcome-Steps v c _ _ s _ (requester_step-Outcome v c s k i r crew e))
]
turn-Steps v c (resolver_turn j k) s crew h = elim (Option-cases (get_elem? s.resolvers j)) [
  | inl e ↦ rw (e, turn) (inr (inr refl))
  | inr (r, e) ↦ rw (e, turn) (Outcome-Steps v c _ _ s _ (resolver_step-Outcome v c s k j r e))
]
turn-Steps v c (stir_requester i) s crew h = absurd h
turn-Steps v c (stir_resolver j) s crew h = absurd h

-- Every turn succeeds and changes something, and none is a wake-up for no reason.
unfoldable pub Moving : World → List Turn → Lookup → Type 0
Moving v [] s = Unit
Moving v (t ∷ ts) s = IsTurn t × ((s' : Lookup) × (turn v t s ≡ ok s') × (s' ≢ s) × Moving v ts s')

pub Moving-bound :
    (v : World) (c : ℕ) (ts : List Turn) (s : Lookup)
    → total one s.resolvers ≡ c
    → Moving v ts s
    → length ts ≤ effort v c s
unfolding Moving
Moving-bound v c [] s crew m = omega arith
Moving-bound v c (t ∷ ts) s crew (h, (s', e, new, m)) = elim (turn-Steps v c t s crew h) [
  | inl goes ↦
      let same : goes.next ≡ s' = cc (sym goes.leads ∙ e) in
      let rest = Moving-bound v c ts s' (rw (sym same) (goes.crew ∙ crew)) m in
      omega (arith, rest, subst (λ x. effort v c x < effort v c s) same goes.less)
  | inr (inl (f, g)) ↦ absurd (cc (sym g ∙ e))
  | inr (inr same) ↦ absurd (new (cc (sym e ∙ same)))
]

total-replicate_le {ℓ} :
    {A : Type ℓ} (f : A → ℕ) (b n : ℕ) (a : A) → f a ≤ b → total f (replicate n a) ≤ n * b
unfolding total
total-replicate_le f b zero a h = omega arith
total-replicate_le f b (suc n) a h = omega (arith, h, suc-mul n b, total-replicate_le f b n a h)

-- What a run may take, from the start.
unfoldable pub budget : World → List File → ℕ
budget v fs = total (λ f. 4 + lines_weight line_effort (v.fopen f.filename)) fs + 130

valid_files-budget :
    (v : World) (readable : Name → Bool) (names : List Name)
    → total (file_weight line_effort v) (valid_files readable names)
        + 4 * total unserviced (valid_files readable names)
        + 130
      ≡ budget v (valid_files readable names)
unfolding budget total
valid_files-budget v readable [] = refl
valid_files-budget v readable (name ∷ names) = elim (Bool-cases (is_valid_file readable name)) [
  | inl e ↦ rw e (omega (arith, valid_files-budget v readable names))
  | inr e ↦ rw e (valid_files-budget v readable names)
]

launched-budget :
    (v : World) (readable : Name → Bool) (fresh : List Name) (m n : ℕ) (names : List Name)
    → m ≤ 5
    → n ≤ 10
    → effort v n (launched readable fresh m n names) ≤ budget v (valid_files readable names)
unfolding effort
launched-budget v readable fresh m n names g h = omega (
  arith,
  g,
  h,
  valid_files-budget v readable names,
  total-replicate_le (requester_effort n) 12 m (searching 0) (omega (arith, h)),
  total-replicate_le resolver_effort 7 n entering (omega arith),
)

-- From the start of `main`, a run in which every turn succeeds and changes the state, and no wait ends
-- for no reason, has at most 4 turns and 11 for each line, of every valid file, and 130 more.
pub Moving-budget :
    (v : World) (readable : Name → Bool) (fresh : List Name) (m n : ℤ) (names : List Name)
    (s : Lookup) (ts : List Turn)
    → start_threads readable fresh m n names ≡ some s
    → Moving v ts s
    → length ts ≤ budget v (valid_files readable names)
Moving-budget v readable fresh m n names s ts h moving =
    let (p, q, few, many, p_few, q_few, same) = started readable fresh m n names s h in
    let start = launched readable fresh p q names in
    let bound =
      Moving-bound v q ts start (total-one_replicate q entering)
        (subst (λ x. Moving v ts x) (sym same) moving) in
    omega (arith, bound, launched-budget v readable fresh p q names p_few q_few)

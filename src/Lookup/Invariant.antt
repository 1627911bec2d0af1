-- ===== src/Lookup/Invariant.antt =====
-- The buffer lock, the bounds of the buffer, and where the lines of the files are, as weights that a
-- turn leaves as they are.
use csci3757_operating_syste.Base.{
  ℕ, zero, suc, ◌+◌, ◌≤◌, ◌<◌, ◌≡◌, refl, inl, inr, Bool, true, false, Option, none, some, List, [],
  ◌∷◌, map, if◌then◌else◌, length, get_elem?, set, total, total_first, arith, Bool-cases,
  Option-cases, total-set,
}
use csci3757_operating_syste.Lookup.{
  Name, File, World, Requester, searching, locking, reading, checking, full_wait, full_woken,
  stopped, Resolver, entering, testing, testing_done, signalling, empty_wait, empty_woken, taking,
  ended, resolving, Lookup, search, array_size, chomp, signal, wake_first, wake_resolver,
  wake_requester,
}

abbrev pub bit : Bool → ℕ
bit true = 1
bit false = 0

pub bit-le : (b : Bool) → bit b ≤ 1
bit-le true = omega arith
bit-le false = omega arith

-- Whether a thread is between the lock and the unlock of the buffer.
abbrev pub holds_requester : Requester → ℕ
holds_requester (reading n f) = 1
holds_requester (checking n l ls) = 1
holds_requester (searching n) = 0
holds_requester (locking n f) = 0
holds_requester (full_wait n l ls) = 0
holds_requester (full_woken n l ls) = 0
holds_requester stopped = 0

abbrev pub holds_resolver : Resolver → ℕ
holds_resolver testing = 1
holds_resolver testing_done = 1
holds_resolver signalling = 1
holds_resolver taking = 1
holds_resolver entering = 0
holds_resolver empty_wait = 0
holds_resolver empty_woken = 0
holds_resolver ended = 0
holds_resolver (resolving name) = 0

pub record Inv (s : Lookup) : Type 0 where
  pub exclusive :
      total holds_requester s.requesters + total holds_resolver s.resolvers ≡ bit s.buffer_lock
  pub bounded : s.current_position ≤ array_size
  pub sized : length s.buffer ≡ array_size

-- The weight of the names in each place; with the weight 1 for one name and 0 for the others, how
-- often the name is there.
module _ (w : Name → ℕ) where
  abbrev pub lines_weight : Option (List Name) → ℕ
  lines_weight none = 0
  lines_weight (some ls) = total (λ l. w (chomp l)) ls

  abbrev pub requester_weight : Requester → ℕ
  requester_weight (searching n) = 0
  requester_weight (locking n f) = lines_weight f
  requester_weight (reading n f) = lines_weight f
  requester_weight (checking n l ls) = w (chomp l) + lines_weight (some ls)
  requester_weight (full_wait n l ls) = w (chomp l) + lines_weight (some ls)
  requester_weight (full_woken n l ls) = w (chomp l) + lines_weight (some ls)
  requester_weight stopped = 0

  abbrev pub resolver_weight : Resolver → ℕ
  resolver_weight (resolving name) = w name
  resolver_weight entering = 0
  resolver_weight testing = 0
  resolver_weight testing_done = 0
  resolver_weight signalling = 0
  resolver_weight empty_wait = 0
  resolver_weight empty_woken = 0
  resolver_weight taking = 0
  resolver_weight ended = 0

  abbrev pub result_weight : Name × Option (Option Name) → ℕ
  result_weight (name, ip) = w name

  abbrev pub file_weight : World → File → ℕ
  file_weight v f = if f.serviced then 0 else lines_weight (v.fopen f.filename)

  unfoldable pub weight : World → Lookup → ℕ
  weight v s =
      total (file_weight v) s.files
      + total requester_weight s.requesters
      + total_first w s.current_position s.buffer
      + total resolver_weight s.resolvers
      + total result_weight s.results_log

-- Waking a thread changes no weight that does not tell a waiting thread from a woken one.
module _ {ℓ} {A : Type ℓ} (f : A → ℕ) (wake : A → A) (waits : A → Bool)
    (h : (x : A) → f (wake x) ≡ f x) where
  pub total-map_wake : (xs : List A) → total f (map wake xs) ≡ total f xs
  unfolding total
  total-map_wake [] = refl
  total-map_wake (x ∷ xs) = omega (arith, h x, total-map_wake xs)

  total-set_wake :
      (xs : List A) (i : ℕ) (x : A)
      → get_elem? xs i ≡ some x
      → total f (set xs i (wake x)) ≡ total f xs
  total-set_wake xs i x e = omega (arith, h x, total-set f xs i x (wake x) e)

  total-wake_first : (xs : List A) → total f (wake_first wake waits xs) ≡ total f xs
  unfolding total
  total-wake_first [] = refl
  total-wake_first (x ∷ xs) = elim (Bool-cases (waits x)) [
    | inl e ↦ rw (e, wake_first) (omega (arith, h x))
    | inr e ↦ rw (e, wake_first) (omega (arith, total-wake_first xs))
  ]

  pub total-signal : (k : ℕ) (xs : List A) → total f (signal wake waits k xs) ≡ total f xs
  unfolding signal
  total-signal k xs = elim (Option-cases (get_elem? xs k)) [
    | inl e ↦ rw (e, signal) (total-wake_first xs)
    | inr (x, e) ↦ elim (Bool-cases (waits x)) [
      | inl t ↦ rw (e, signal, t) (total-set_wake xs k x e)
      | inr t ↦ rw (e, signal, t) (total-wake_first xs)
    ]
  ]

pub holds_resolver-wake : (r : Resolver) → holds_resolver (wake_resolver r) ≡ holds_resolver r
holds_resolver-wake r = elim r as (λ r. holds_resolver (wake_resolver r) ≡ holds_resolver r) [
  | empty_wait ↦ refl
  | _ ↦ refl
]

pub holds_requester-wake : (r : Requester) → holds_requester (wake_requester r) ≡ holds_requester r
holds_requester-wake r = elim r as (λ r. holds_requester (wake_requester r) ≡ holds_requester r) [
  | full_wait n l ls ↦ refl
  | _ ↦ refl
]

module _ (w : Name → ℕ) where
  pub resolver_weight-wake :
      (r : Resolver) → resolver_weight w (wake_resolver r) ≡ resolver_weight w r
  resolver_weight-wake r =
      elim r as (λ r. resolver_weight w (wake_resolver r) ≡ resolver_weight w r) [
        | empty_wait ↦ refl
        | _ ↦ refl
      ]

  pub requester_weight-wake :
      (r : Requester) → requester_weight w (wake_requester r) ≡ requester_weight w r
  requester_weight-wake r =
      elim r as (λ r. requester_weight w (wake_requester r) ≡ requester_weight w r) [
        | full_wait n l ls ↦ refl
        | _ ↦ refl
      ]

  -- The search takes a file's lines from those still to be serviced.
  abbrev pub Taken : World → List File → Option (Name × List File) → Type 0
  Taken v fs none = Unit
  Taken v fs (some (name, fs')) =
      total (file_weight w v) fs' + lines_weight w (v.fopen name) ≡ total (file_weight w v) fs

  search_further :
      (v : World) (f : File) (fs : List File) (r : Option (Name × List File))
      → f.serviced ≡ true
      → Taken v fs r
      → Taken v (f ∷ fs) (elim r [ none ↦ none | some (name, fs') ↦ some (name, f ∷ fs') ])
  unfolding total
  search_further v f fs none e t = tt
  search_further v f fs (some (name, fs')) e t = rw e (omega (arith, t))

  pub search-Taken : (v : World) (fs : List File) → Taken v fs (search fs)
  unfolding total
  search-Taken v [] = tt
  search-Taken v (f ∷ fs) = elim (Bool-cases f.serviced) [
    | inl e ↦ simp e (search_further v f fs (search fs) e (search-Taken v fs))
    | inr e ↦ simp e (omega arith)
  ]

  total_first-set :
      (p : ℕ) (xs : List Name) (x : Name)
      → p < length xs
      → total_first w (suc p) (set xs p x) ≡ total_first w p xs + w x
  unfolding total_first
  total_first-set p [] x h = absurd (omega arith)
  total_first-set zero (y ∷ xs) x h = ground arith
  total_first-set (suc p) (y ∷ xs) x h = omega (arith, total_first-set p xs x (omega arith))

  pub total_first-store :
      (p : ℕ) (xs : List Name) (x : Name)
      → p < length xs
      → total_first w (p + 1) (set xs p x) ≡ total_first w p xs + w x
  total_first-store p xs x h =
      let e : p + 1 ≡ suc p = omega arith in rw e (total_first-set p xs x h)

  pub total_first-get :
      (p : ℕ) (xs : List Name) (x : Name)
      → get_elem? xs p ≡ some x
      → total_first w (suc p) xs ≡ total_first w p xs + w x
  unfolding total_first
  total_first-get p [] x h = absurd (ground arith)
  total_first-get zero (y ∷ xs) x h = ground arith
  total_first-get (suc p) (y ∷ xs) x h = omega (arith, total_first-get p xs x h)

-- ===== src/Simulator/Search/Spec.antt =====
-- What a search of `process_step` answers, over any table and over a rising one.
use csci3757_operating_syste.Base.{
  ℕ, zero, suc, ◌≤◌, ◌<◌, ◌≡◌, refl, ◌≢◌, inl, inr, List, [], ◌∷◌, ok, arith, ◌==◌, if◌then◌else◌,
  Bool-cases, length, get_elem?-get_or,
}
use csci3757_operating_syste.Simulator.Search.{
  Stop, at, between, Hit, miss, before, hit, last_tests, finish, search_keys,
}
use csci3757_operating_syste.Simulator.Search.Bisect.{value, Stopped, bisect-Stopped}

-- The first `n` keys rise strictly.
abbrev pub Rising : ℕ → List ℕ → Type 0
Rising zero keys = Unit
Rising (suc n) [] = Unit
Rising (suc zero) (x ∷ keys) = Unit
Rising (suc (suc n)) (x ∷ []) = Unit
Rising (suc (suc n)) (x ∷ y ∷ keys) = (x < y) × Rising (suc n) (y ∷ keys)

Rising-lt :
    (n : ℕ) (keys : List ℕ) (i j : ℕ)
    → n ≤ length keys
    → Rising n keys
    → i < j
    → j < n
    → value keys i < value keys j
Rising-lt zero keys i j l r h k = absurd (omega arith)
Rising-lt (suc n) [] i j l r h k = absurd (omega arith)
Rising-lt (suc zero) (x ∷ keys) i j l r h k = absurd (omega arith)
Rising-lt (suc (suc n)) (x ∷ []) i j l r h k = absurd (omega arith)
Rising-lt (suc (suc n)) (x ∷ y ∷ keys) i zero l r h k = absurd (omega arith)
Rising-lt (suc (suc n)) (x ∷ y ∷ keys) zero (suc zero) l r h k = r.0
Rising-lt (suc (suc n)) (x ∷ y ∷ keys) zero (suc (suc j)) l r h k =
    omega (arith, r.0, Rising-lt (suc n) (y ∷ keys) 0 (suc j) (omega arith) r.1)
Rising-lt (suc (suc n)) (x ∷ y ∷ keys) (suc i) (suc j) l r h k =
    Rising-lt (suc n) (y ∷ keys) i j (omega arith) r.1 (omega arith) (omega arith)

-- A hit is at an index of the table that holds the key.
abbrev pub IsHit : List ℕ → ℕ → ℕ → Hit → Type 0
IsHit keys n key (hit i) = (i < n) × (value keys i ≡ key)
IsHit keys n key miss = Unit
IsHit keys n key before = ⊥

-- The same, and a miss says that the table does not hold the key.
abbrev pub Finds : List ℕ → ℕ → ℕ → Hit → Type 0
Finds keys n key (hit i) = (i < n) × (value keys i ≡ key)
Finds keys n key miss = (i : ℕ) → i < n → value keys i ≢ key
Finds keys n key before = ⊥

last_tests_lem :
    (keys : List ℕ) (key a b : ℕ)
    → a < length keys
    → b < length keys
    → last_tests keys key a b
      ≡ ok (if key == value keys a then hit a else if key == value keys b then hit b else miss)
unfolding last_tests
last_tests_lem keys key a b h k =
    rw (get_elem?-get_or keys a 0 h, get_elem?-get_or keys b 0 k) (ground arith)

module _ (keys : List ℕ) (key m : ℕ) (len : suc m ≤ length keys) where
  finish-IsHit :
      (st : Stop)
      → Stopped keys key 0 m st
      → (h : Hit) × (finish keys key st ≡ ok h) × IsHit keys (suc m) key h
  unfolding finish
  finish-IsHit (at i) s = (hit i, refl, (omega arith, s.1))
  finish-IsHit (between a b) s =
      (_, last_tests_lem keys key a b (omega arith) (omega arith), ground arith)

  Finds-tests :
      Rising (suc m) keys
      → (a b : ℕ) → Stopped keys key 0 m (between a b)
      → Finds keys
          (suc m)
          key
          (if key == value keys a then hit a else if key == value keys b then hit b else miss)
  Finds-tests r a b s = elim (Bool-cases (key == value keys a)) [
    | inl e ↦ rw e (omega arith, ground arith)
    | inr na ↦ elim (Bool-cases (key == value keys b)) [
      | inl e ↦ rw (na, e) (omega arith, ground arith)
      | inr nb ↦
          rw (na, nb)
            (λ i lt e.
              ground (arith, Rising-lt (suc m) keys i a len r, Rising-lt (suc m) keys b i len r))
    ]
  ]

  finish-Finds :
      Rising (suc m) keys
      → (st : Stop) → Stopped keys key 0 m st
      → (h : Hit) × (finish keys key st ≡ ok h) × Finds keys (suc m) key h
  unfolding finish
  finish-Finds r (at i) s = (hit i, refl, (omega arith, s.1))
  finish-Finds r (between a b) s =
      (_, last_tests_lem keys key a b (omega arith) (omega arith), Finds-tests r a b s)

-- With a rising table the search finds the key exactly if it is there, and stays in the table.
pub search_keys-Finds :
    (keys : List ℕ) (stray n key : ℕ)
    → 0 < n
    → n ≤ length keys
    → Rising n keys
    → (h : Hit) × (search_keys keys stray n key ≡ ok h) × Finds keys n key h
unfolding search_keys
search_keys-Finds keys stray zero key pos len r = absurd (omega arith)
search_keys-Finds keys stray (suc m) key pos len r =
    let (st, e, s) =
      bisect-Stopped (suc m) keys key 0 m (omega arith) (omega arith) (omega arith) in
    rw (e, search_keys) (finish-Finds keys key m len r st s)

-- Over any table the search ends, and what it finds is there; `before` is not the answer as long as
-- an empty table does not hide the stray value.
pub search_keys-IsHit :
    (keys : List ℕ) (stray n key : ℕ)
    → 0 < n
    → n ≤ length keys
    → (h : Hit) × (search_keys keys stray n key ≡ ok h) × IsHit keys n key h
unfolding search_keys
search_keys-IsHit keys stray zero key pos len = absurd (omega arith)
search_keys-IsHit keys stray (suc m) key pos len =
    let (st, e, s) =
      bisect-Stopped (suc m) keys key 0 m (omega arith) (omega arith) (omega arith) in
    rw (e, search_keys) (finish-IsHit keys key m len st s)

-- ===== src/Simulator/Pointers.antt =====
-- The pointers of `processes` into the queue: below a bound, and no two the same.
use csci3757_operating_syste.Base.{
  ℕ, zero, suc, ◌<◌, ◌≡◌, sym, ◌∙◌, ◌≢◌, inl, inr, false, List, Option, none, some, arith, length,
  get_elem?, set, replicate, All, All-get, ◌==◌, Bool-cases, get_elem?-set_ne, get_elem?-set_self,
  get_elem?-lt, length-set, ◌⊎◌,
}

-- A pointer is NULL or points below `n`.
abbrev pub Points : ℕ → Option ℕ → Type 0
Points n none = Unit
Points n (some k) = k < n

-- No two processors have the same job.
pub record Distinct (ps : List (Option ℕ)) : Type 0 where
  pub same_slot :
      (i j k : ℕ) → get_elem? ps i ≡ some (some k) → get_elem? ps j ≡ some (some k) → i ≡ j

replicate-none : (n i k : ℕ) → get_elem? (replicate {A = Option ℕ} n none) i ≢ some (some k)
replicate-none zero i k e = cc
replicate-none (suc n) zero k e = cc
replicate-none (suc n) (suc i) k e = replicate-none n i k e

pub replicate-Distinct : (n : ℕ) → Distinct (replicate n none)
replicate-Distinct n = record { same_slot = λ i j k e f. absurd (replicate-none n i k e) }

pub ne_of_test : (j i : ℕ) → (j == i) ≡ false → j ≢ i
ne_of_test j i f e = absurd (ground arith)

-- What stands at an index of a list with one element replaced.
get_elem?-set_cases :
    (ps : List (Option ℕ)) (i j k : ℕ) (p : Option ℕ)
    → get_elem? (set ps i p) j ≡ some (some k)
    → ((j ≡ i) × (p ≡ some k)) ⊎ ((j ≢ i) × (get_elem? ps j ≡ some (some k)))
get_elem?-set_cases ps i j k p e = elim (Bool-cases (j == i)) [
  | inl t ↦
      let same : j ≡ i = ground arith in
      let long : j < length ps =
        omega (arith, get_elem?-lt (set ps i p) j (some k) e, length-set ps i p) in
      let here : get_elem? (set ps i p) j ≡ some p =
        rw same (get_elem?-set_self ps i p (omega (arith, long, same))) in
      inl (same, cc)
  | inr f ↦
      let other : j ≢ i = ne_of_test j i f in
      inr (other, sym (get_elem?-set_ne ps i j p (λ x. other (sym x))) ∙ e)
]

stale : (n k : ℕ) → k < n → some n ≢ some k
stale n k h e = ground arith

pub set-none-Distinct : (ps : List (Option ℕ)) (i : ℕ) → Distinct ps → Distinct (set ps i none)
set-none-Distinct ps i d = record {
  same_slot = λ a b k e f. elim (get_elem?-set_cases ps i a k none e) [
    | inl (x, y) ↦ absurd (cc)
    | inr (x, y) ↦ elim (get_elem?-set_cases ps i b k none f) [
      | inl (z, w) ↦ absurd (cc)
      | inr (z, w) ↦ d.same_slot a b k y w
    ]
  ];
}

pub set_fresh-Distinct :
    (ps : List (Option ℕ)) (i n : ℕ)
    → All (Points n) ps
    → Distinct ps
    → Distinct (set ps i (some n))
set_fresh-Distinct ps i n p d = record {
  same_slot = λ a b k e f. elim (get_elem?-set_cases ps i a k (some n) e) [
    | inl (x, y) ↦ elim (get_elem?-set_cases ps i b k (some n) f) [
      | inl (z, w) ↦ x ∙ sym z
      | inr (z, w) ↦ absurd (stale n k (All-get (Points n) ps b (some k) p w) y)
    ]
    | inr (x, y) ↦ elim (get_elem?-set_cases ps i b k (some n) f) [
      | inl (z, w) ↦ absurd (stale n k (All-get (Points n) ps a (some k) p y) w)
      | inr (z, w) ↦ d.same_slot a b k y w
    ]
  ];
}

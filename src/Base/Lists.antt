-- ===== src/Base/Lists.antt =====
-- Lists measured and indexed by native numbers, under the library's names; C arrays are such lists.
use Prim.Native.Nat.{ℕ, zero, suc, ◌+◌, ◌≤◌, ◌<◌}
use mathlib.Core.Path.{◌≡◌, refl, ap}
use mathlib.Core.Logic.{◌≢◌}
use mathlib.Core.List.{List, [], ◌∷◌, map}
use mathlib.Core.Option.{Option, none, some}
use native.Mathlib.Omega.{arith}

module _ {ℓ} {A : Type ℓ} where
  abbrev pub length : List A → ℕ
  length [] = 0
  length (x ∷ xs) = suc (length xs)

  abbrev pub get_elem? : List A → ℕ → Option A
  get_elem? [] i = none
  get_elem? (x ∷ xs) zero = some x
  get_elem? (x ∷ xs) (suc i) = get_elem? xs i

  -- A write out of bounds changes nothing.
  abbrev pub set : List A → ℕ → A → List A
  set [] i v = []
  set (x ∷ xs) zero v = v ∷ xs
  set (x ∷ xs) (suc i) v = x ∷ set xs i v

  abbrev pub get_or : List A → ℕ → A → A
  get_or [] i d = d
  get_or (x ∷ xs) zero d = x
  get_or (x ∷ xs) (suc i) d = get_or xs i d

  abbrev pub replicate : ℕ → A → List A
  replicate zero a = []
  replicate (suc n) a = a ∷ replicate n a

  -- A C array initialiser: the listed elements, then `a` up to `n` elements.
  abbrev pub pad : ℕ → A → List A → List A
  pad zero a xs = []
  pad (suc n) a [] = a ∷ pad n a []
  pad (suc n) a (x ∷ xs) = x ∷ pad n a xs

  -- for (i = 0; i < n; i++) xs[i] = f(xs[i])
  abbrev pub update_first : ℕ → (A → A) → List A → List A
  update_first zero f xs = xs
  update_first (suc n) f [] = []
  update_first (suc n) f (x ∷ xs) = f x ∷ update_first n f xs

  -- The sum of the weights of the first `n` elements.
  unfoldable pub total_first : (A → ℕ) → ℕ → List A → ℕ
  total_first w zero xs = 0
  total_first w (suc n) [] = 0
  total_first w (suc n) (x ∷ xs) = w x + total_first w n xs

  abbrev pub All {κ} : (A → Type κ) → List A → Type κ
  All P [] = Unit
  All P (x ∷ xs) = P x × All P xs

  abbrev pub take : ℕ → List A → List A
  take zero xs = []
  take (suc n) [] = []
  take (suc n) (x ∷ xs) = x ∷ take n xs

  abbrev pub drop : ℕ → List A → List A
  drop zero xs = xs
  drop (suc n) [] = []
  drop (suc n) (x ∷ xs) = drop n xs

  -- The sum of the weights of the elements.
  unfoldable pub total : (A → ℕ) → List A → ℕ
  total w [] = 0
  total w (x ∷ xs) = w x + total w xs

module _ {ℓ} {A : Type ℓ} where
  pub length-set : (xs : List A) (i : ℕ) (v : A) → length (set xs i v) ≡ length xs
  length-set [] i v = refl
  length-set (x ∷ xs) zero v = refl
  length-set (x ∷ xs) (suc i) v = ap suc (length-set xs i v)

  pub length-replicate : (n : ℕ) (a : A) → length (replicate n a) ≡ n
  length-replicate zero a = refl
  length-replicate (suc n) a = ap suc (length-replicate n a)

  pub length-map {κ} : {B : Type κ} (xs : List A) (f : A → B) → length (map f xs) ≡ length xs
  length-map [] f = refl
  length-map (x ∷ xs) f = ap suc (length-map xs f)

  pub length-update_first :
      (n : ℕ) (f : A → A) (xs : List A) → length (update_first n f xs) ≡ length xs
  length-update_first zero f xs = refl
  length-update_first (suc n) f [] = refl
  length-update_first (suc n) f (x ∷ xs) = ap suc (length-update_first n f xs)

  -- All of the elements are among the first `n`.
  pub total_first-total :
      (w : A → ℕ) (n : ℕ) (xs : List A) → length xs ≤ n → total_first w n xs ≡ total w xs
  unfolding total_first total
  total_first-total w zero [] h = refl
  total_first-total w zero (x ∷ xs) h = absurd (omega arith)
  total_first-total w (suc n) [] h = refl
  total_first-total w (suc n) (x ∷ xs) h = omega (arith, total_first-total w n xs (omega arith))

  -- An update of the first `n` elements that splits their weights as `f` and `w'` do.
  pub total-update_first :
      (w w' : A → ℕ) (f : A → A)
      → ((x : A) → w (f x) + w' x ≡ w x)
      → (n : ℕ) (xs : List A) → total w (update_first n f xs) + total_first w' n xs ≡ total w xs
  unfolding total_first total
  total-update_first w w' f h zero xs = omega arith
  total-update_first w w' f h (suc n) [] = refl
  total-update_first w w' f h (suc n) (x ∷ xs) =
      omega (arith, h x, total-update_first w w' f h n xs)

  pub get_elem?-set_self :
      (xs : List A) (i : ℕ) (v : A) → i < length xs → get_elem? (set xs i v) i ≡ some v
  get_elem?-set_self [] i v h = elim h [ ]
  get_elem?-set_self (x ∷ xs) zero v h = refl
  get_elem?-set_self (x ∷ xs) (suc i) v h = get_elem?-set_self xs i v (omega arith)

  pub get_elem?-set_ne :
      (xs : List A) (i j : ℕ) (v : A) → i ≢ j → get_elem? (set xs i v) j ≡ get_elem? xs j
  get_elem?-set_ne [] i j v h = refl
  get_elem?-set_ne (x ∷ xs) zero zero v h = absurd (h refl)
  get_elem?-set_ne (x ∷ xs) zero (suc j) v h = refl
  get_elem?-set_ne (x ∷ xs) (suc i) zero v h = refl
  get_elem?-set_ne (x ∷ xs) (suc i) (suc j) v h = get_elem?-set_ne xs i j v (λ e. h (ap suc e))

  -- An index below the length has an element, and only such an index.
  pub get_elem?-some : (xs : List A) (i : ℕ) → i < length xs → (x : A) × (get_elem? xs i ≡ some x)
  get_elem?-some [] i h = elim h [ ]
  get_elem?-some (x ∷ xs) zero h = (x, refl)
  get_elem?-some (x ∷ xs) (suc i) h = get_elem?-some xs i (omega arith)

  pub get_elem?-lt : (xs : List A) (i : ℕ) (x : A) → get_elem? xs i ≡ some x → i < length xs
  get_elem?-lt [] i x h = ground arith
  get_elem?-lt (y ∷ xs) zero x h = omega arith
  get_elem?-lt (y ∷ xs) (suc i) x h = omega (arith, get_elem?-lt xs i x h)

  pub get_or-set_self :
      (xs : List A) (i : ℕ) (v d : A) → i < length xs → get_or (set xs i v) i d ≡ v
  get_or-set_self [] i v d h = elim h [ ]
  get_or-set_self (x ∷ xs) zero v d h = refl
  get_or-set_self (x ∷ xs) (suc i) v d h = get_or-set_self xs i v d (omega arith)

  pub get_or-set_ne :
      (xs : List A) (i j : ℕ) (v d : A) → i ≢ j → get_or (set xs i v) j d ≡ get_or xs j d
  get_or-set_ne [] i j v d h = refl
  get_or-set_ne (x ∷ xs) zero zero v d h = absurd (h refl)
  get_or-set_ne (x ∷ xs) zero (suc j) v d h = refl
  get_or-set_ne (x ∷ xs) (suc i) zero v d h = refl
  get_or-set_ne (x ∷ xs) (suc i) (suc j) v d h = get_or-set_ne xs i j v d (λ e. h (ap suc e))

  pub get_elem?-get_or :
      (xs : List A) (i : ℕ) (d : A) → i < length xs → get_elem? xs i ≡ some (get_or xs i d)
  get_elem?-get_or [] i d h = elim h [ ]
  get_elem?-get_or (x ∷ xs) zero d h = refl
  get_elem?-get_or (x ∷ xs) (suc i) d h = get_elem?-get_or xs i d (omega arith)

  pub total-set :
      (w : A → ℕ) (xs : List A) (i : ℕ) (x v : A)
      → get_elem? xs i ≡ some x
      → total w (set xs i v) + w x ≡ total w xs + w v
  unfolding total
  total-set w [] i x v h = ground arith
  total-set w (y ∷ xs) zero x v h = ground arith
  total-set w (y ∷ xs) (suc i) x v h = omega (arith, total-set w xs i x v h)

  pub total-ge :
      (w : A → ℕ) (xs : List A) (i : ℕ) (x : A) → get_elem? xs i ≡ some x → w x ≤ total w xs
  unfolding total
  total-ge w [] i x h = ground arith
  total-ge w (y ∷ xs) zero x h = ground arith
  total-ge w (y ∷ xs) (suc i) x h = omega (arith, total-ge w xs i x h)

  module _ {κ} (P : A → Type κ) where
    pub All-get : (xs : List A) (i : ℕ) (x : A) → All P xs → get_elem? xs i ≡ some x → P x
    All-get [] i x a h = absurd (ground arith)
    All-get (y ∷ xs) zero x a h = ground (arith, a.0)
    All-get (y ∷ xs) (suc i) x a h = All-get xs i x a.1 h

    pub All-set : (xs : List A) (i : ℕ) (v : A) → All P xs → P v → All P (set xs i v)
    All-set [] i v a p = a
    All-set (y ∷ xs) zero v a p = (p, a.1)
    All-set (y ∷ xs) (suc i) v a p = (a.0, All-set xs i v a.1 p)

    All-update_nil : (n : ℕ) (f : A → A) → All P (update_first n f [])
    All-update_nil zero f = tt
    All-update_nil (suc n) f = tt

    pub All-update_first :
        (n : ℕ) (f : A → A) (xs : List A)
        → ((x : A) → P x → P (f x))
        → All P xs
        → All P (update_first n f xs)
    All-update_first zero f xs h a = a
    All-update_first (suc n) f [] h a = a
    All-update_first (suc n) f (x ∷ xs) h a = (h x a.0, All-update_first n f xs h a.1)

    pub All-update_each :
        (n : ℕ) (f : A → A) (xs : List A)
        → ((x : A) → P (f x))
        → length xs ≤ n
        → All P (update_first n f xs)
    All-update_each n f [] h l = All-update_nil n f
    All-update_each zero f (x ∷ xs) h l = absurd (omega arith)
    All-update_each (suc n) f (x ∷ xs) h l = (h x, All-update_each n f xs h (omega arith))

    pub All-replicate : (n : ℕ) (x : A) → P x → All P (replicate n x)
    All-replicate zero x p = tt
    All-replicate (suc n) x p = (p, All-replicate n x p)

-- Counts that are pointwise below others are below them in total.
pub total-le {ℓ} :
    {A : Type ℓ} (f g : A → ℕ) → ((x : A) → f x ≤ g x) → (xs : List A) → total f xs ≤ total g xs
unfolding total
total-le f g h [] = omega arith
total-le f g h (x ∷ xs) = omega (arith, h x, total-le f g h xs)

pub total-lt {ℓ} :
    {A : Type ℓ} (f g : A → ℕ)
    → ((x : A) → f x ≤ g x)
    → (xs : List A) (i : ℕ) (x : A) → get_elem? xs i ≡ some x
    → f x < g x
    → total f xs < total g xs
unfolding total
total-lt f g h [] i x e l = absurd (ground arith)
total-lt f g h (y ∷ xs) zero x e l =
    let same : y ≡ x = cc in rw same (omega (arith, l, total-le f g h xs))
total-lt f g h (y ∷ xs) (suc i) x e l = omega (arith, h y, total-lt f g h xs i x e l)

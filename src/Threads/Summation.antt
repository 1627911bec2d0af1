-- ===== src/Threads/Summation.antt =====
-- PA-Three/Threads-and-Processes/threads/summation.c: main and runner, on a 32-bit int; `none` is an
-- overflow, which C leaves undefined.
use csci3757_operating_syste.Base.{
  ℕ, zero, suc, ◌+◌, ◌*◌, ◌/◌, ◌-◌, ◌^◌, ◌≤◌, ◌≡◌, refl, inl, inr, Option, none, some, ℤ, pos,
  negsuc, leb, if◌then◌else◌, arith, Bool-cases, ap, ◌∙◌, List, ◌∷◌, [], ◌++◌, ◌==◌, ◌≢◌,
}

abbrev pub int_max : ℕ
int_max = 2 ^ 31 - 1

-- `n` rounds of the loop, from `i`.
unfoldable pub add_up : ℕ → ℕ → ℕ → Option ℕ
add_up zero i sum = some sum
add_up (suc n) i sum =
    let rest = add_up n (i + 1) (sum + i) in if leb (sum + i) int_max then rest else none

-- for (i = 1; i <= upper; i++) sum += i, with upper the number that atoi gives
unfoldable pub runner : ℤ → Option ℕ
unfolding add_up
runner (pos upper) = add_up upper 1 0
runner (negsuc n) = some 0

-- What the program prints.
pub data Printed : Type 0 where
  not_enough must_be_positive another_thread joined : Printed
  sum_is : ℕ → Printed

abbrev reported : ℤ → List Printed
reported (pos n) = []
reported (negsuc n) = must_be_positive ∷ []

-- `main`, with atoi(argv[1]): the lines it prints and what it returns. A negative number is reported,
-- but the thread is created all the same.
unfoldable pub main : ℕ → ℤ → Option (List Printed × ℤ)
main argc value =
    if argc == 2
    then elim (runner value) [
      | none ↦ none
      | some sum ↦ some (reported value ++ (another_thread ∷ joined ∷ sum_is sum ∷ []), pos 0)
    ]
    else some (not_enough ∷ [], negsuc 0)

range_sum : ℕ → ℕ → ℕ
range_sum zero i = 0
range_sum (suc n) i = i + range_sum n (i + 1)

range_sum-closed : (n i : ℕ) → 2 * range_sum n i + n ≡ 2 * (n * i) + n * n
unfolding range_sum
range_sum-closed zero i = omega arith
range_sum-closed (suc n) i = grind (arith, range_sum-closed n (i + 1))

sums : (a b c : ℕ) → a + b + c ≡ a + (b + c)
sums a b c = omega arith

-- The loop gives the sum, or overflows if the sum is above the greatest int.
add_up_lem :
    (n i sum : ℕ)
    → sum ≤ int_max
    → add_up n i sum
      ≡ (if leb (sum + range_sum n i) int_max then some (sum + range_sum n i) else none)
unfolding add_up range_sum
add_up_lem zero i sum h = ground arith
add_up_lem (suc n) i sum h = elim (Bool-cases (leb (sum + i) int_max)) [
  | inl t ↦ rw t (
      add_up_lem n (i + 1) (sum + i) (ground arith)
      ∙ ap (λ x. if leb x int_max then some x else none) (sums sum i (range_sum n (i + 1))))
  | inr f ↦ rw f (ground arith)
]

runner_lem :
    (n : ℕ)
    → runner (pos n) ≡ (if leb (n * (n + 1) / 2) int_max then some (n * (n + 1) / 2) else none)
unfolding runner
runner_lem n =
    let e : range_sum n 1 ≡ n * (n + 1) / 2 = grind (arith, range_sum-closed n 1) in
    let f : 0 + range_sum n 1 ≡ n * (n + 1) / 2 = omega (arith, e) in
    add_up_lem n 1 0 (omega arith) ∙ ap (λ x. if leb x int_max then some x else none) f

-- With one argument n, a number from 0 up, the program prints n (n + 1) / 2, the sum of the numbers up
-- to n, if that is at most 2^31 - 1, and else overflows. With a negative one it reports the number,
-- creates the thread all the same and prints the sum 0. With another number of arguments, argv[0]
-- counted, it prints only that and returns -1.
pub main_lem :
    (n argc : ℕ)
    → (main 2 (pos n) ≡ (
        if leb (n * (n + 1) / 2) int_max
        then some (another_thread ∷ joined ∷ sum_is (n * (n + 1) / 2) ∷ [], pos 0)
        else none))
      × (main 2 (negsuc n)
          ≡ some (must_be_positive ∷ another_thread ∷ joined ∷ sum_is 0 ∷ [], pos 0))
      × ((argc ≢ 2) → main argc (pos n) ≡ some (not_enough ∷ [], negsuc 0))
unfolding main runner
main_lem n argc = (rw (runner_lem n) (ground arith), refl, λ h. ground arith)

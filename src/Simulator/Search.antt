-- ===== src/Simulator/Search.antt =====
-- PA4/PA4/simulator.c, `process_step`: the two binary searches, for an exit and for a branch.
pub mod Bisect
pub mod Spec
use csci3757_operating_syste.Base.{
  ℕ, zero, suc, ◌+◌, ◌/◌, true, false, List, Result, ok, err, out_of_bounds, out_of_fuel, ◌>>=◌,
  or_err, ltb, ◌==◌, if◌then◌else◌, get_elem?,
}

-- Where the loop stops: at an equal key, or with two candidates left.
pub data Stop : Type 0 where
  at : ℕ → Stop
  between : ℕ → ℕ → Stop

-- `while (min+1<max)`, on fuel
unfoldable pub bisect : ℕ → List ℕ → ℕ → ℕ → ℕ → Result Stop
bisect zero keys key lo hi = err out_of_fuel
bisect (suc fuel) keys key lo hi = elim (ltb (lo + 1) hi) [
  | false ↦ ok (between lo hi)
  | true ↦ or_err (get_elem? keys ((lo + hi) / 2)) out_of_bounds >>= λ middle.
      elim (key == middle) [
        | true ↦ ok (at ((lo + hi) / 2))
        | false ↦ elim (ltb key middle) [
          | true ↦ bisect fuel keys key lo ((lo + hi) / 2)
          | false ↦ bisect fuel keys key ((lo + hi) / 2) hi
        ]
      ]
]

-- `before` is the index -1: with no keys the search still compares the memory before the array.
pub data Hit : Type 0 where
  miss before : Hit
  hit : ℕ → Hit

-- The comparisons after the loop, with `min` and then with `max`.
unfoldable pub last_tests : List ℕ → ℕ → ℕ → ℕ → Result Hit
last_tests keys key lo hi = or_err (get_elem? keys lo) out_of_bounds >>= λ low.
    or_err (get_elem? keys hi) out_of_bounds >>= λ high.
    ok (if key == low then hit lo else if key == high then hit hi else miss)

unfoldable pub finish : List ℕ → ℕ → Stop → Result Hit
unfolding last_tests
finish keys key (at i) = ok (hit i)
finish keys key (between lo hi) = last_tests keys key lo hi

-- A search among the first `n` keys. With `n` 0 the bounds are 0 and -1; `stray` is the value that
-- the read at -1 gives, which the source does not determine.
unfoldable pub search_keys : List ℕ → ℕ → ℕ → ℕ → Result Hit
unfolding bisect finish
search_keys keys stray zero key = or_err (get_elem? keys 0) out_of_bounds >>= λ low.
    ok (if key == low then hit 0 else if key == stray then before else miss)
search_keys keys stray (suc m) key = bisect (suc m) keys key 0 m >>= finish keys key

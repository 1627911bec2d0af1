-- ===== src/Syscall/Tests.antt =====
-- A memory in which every copy is complete.
use csci3757_operating_syste.Base.{
  ℕ, ◌+◌, ◌-◌, ◌^◌, ◌≡◌, refl, List, some, pos, leb, if◌then◌else◌, get_elem?, arith, true, Option,
  none,
}
use csci3757_operating_syste.Syscall.{UserMemory, read_int, sys_cs3753_add, add_program}
use csci3757_operating_syste.Syscall.Laws.{WrapsTo, sum-Wraps}

abbrev or_old : Option ℕ → ℕ → ℕ
or_old none old = old
or_old (some b) old = b

abbrev stored : ℕ → List ℕ → (ℕ → ℕ) → ℕ → ℕ
stored a bs memory x = if leb a x then or_old (get_elem? bs (x - a)) (memory x) else memory x

from_start : (a j : ℕ) → (leb a (a + j) ≡ true) × (a + j - a ≡ j)
from_start a j = (ground arith, omega arith)

stored-at :
    (a : ℕ) (bs : List ℕ) (memory : ℕ → ℕ) (j b : ℕ)
    → get_elem? bs j ≡ some b
    → stored a bs memory (a + j) ≡ b
stored-at a bs memory j b e = let (t, back) = from_start a j in rw (t, back, e) refl

abbrev whole_memory : UserMemory
whole_memory = record {
  copy_to_user = λ a bs memory. (0, stored a bs memory);
  all_copied = λ a bs memory j b h e. stored-at a bs memory j b e;
}

sum-Wraps_example :
    WrapsTo
      (pos (2 ^ 31 + 4))
      (read_int (sys_cs3753_add whole_memory (pos (2 ^ 31 - 1)) (pos 5) 64 (λ x. 0)).1 64)
unfolding sys_cs3753_add
sum-Wraps_example =
    sum-Wraps whole_memory (pos (2 ^ 31 - 1)) (pos 5) 64 (λ x. 0) (omega arith) (omega arith) refl

-- The test program prints 0 and 15.
program_prints : add_program whole_memory 64 (λ x. 0) ≡ (0, pos 15)
unfolding add_program
program_prints = refl

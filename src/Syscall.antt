-- ===== src/Syscall.antt =====
-- PA-One/submission_joph0114/files/cs3753_add.c, the system call, and testprograms/testprogram-two.c,
-- which calls it. An int is a signed number of 32 bits, and the kernel, which is built with
-- -fno-strict-overflow, wraps a sum.
pub mod Laws
mod Tests
use csci3757_operating_syste.Base.{
  ℕ, ◌+◌, ◌*◌, ◌/◌, ◌%◌, ◌-◌, ◌^◌, ◌<◌, ◌≤◌, ◌≡◌, List, [], ◌∷◌, some, ℤ, pos, negsuc, ◌+ℤ◌, ltb,
  if◌then◌else◌, get_elem?,
}

-- The memory of the process, and the kernel's copy_to_user: how many bytes it could not copy, and the
-- memory afterwards. Where it answers 0 the bytes are there.
pub record UserMemory : Type 0 where
  pub copy_to_user : ℕ → List ℕ → (ℕ → ℕ) → ℕ × (ℕ → ℕ)
  pub all_copied :
      (address : ℕ) (bs : List ℕ) (memory : ℕ → ℕ) (j b : ℕ)
      → (copy_to_user address bs memory).0 ≡ 0
      → get_elem? bs j ≡ some b
      → (copy_to_user address bs memory).1 (address + j) ≡ b

-- The 32 bits of a number, and the int of 32 bits.
abbrev pub to_bits : ℤ → ℕ
to_bits (pos n) = n % 2 ^ 32
to_bits (negsuc n) = 2 ^ 32 - 1 - n % 2 ^ 32

abbrev pub of_bits : ℕ → ℤ
of_bits n = if ltb n (2 ^ 31) then pos n else negsuc (2 ^ 32 - 1 - n)

abbrev pub int_sum : ℤ → ℤ → ℤ
int_sum a b = of_bits (to_bits (a +ℤ b))

-- The 4 bytes of an int, the lowest first.
abbrev pub int_bytes : ℤ → List ℕ
int_bytes z =
    let n = to_bits z in
    n % 256 ∷ n / 256 % 256 ∷ n / 256 / 256 % 256 ∷ n / 256 / 256 / 256 % 256 ∷ []

abbrev pub read_int : (ℕ → ℕ) → ℕ → ℤ
read_int memory a =
    of_bits
      (memory (a + 0) + 256 * (memory (a + 1) + 256 * (memory (a + 2) + 256 * memory (a + 3))))

-- What the call returns, and the memory of the process.
unfoldable pub sys_cs3753_add : UserMemory → ℤ → ℤ → ℕ → (ℕ → ℕ) → ℕ × (ℕ → ℕ)
sys_cs3753_add u first_number second_number store_address memory =
    u.copy_to_user store_address (int_bytes (int_sum first_number second_number)) memory

-- `main` of testprogram-two.c: what it prints, the call's answer and the sum, which stands at `sum`.
unfoldable pub add_program : UserMemory → ℕ → (ℕ → ℕ) → ℕ × ℤ
unfolding sys_cs3753_add
add_program u sum memory =
    let (answer, after) = sys_cs3753_add u (pos 5) (pos 10) sum memory in
    (answer, read_int after sum)

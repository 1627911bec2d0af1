-- ===== src/Syscall/Laws.antt =====
-- The sum that the process reads.
use csci3757_operating_syste.Base.{
  ℕ, ◌+◌, ◌*◌, ◌/◌, ◌%◌, ◌^◌, ◌<◌, ◌≤◌, ◌≡◌, refl, ◌∙◌, ap, ℤ, pos, negsuc, ◌+ℤ◌, ltb, arith,
  pos_part, neg_part, Bool-cases, inl, inr, ◌⊎◌, leb, sub_ℕ,
}
use csci3757_operating_syste.Syscall.{
  UserMemory, to_bits, of_bits, int_sum, int_bytes, read_int, sys_cs3753_add,
}

-- -2^31 to 2^31 - 1
abbrev pub IsInt : ℤ → Type 0
IsInt (pos n) = n < 2 ^ 31
IsInt (negsuc n) = n < 2 ^ 31

to_bits-bound : (z : ℤ) → to_bits z < 2 ^ 32
to_bits-bound (pos n) = omega arith
to_bits-bound (negsuc n) = omega arith

of_bits-to_bits : (z : ℤ) → IsInt z → of_bits (to_bits z) ≡ z
of_bits-to_bits (pos n) h = ground (arith, h)
of_bits-to_bits (negsuc n) h = ground (arith, h)

of_bits-IsInt : (n : ℕ) → n < 2 ^ 32 → IsInt (of_bits n)
of_bits-IsInt n h = elim (Bool-cases (ltb n (2 ^ 31))) [
  | inl t ↦ rw t (ground arith)
  | inr f ↦ rw f (ground (arith, h))
]

four_bytes :
    (n : ℕ)
    → n < 2 ^ 32
    → n % 256
        + 256 * (n / 256 % 256 + 256 * (n / 256 / 256 % 256 + 256 * (n / 256 / 256 / 256 % 256)))
      ≡ n
four_bytes n h = omega (arith, h)

-- Where the copy is complete, the process reads the int that was stored.
read_stored :
    (u : UserMemory) (a b : ℤ) (address : ℕ) (memory : ℕ → ℕ)
    → (sys_cs3753_add u a b address memory).0 ≡ 0
    → read_int (sys_cs3753_add u a b address memory).1 address ≡ int_sum a b
unfolding sys_cs3753_add
read_stored u a b address memory h =
    let n = to_bits (int_sum a b) in
    let at = u.all_copied address (int_bytes (int_sum a b)) memory in
    let b0 = at 0 (n % 256) h refl in
    let b1 = at 1 (n / 256 % 256) h refl in
    let b2 = at 2 (n / 256 / 256 % 256) h refl in
    let b3 = at 3 (n / 256 / 256 / 256 % 256) h refl in
    rw (b0, b1, b2, b3)
      (ap of_bits (four_bytes n (to_bits-bound (int_sum a b)))
        ∙ of_bits-to_bits (int_sum a b) (of_bits-IsInt (to_bits (a +ℤ b)) (to_bits-bound (a +ℤ b))))

-- Where copy_to_user answers 0 and the sum of the two numbers is an int, the process reads the sum at
-- the address that it gave.
sum-Stored :
    (u : UserMemory) (a b : ℤ) (address : ℕ) (memory : ℕ → ℕ)
    → IsInt (a +ℤ b)
    → (sys_cs3753_add u a b address memory).0 ≡ 0
    → read_int (sys_cs3753_add u a b address memory).1 address ≡ a +ℤ b
sum-Stored u a b address memory small h =
    read_stored u a b address memory h ∙ of_bits-to_bits (a +ℤ b) small

-- An int that is the number, or 2^32 below or above it.
abbrev pub WrapsTo : ℤ → ℤ → Type 0
WrapsTo w z = IsInt z × ((z ≡ w) ⊎ (z +ℤ pos (2 ^ 32) ≡ w) ⊎ (z ≡ w +ℤ pos (2 ^ 32)))

abbrev Is33Bit : ℤ → Type 0
Is33Bit (pos n) = n < 2 ^ 32
Is33Bit (negsuc n) = n < 2 ^ 32

of_bits-WrapsTo : (w : ℤ) → Is33Bit w → WrapsTo w (of_bits (to_bits w))
of_bits-WrapsTo (pos n) h = (
  of_bits-IsInt (to_bits (pos n)) (to_bits-bound (pos n)),
  elim (Bool-cases (ltb n (2 ^ 31))) [
    | inl t ↦ inl (of_bits-to_bits (pos n) (ground arith))
    | inr f ↦ inr (inl (ground (arith, h, f)))
  ],
)
of_bits-WrapsTo (negsuc n) h = (
  of_bits-IsInt (to_bits (negsuc n)) (to_bits-bound (negsuc n)),
  elim (Bool-cases (ltb n (2 ^ 31))) [
    | inl t ↦ inl (of_bits-to_bits (negsuc n) (ground arith))
    | inr f ↦ inr (inr (ground (arith, h, f)))
  ],
)

sub_ℕ-Is33Bit : (x y : ℕ) → x < 2 ^ 32 → y ≤ 2 ^ 32 → Is33Bit (sub_ℕ x y)
sub_ℕ-Is33Bit x y hx hy = elim (Bool-cases (leb y x)) [
  | inl t ↦ rw t (omega (arith, hx))
  | inr f ↦ rw f (ground (arith, hy))
]

pos_part-bound : (a : ℤ) → IsInt a → pos_part a < 2 ^ 31
pos_part-bound (pos n) h = h
pos_part-bound (negsuc n) h = omega arith

neg_part-bound : (a : ℤ) → IsInt a → neg_part a ≤ 2 ^ 31
neg_part-bound (pos n) h = omega arith
neg_part-bound (negsuc n) h = omega (arith, h)

+ℤ-Is33Bit : (a b : ℤ) → IsInt a → IsInt b → Is33Bit (a +ℤ b)
+ℤ-Is33Bit a b ia ib =
    sub_ℕ-Is33Bit (pos_part a + pos_part b) (neg_part a + neg_part b)
      (omega (arith, pos_part-bound a ia, pos_part-bound b ib))
      (omega (arith, neg_part-bound a ia, neg_part-bound b ib))

int_sum-WrapsTo : (a b : ℤ) → IsInt a → IsInt b → WrapsTo (a +ℤ b) (int_sum a b)
int_sum-WrapsTo a b ia ib = of_bits-WrapsTo (a +ℤ b) (+ℤ-Is33Bit a b ia ib)

-- For any two ints, where copy_to_user answers 0, the process reads an int that is the sum, or 2^32
-- below it if it is too great, or 2^32 above it if it is too small.
pub sum-Wraps :
    (u : UserMemory) (a b : ℤ) (address : ℕ) (memory : ℕ → ℕ)
    → IsInt a
    → IsInt b
    → (sys_cs3753_add u a b address memory).0 ≡ 0
    → WrapsTo (a +ℤ b) (read_int (sys_cs3753_add u a b address memory).1 address)
sum-Wraps u a b address memory ia ib h =
    rw (read_stored u a b address memory h) (int_sum-WrapsTo a b ia ib)

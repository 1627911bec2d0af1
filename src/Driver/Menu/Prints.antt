-- ===== src/Driver/Menu/Prints.antt =====
-- What the menu prints of a line that it has written.
use csci3757_operating_syste.Base.{
  ℕ, zero, suc, ◌+◌, ◌-◌, ◌≤◌, ◌<◌, ◌≡◌, refl, ap, ◌∙◌, List, [], ◌∷◌, ◌++◌, pos, ok, arith, length,
  take, replicate, All, >>=-eq-ok, leb, ltb, true, false, ℤ,
}
use csci3757_operating_syste.Driver.{buffer_size, Device, UserCopy, splice, read, write, value}
use csci3757_operating_syste.Driver.Laws.{IsDevice, write-seek-read}
use csci3757_operating_syste.Driver.Menu.{
  read_command, write_command, seek_command, terminate, strlen, c_string, scan_line, scan_into,
  Memory, Session, round, menu,
}
use csci3757_operating_syste.Driver.Menu.Typed.{IsBlank, IsText, scan_line-IsText, IsText-length}

splice-nil : (xs : List ℕ) (i : ℕ) → splice xs i [] ≡ xs
unfolding splice
splice-nil [] i = refl
splice-nil (x ∷ xs) zero = refl
splice-nil (x ∷ xs) (suc i) = ap (◌∷◌ x) (splice-nil xs i)

c_string-cons :
    (c : ℕ) (xs text : List ℕ) → c_string xs ≡ ok text → c_string (suc c ∷ xs) ≡ ok (suc c ∷ text)
c_string-cons c xs text h =
    let (n, e, f) = >>=-eq-ok (strlen xs) (λ n. ok (take n xs)) h in
    let same : take n xs ≡ text = cc in rw (e, same) refl

-- Over a buffer whose first zero byte is at `k`, filled with spaces up to there.
blank :
    (xs : List ℕ) (k : ℕ)
    → strlen xs ≡ ok k
    → c_string (splice xs 0 (replicate k 32)) ≡ ok (replicate k 32)
unfolding splice
blank [] k h = absurd (ground arith)
blank (zero ∷ xs) zero h = refl
blank (zero ∷ xs) (suc k) h = absurd (ground arith)
blank (suc c ∷ xs) k h =
    let (n, e, f) = >>=-eq-ok (strlen xs) (λ n. ok (suc n)) h in
    let same : k ≡ suc n = cc in
    rw same (c_string-cons 31 (splice xs 0 (replicate n 32)) (replicate n 32) (blank xs n e))

line_then_blank :
    (xs : List ℕ) (k : ℕ) (line : List ℕ)
    → strlen xs ≡ ok k
    → length line ≤ k
    → All (λ c. 0 < c) line
    → c_string (splice (splice xs 0 (replicate k 32)) 0 line)
      ≡ ok (line ++ replicate (k - length line) 32)
unfolding splice
line_then_blank xs k [] h l z =
    let same : k - 0 ≡ k = omega arith in
    rw (splice-nil (splice xs 0 (replicate k 32)) 0, same) (blank xs k h)
line_then_blank [] k (c ∷ line) h l z = absurd (ground arith)
line_then_blank (zero ∷ xs) k (c ∷ line) h l z = absurd (ground arith)
line_then_blank (suc x ∷ xs) k (zero ∷ line) h l z = absurd (omega (arith, z.0))
line_then_blank (suc x ∷ xs) k (suc c ∷ line) h l z =
    let (n, e, f) = >>=-eq-ok (strlen xs) (λ n. ok (suc n)) h in
    let same : k ≡ suc n = cc in
    let rest : suc n - suc (length line) ≡ n - length line = omega arith in
    rw (same, rest)
      (c_string-cons c (splice (splice xs 0 (replicate n 32)) 0 line)
        (line ++ replicate (n - length line) 32)
        (line_then_blank xs n line e (omega (arith, l, same)) z.1))

-- The line as scanf leaves it in the buffer.
scanned :
    (xs line : List ℕ)
    → length line + 1 ≤ length xs
    → All (λ c. 0 < c) line
    → c_string (splice xs 0 (line ++ zero ∷ [])) ≡ ok line
unfolding splice
scanned [] line h z = absurd (omega arith)
scanned (x ∷ xs) [] h z = refl
scanned (x ∷ xs) (zero ∷ line) h z = absurd (omega (arith, z.0))
scanned (x ∷ xs) (suc c ∷ line) h z =
    c_string-cons c (splice xs 0 (line ++ zero ∷ [])) line (scanned xs line (omega arith) z.1)

-- Each copy between user and kernel is complete.
pub record CopiesAll (u : UserCopy) : Type 0 where
  pub in_full : (bs : List ℕ) → u.copy_from_user bs ≡ bs
  pub out_full : (bs : List ℕ) → u.copy_to_user bs ≡ bs

scanned_into :
    (xs line : List ℕ)
    → 0 < length line
    → length line + 1 ≤ buffer_size
    → scan_into xs line ≡ ok (splice xs 0 (line ++ zero ∷ []))
scanned_into xs [] h short = absurd (omega (arith, h))
scanned_into xs (c ∷ line) h short =
    let fits : leb (length (c ∷ line) + 1) buffer_size ≡ true = ground (arith, short) in
    rw fits refl

write-round :
    (u : UserCopy) (memory : Memory) (s : Session) (typed line : List ℕ) (d' : Device)
    → scan_line typed ≡ line
    → length (memory s.mallocs) ≡ buffer_size
    → 0 < length line
    → length line + 1 ≤ buffer_size
    → All (λ c. 0 < c) line
    → write u line s.device ≡ ok (value (pos (length line)), d')
    → round u memory (write_command typed) s
      ≡ ok (record s { device = d'; mallocs = s.mallocs + 1 })
unfolding round
write-round u memory s typed line d' same m some short z w =
    let into = scanned_into (memory s.mallocs) line some short in
    let stored = scanned (memory s.mallocs) line (omega (arith, m, short)) z in
    rw (same, into, round, stored, w) refl

read-round :
    (u : UserCopy) (memory : Memory) (s : Session) (line : List ℕ) (k : ℕ) (d' : Device)
    → strlen (memory s.mallocs) ≡ ok k
    → length line ≤ k
    → length line ≤ buffer_size
    → All (λ c. 0 < c) line
    → read u (length line) s.device ≡ ok (line, value (pos (length line)), d')
    → round u memory (read_command (pos (length line))) s
      ≡ ok (record s {
        device = d';
        mallocs = s.mallocs + 1;
        printed = (line ++ replicate (k - length line) 32) ∷ s.printed;
      })
unfolding round
read-round u memory s line k d' m l short z r =
    let few : ltb buffer_size (length line) ≡ false = ground arith in
    let text = line_then_blank (memory s.mallocs) k line m l z in rw (m, round, few, r, text) refl

menu-write_seek_read :
    (u : UserCopy) (memory : Memory) (typed : List ℕ) (offset n : ℤ) (s s1 s2 s3 : Session)
    → round u memory (write_command typed) s ≡ ok s1
    → round u memory (seek_command (pos 0) offset) s1 ≡ ok s2
    → round u memory (read_command n) s2 ≡ ok s3
    → menu u memory
        (write_command typed ∷ seek_command (pos 0) offset ∷ read_command n ∷ terminate ∷ [])
        s
      ≡ ok s3
unfolding menu
menu-write_seek_read u memory typed offset n s s1 s2 s3 a b c = rw (a, b, c) refl

-- Blanks are typed and then a line that does not begin with one (not longer than the buffer allows,
-- with room for it after the position, without zero bytes), and it is written, the position is set
-- back, and as many bytes as the line has are read: the menu prints the line without the blanks
-- before it, and after it spaces up to where the first zero byte was in the memory that malloc gave
-- for the read, if that is not before the end of the line. The copies are complete, and malloc
-- gives 1024 bytes.
pub menu-Prints :
    (u : UserCopy) (memory : Memory) (s : Session) (blanks line : List ℕ) (k : ℕ)
    → CopiesAll u
    → IsDevice s.device
    → All IsBlank blanks
    → IsText line
    → length (memory s.mallocs) ≡ buffer_size
    → strlen (memory (s.mallocs + 1)) ≡ ok k
    → length line ≤ k
    → length line + 1 ≤ buffer_size
    → s.device.f_pos + length line ≤ buffer_size
    → All (λ c. 0 < c) line
    → (s' : Session) × (menu u memory
          (write_command (blanks ++ line)
            ∷ seek_command (pos 0) (pos s.device.f_pos)
            ∷ read_command (pos (length line))
            ∷ terminate
            ∷ [])
          s
        ≡ ok s')
      × (s'.printed ≡ (line ++ replicate (k - length line) 32) ∷ s.printed)
unfolding round
menu-Prints u memory s blanks line k c i b t m str l short room z =
    let (d', d'', w, p, o, sk, rd) = write-seek-read u line s.device i room in
    let s1 = record s { device = d'; mallocs = s.mallocs + 1 } in
    let s2 = record s { device = d''; mallocs = s.mallocs + 1 } in
    let s3 = record s {
      device = d';
      mallocs = s.mallocs + 1 + 1;
      printed = (line ++ replicate (k - length line) 32) ∷ s.printed;
    } in
    let typed = blanks ++ line in
    let same = scan_line-IsText blanks line b t in
    let some = IsText-length line t in
    let first = write-round u memory s typed line d' same m some short z w in
    let second : round u memory (seek_command (pos 0) (pos s.device.f_pos)) s1 ≡ ok s2 =
      ap (λ x. ok (record s1 { device = x.1 })) sk in
    let whole : u.copy_to_user (u.copy_from_user line) ≡ line =
      c.out_full (u.copy_from_user line) ∙ c.in_full line in
    let reads : read u (length line) d'' ≡ ok (line, value (pos (length line)), d') =
      rd ∙ ap (λ x. ok (x, value (pos (length line)), d')) whole in
    let third = read-round u memory s2 line k d' str l (omega arith) z reads in
    (
      s3,
      menu-write_seek_read u memory typed (pos s.device.f_pos) (pos (length line)) s s1 s2 s3 first
          second third,
      refl,
    )

-- ===== src/Driver/Menu/Typed.antt =====
-- What scanf takes of a typed line: its text, without the blanks before it.
use csci3757_operating_syste.Base.{
  ℕ, ◌≤◌, ◌<◌, ◌≡◌, refl, ap, ◌∙◌, ◌≢◌, ◌⊎◌, inl, inr, true, false, List, [], ◌∷◌, ◌++◌, arith, All,
  length, ◌==◌,
}
use csci3757_operating_syste.Driver.Menu.{is_space, skip_spaces, to_newline, scan_line}

-- The space, and the characters from the tab to the carriage return.
abbrev pub IsBlank : ℕ → Type 0
IsBlank c = (c ≡ 32) ⊎ ((9 ≤ c) × (c ≤ 13))

-- The characters are on one line, and the first is no blank.
pub record IsText (text : List ℕ) : Type 0 where
  pub first : ℕ
  pub others : List ℕ
  pub whole : text ≡ first ∷ others
  pub no_space : first ≢ 32
  pub no_control : (first < 9) ⊎ (13 < first)
  pub one_line : All (λ c. c ≢ 10) text

blank-is_space : (c : ℕ) → IsBlank c → is_space c ≡ true
blank-is_space c (inl e) = ground (arith, e)
blank-is_space c (inr (l, h)) = ground (arith, l, h)

other-is_space : (c : ℕ) → c ≢ 32 → (c < 9) ⊎ (13 < c) → is_space c ≡ false
other-is_space c n (inl l) = ground (arith, n, l)
other-is_space c n (inr h) = ground (arith, n, h)

skip_spaces-blanks :
    (blanks : List ℕ) (c : ℕ) (cs : List ℕ)
    → All IsBlank blanks
    → is_space c ≡ false
    → skip_spaces (blanks ++ c ∷ cs) ≡ c ∷ cs
skip_spaces-blanks [] c cs b n = rw n refl
skip_spaces-blanks (x ∷ xs) c cs b n = rw (blank-is_space x b.0) (skip_spaces-blanks xs c cs b.1 n)

to_newline-line : (line : List ℕ) → All (λ c. c ≢ 10) line → to_newline line ≡ line
to_newline-line [] l = refl
to_newline-line (c ∷ cs) l =
    let other : (c == 10) ≡ false = ground (arith, l.0) in
    rw other (ap (◌∷◌ c) (to_newline-line cs l.1))

pub scan_line-IsText :
    (blanks line : List ℕ) → All IsBlank blanks → IsText line → scan_line (blanks ++ line) ≡ line
scan_line-IsText blanks line b t =
    let n = other-is_space t.first t.no_space t.no_control in
    let skipped : skip_spaces (blanks ++ line) ≡ line =
      rw t.whole (skip_spaces-blanks blanks t.first t.others b n) in
    ap to_newline skipped ∙ to_newline-line line t.one_line

pub IsText-length : (line : List ℕ) → IsText line → 0 < length line
IsText-length line t = rw t.whole (omega arith)

-- ===== src/Driver/Menu.antt =====
-- PA-Two/submission/testProgram.c (testApp.c is the same text): the menu over the open device. What
-- the user types is a list of commands; the prompts are left out.
pub mod Prints
pub mod Typed
use csci3757_operating_syste.Base.{
  ℕ, zero, suc, ◌+◌, Bool, true, false, Option, none, some, List, [], ◌∷◌, ◌++◌, ℤ, pos, negsuc,
  Result, ok, err, out_of_bounds, out_of_fuel, or_err, ◌>>=◌, ltb, leb, ◌==◌, ◌&&◌, ◌||◌,
  if◌then◌else◌, length, take, replicate,
}
use csci3757_operating_syste.Driver.{buffer_size, Device, UserCopy, splice, read, write, seek}

-- 'r' with a number, 'w' with all that is typed for its line (blank lines before it included, up to the
-- newline that ends it), 's' with whence and offset, 'e', and any other letter.
pub data Command : Type 0 where
  read_command : ℤ → Command
  write_command : List ℕ → Command
  seek_command : ℤ → ℤ → Command
  terminate other_letter : Command

-- The number of bytes before the first zero byte; without one, strlen leaves the buffer.
abbrev pub strlen : List ℕ → Result ℕ
strlen [] = err out_of_bounds
strlen (zero ∷ xs) = ok 0
strlen (suc c ∷ xs) = strlen xs >>= λ n. ok (suc n)

-- The string that printf or a C function sees in a buffer.
abbrev pub c_string : List ℕ → Result (List ℕ)
c_string buffer = strlen buffer >>= λ n. ok (take n buffer)

-- What malloc gives at its nth call.
abbrev pub Memory : Type 0
Memory = ℕ → List ℕ

-- The device, the number of calls of malloc, and what has been printed, newest first.
pub record Session : Type 0 where
  pub device : Device
  pub mallocs : ℕ
  pub printed : List (List ℕ)

-- case 'r': the buffer is allocated and filled before the number is tested.
abbrev pub read_case : UserCopy → Memory → ℤ → Session → Result Session
read_case u memory length_asked s =
    let fresh = memory s.mallocs in
    strlen fresh >>= λ k.
    let user_buffer = splice fresh 0 (replicate k 32) in
    let s' = record s { mallocs = s.mallocs + 1 } in
    elim length_asked [
      | negsuc n ↦ ok s'
      | pos n ↦
          if ltb buffer_size n
          then ok s'
          else read u n s.device >>= λ r. c_string (splice user_buffer 0 r.0) >>= λ text.
              ok (record s' { device = r.2; printed = text ∷ s.printed })
    ]

-- isspace: a blank, or one of the characters 9 to 13.
abbrev pub is_space : ℕ → Bool
is_space c = (c == 32) || (leb 9 c && leb c 13)

-- scanf(" %[^\n]"): the blanks at the start are skipped, newlines too, and the rest of the line is the
-- string.
abbrev pub skip_spaces : List ℕ → List ℕ
skip_spaces [] = []
skip_spaces (c ∷ cs) = let rest = skip_spaces cs in if is_space c then rest else c ∷ cs

abbrev pub to_newline : List ℕ → List ℕ
to_newline [] = []
to_newline (c ∷ cs) = let rest = to_newline cs in if c == 10 then [] else c ∷ rest

abbrev pub scan_line : List ℕ → List ℕ
scan_line typed = to_newline (skip_spaces typed)

-- The buffer after scanf, which stores the string and a zero byte, whatever its length; at the end of
-- the input, where there is no string, it stores nothing.
abbrev pub scan_into : List ℕ → List ℕ → Result (List ℕ)
scan_into buffer [] = ok buffer
scan_into buffer (c ∷ cs) =
    if leb (length (c ∷ cs) + 1) buffer_size
    then ok (splice buffer 0 ((c ∷ cs) ++ zero ∷ []))
    else err out_of_bounds

-- case 'w': the test of the length that follows cannot fail for a string that the buffer holds.
abbrev pub write_case : UserCopy → Memory → List ℕ → Session → Result Session
write_case u memory typed s = scan_into (memory s.mallocs) (scan_line typed) >>= λ user_buffer.
    c_string user_buffer >>= λ text.
    write u text s.device >>= λ r. ok (record s { device = r.1; mallocs = s.mallocs + 1 })

-- case 's': a whence below 0 is none of the driver's.
abbrev pub seek_case : ℤ → ℤ → Session → Session
seek_case (negsuc n) offset s = s
seek_case (pos whence) offset s = record s { device = (seek offset whence s.device).1 }

-- One round of the menu, if it goes on.
unfoldable pub round : UserCopy → Memory → Command → Session → Result Session
unfolding read write seek splice
round u memory (read_command n) s = read_case u memory n s
round u memory (write_command typed) s = write_case u memory typed s
round u memory (seek_command whence offset) s = ok (seek_case whence offset s)
round u memory terminate s = ok s
round u memory other_letter s = ok s

-- The loop: at the end of the input getchar gives EOF for ever and the loop does not end.
unfoldable pub menu : UserCopy → Memory → List Command → Session → Result Session
menu u memory [] s = err out_of_fuel
menu u memory (terminate ∷ cs) s = ok s
menu u memory (read_command n ∷ cs) s = round u memory (read_command n) s >>= menu u memory cs
menu u memory (write_command l ∷ cs) s = round u memory (write_command l) s >>= menu u memory cs
menu u memory (seek_command w o ∷ cs) s = round u memory (seek_command w o) s >>= menu u memory cs
menu u memory (other_letter ∷ cs) s = menu u memory cs s

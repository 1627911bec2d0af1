-- ===== src/Driver.antt =====
-- PA-Two/submission/charModule.c: the character device driver. `printk` is left out; the registration of
-- the driver is in Driver/Module.
pub mod Laws
pub mod Refinement
pub mod Menu
pub mod Module
mod Tests
use csci3757_operating_syste.Base.{
  ℕ, zero, suc, ◌+◌, ◌-◌, ◌*◌, ◌^◌, ◌≤◌, ◌≡◌, Bool, true, false, List, [], ◌∷◌, ℤ, pos, negsuc,
  sub_ℕ, ◌+ℤ◌, ◌-ℤ◌, Result, ok, err, ◌>>=◌, out_of_bounds, ltb, leb, ◌==◌, if◌then◌else◌, length,
  take, drop,
}

abbrev pub buffer_size : ℕ
buffer_size = 1024

-- `kernelBuffer`, `openCount` and the file position.
pub record Device : Type 0 where
  pub kernel_buffer : List ℕ
  pub open_count : ℕ
  pub f_pos : ℕ

-- The kernel's copy functions: of the bytes asked for, those that arrive. The driver ignores what
-- they return.
pub record UserCopy : Type 0 where
  pub copy_to_user : List ℕ → List ℕ
  pub copy_from_user : List ℕ → List ℕ
  pub copy_from_user-length : (bs : List ℕ) → length (copy_from_user bs) ≡ length bs

-- What a function returns: a number, or nothing that is determined where it ends without `return`.
pub data Answer : Type 0 where
  value : ℤ → Answer
  undetermined : Answer

-- An `int` as it is compared with a `size_t`.
abbrev pub to_size_t : ℤ → ℕ
to_size_t (pos n) = n
to_size_t (negsuc n) = 2 ^ 64 - suc n

abbrev pub is_negative : ℤ → Bool
is_negative (pos n) = false
is_negative (negsuc n) = true

-- `BUFFER_SIZE - *offset`
abbrev pub bytes_left : ℕ → ℤ
bytes_left offset = sub_ℕ buffer_size offset

-- The bytes of a buffer from `offset` on; and a buffer with the bytes at `offset` replaced.
unfoldable pub slice : List ℕ → ℕ → ℕ → List ℕ
slice buffer offset n = take n (drop offset buffer)

unfoldable pub splice : List ℕ → ℕ → List ℕ → List ℕ
splice [] offset bs = []
splice (x ∷ buffer) (suc offset) bs = x ∷ splice buffer offset bs
splice (x ∷ buffer) zero [] = x ∷ buffer
splice (x ∷ buffer) zero (b ∷ bs) = b ∷ splice buffer zero bs

-- An access of `n` bytes from `offset` has to stay in the buffer.
abbrev pub within : ℕ → ℕ → Bool
within offset n = leb (offset + n) buffer_size

-- The bytes that the user gets, the answer, and the device.
unfoldable pub read : UserCopy → ℕ → Device → Result (List ℕ × Answer × Device)
unfolding slice
read u n d =
    if ltb (to_size_t (bytes_left d.f_pos)) n
    then (if is_negative (bytes_left d.f_pos)
        then ok ([], value (negsuc 0), d)
        else ok ([], undetermined, d))
    else if within d.f_pos n
    then ok (
      u.copy_to_user (slice d.kernel_buffer d.f_pos n),
      value (pos n),
      record d { f_pos = d.f_pos + n },
    )
    else err out_of_bounds

unfoldable pub write : UserCopy → List ℕ → Device → Result (Answer × Device)
unfolding splice
write u bs d =
    if ltb (to_size_t (bytes_left d.f_pos)) (length bs)
    then ok (value (negsuc 0), d)
    else if within d.f_pos (length bs)
    then ok (
      value (pos (length bs)),
      record d {
        kernel_buffer = splice d.kernel_buffer d.f_pos (u.copy_from_user bs);
        f_pos = d.f_pos + length bs;
      },
    )
    else err out_of_bounds

unfoldable pub open_device : Device → Answer × Device
open_device d = (value (pos 0), record d { open_count = d.open_count + 1 })

unfoldable pub close_device : Device → Answer × Device
close_device d = (value (pos 0), d)

-- The bounds check of `pa2_char_driver_seek`, and the new position.
abbrev pub place : Device → ℤ → Answer × Device
place d (negsuc n) = (value (negsuc 0), d)
place d (pos n) =
    if ltb buffer_size n then (value (negsuc 0), d) else (value (pos n), record d { f_pos = n })

-- whence: 0 from the start, 1 from the position, 2 back from the end.
unfoldable pub seek : ℤ → ℕ → Device → Answer × Device
seek offset zero d = place d offset
seek offset (suc zero) d = place d (pos d.f_pos +ℤ offset)
seek offset (suc (suc zero)) d = place d (pos buffer_size -ℤ offset)
seek offset (suc (suc (suc whence))) d = (value (negsuc 0), d)

-- The calls that `pa2_char_driver_file_operations` offers, and what each leaves of the device.
pub data Call : Type 0 where
  open_call close_call : Call
  read_call : ℕ → Call
  write_call : List ℕ → Call
  seek_call : ℤ → ℕ → Call

abbrev pub call : UserCopy → Call → Device → Result Device
call u open_call d = ok ((open_device d).1)
call u close_call d = ok ((close_device d).1)
call u (read_call n) d = read u n d >>= λ r. ok (r.2)
call u (write_call bs) d = write u bs d >>= λ r. ok (r.1)
call u (seek_call offset whence) d = ok ((seek offset whence d).1)

unfoldable pub calls : UserCopy → List Call → Device → Result Device
calls u [] d = ok d
calls u (c ∷ cs) d = call u c d >>= calls u cs

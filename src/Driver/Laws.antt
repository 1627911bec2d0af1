-- ===== src/Driver/Laws.antt =====
-- The driver stays inside of its buffer, and what is written can be read back.
use csci3757_operating_syste.Base.{
  ℕ, zero, suc, ◌+◌, ◌-◌, ◌≤◌, ◌<◌, ◌≡◌, refl, ◌∙◌, ◌⊎◌, inl, inr, List, [], ◌∷◌, ℤ, pos, negsuc,
  ◌+ℤ◌, ◌-ℤ◌, ok, arith, length, ltb, leb, Bool-cases, get_elem?, ap, ◌>>=◌, sym,
}
use csci3757_operating_syste.Driver.{
  buffer_size, Device, UserCopy, value, undetermined, bytes_left, to_size_t, slice, splice, read,
  write, open_device, close_device, Call, open_call, close_call, read_call, write_call, seek_call,
  call, calls, place, seek,
}

pub record IsDevice (d : Device) : Type 0 where
  pub whole : length d.kernel_buffer ≡ buffer_size
  pub inside : d.f_pos ≤ buffer_size

length-splice : (xs : List ℕ) (i : ℕ) (bs : List ℕ) → length (splice xs i bs) ≡ length xs
unfolding splice
length-splice [] i bs = refl
length-splice (x ∷ xs) (suc i) bs = omega (arith, length-splice xs i bs)
length-splice (x ∷ xs) zero [] = refl
length-splice (x ∷ xs) zero (b ∷ bs) = omega (arith, length-splice xs zero bs)

slice-splice :
    (xs : List ℕ) (i : ℕ) (bs : List ℕ)
    → i + length bs ≤ length xs
    → slice (splice xs i bs) i (length bs) ≡ bs
unfolding slice splice
slice-splice [] zero [] h = refl
slice-splice [] (suc i) bs h = absurd (omega arith)
slice-splice [] zero (b ∷ bs) h = absurd (omega arith)
slice-splice (x ∷ xs) (suc i) bs h = slice-splice xs i bs (omega arith)
slice-splice (x ∷ xs) zero [] h = refl
slice-splice (x ∷ xs) zero (b ∷ bs) h = ap (◌∷◌ b) (slice-splice xs zero bs (omega arith))

-- Outside of the range written the buffer is as before.
pub splice-other :
    (xs : List ℕ) (i : ℕ) (bs : List ℕ) (j : ℕ)
    → (j < i) ⊎ (i + length bs ≤ j)
    → get_elem? (splice xs i bs) j ≡ get_elem? xs j
unfolding splice
splice-other [] i bs j h = refl
splice-other (x ∷ xs) (suc i) bs zero h = refl
splice-other (x ∷ xs) (suc i) bs (suc j) h = splice-other xs i bs j (omega arith)
splice-other (x ∷ xs) zero [] j h = refl
splice-other (x ∷ xs) zero (b ∷ bs) zero h = absurd (omega arith)
splice-other (x ∷ xs) zero (b ∷ bs) (suc j) h = splice-other xs zero bs j (omega arith)

to_size_t-bytes_left :
    (offset : ℕ) → offset ≤ buffer_size → to_size_t (bytes_left offset) ≡ buffer_size - offset
to_size_t-bytes_left offset h = ground arith

pub read_fits :
    (u : UserCopy) (n : ℕ) (d : Device)
    → d.f_pos + n ≤ buffer_size
    → read u n d
      ≡ ok (
        u.copy_to_user (slice d.kernel_buffer d.f_pos n),
        value (pos n),
        record d { f_pos = d.f_pos + n },
      )
unfolding read slice
read_fits u n d h = ground arith

pub read_short :
    (u : UserCopy) (n : ℕ) (d : Device)
    → d.f_pos ≤ buffer_size
    → buffer_size < d.f_pos + n
    → read u n d ≡ ok ([], undetermined, d)
unfolding read slice
read_short u n d i h = ground arith

pub write_fits :
    (u : UserCopy) (bs : List ℕ) (d : Device)
    → d.f_pos + length bs ≤ buffer_size
    → write u bs d
      ≡ ok (
        value (pos (length bs)),
        record d {
          kernel_buffer = splice d.kernel_buffer d.f_pos (u.copy_from_user bs);
          f_pos = d.f_pos + length bs;
        },
      )
unfolding write
write_fits u bs d h = ground arith

pub write_full :
    (u : UserCopy) (bs : List ℕ) (d : Device)
    → d.f_pos ≤ buffer_size
    → buffer_size < d.f_pos + length bs
    → write u bs d ≡ ok (value (negsuc 0), d)
unfolding write
write_full u bs d i h = ground arith

place-IsDevice : (d : Device) (z : ℤ) → IsDevice d → IsDevice ((place d z).1)
place-IsDevice d (negsuc n) i = i
place-IsDevice d (pos n) i = elim (Bool-cases (ltb buffer_size n)) [
  | inl t ↦ rw t i
  | inr f ↦ rw f (record { whole = i.whole; inside = ground arith })
]

pub seek-IsDevice :
    (offset : ℤ) (whence : ℕ) (d : Device) → IsDevice d → IsDevice ((seek offset whence d).1)
unfolding seek
seek-IsDevice offset zero d i = place-IsDevice d offset i
seek-IsDevice offset (suc zero) d i = place-IsDevice d (pos d.f_pos +ℤ offset) i
seek-IsDevice offset (suc (suc zero)) d i = place-IsDevice d (pos buffer_size -ℤ offset) i
seek-IsDevice offset (suc (suc (suc whence))) d i = i

pub call-IsDevice :
    (u : UserCopy) (c : Call) (d : Device)
    → IsDevice d
    → (d' : Device) × (call u c d ≡ ok d') × IsDevice d'
unfolding open_device close_device
call-IsDevice u open_call d i = (
  record d { open_count = d.open_count + 1 },
  refl,
  record { whole = i.whole; inside = i.inside },
)
call-IsDevice u close_call d i = (d, refl, i)
call-IsDevice u (seek_call offset whence) d i =
    ((seek offset whence d).1, refl, seek-IsDevice offset whence d i)
call-IsDevice u (read_call n) d i = elim (Bool-cases (leb (d.f_pos + n) buffer_size)) [
  | inl t ↦ (
    record d { f_pos = d.f_pos + n },
    rw (read_fits u n d (ground arith)) refl,
    record { whole = i.whole; inside = ground arith },
  )
  | inr f ↦ (d, rw (read_short u n d i.inside (ground arith)) refl, i)
]
call-IsDevice u (write_call bs) d i = elim (Bool-cases (leb (d.f_pos + length bs) buffer_size)) [
  | inl t ↦ (
    record d {
      kernel_buffer = splice d.kernel_buffer d.f_pos (u.copy_from_user bs);
      f_pos = d.f_pos + length bs;
    },
    rw (write_fits u bs d (ground arith)) refl,
    record {
      whole = length-splice d.kernel_buffer d.f_pos (u.copy_from_user bs) ∙ i.whole;
      inside = ground arith;
    },
  )
  | inr f ↦ (d, rw (write_full u bs d i.inside (ground arith)) refl, i)
]

-- Any sequence of calls of the driver, with any lengths, offsets and bytes, from a device whose
-- buffer has 1024 bytes and whose position is at most 1024, stays in the buffer (no copy leaves it)
-- and ends in such a device.
pub calls-IsDevice :
    (u : UserCopy) (cs : List Call) (d : Device)
    → IsDevice d
    → (d' : Device) × (calls u cs d ≡ ok d') × IsDevice d'
unfolding calls
calls-IsDevice u [] d i = (d, refl, i)
calls-IsDevice u (c ∷ cs) d i =
    let (d', e, i') = call-IsDevice u c d i in
    let (d'', e', i'') = calls-IsDevice u cs d' i' in (d'', ap (λ r. r >>= calls u cs) e ∙ e', i'')

-- The buffer holds what was copied into it.
pub slice_written :
    (u : UserCopy) (bs : List ℕ) (d : Device)
    → IsDevice d
    → d.f_pos + length bs ≤ buffer_size
    → slice (splice d.kernel_buffer d.f_pos (u.copy_from_user bs)) d.f_pos (length bs)
      ≡ u.copy_from_user bs
slice_written u bs d i h =
    let l = u.copy_from_user-length bs in
    let fits : d.f_pos + length (u.copy_from_user bs) ≤ length d.kernel_buffer =
      ground (arith, i.whole) in
    rw (sym l) (slice-splice d.kernel_buffer d.f_pos (u.copy_from_user bs) fits)

-- A write that fits advances the position by its length and changes no byte outside of its range; a
-- seek back to where it began (whence 0) and a read of the same length deliver what was written, and
-- the device is then as it was after the write.
pub write-seek-read :
    (u : UserCopy) (bs : List ℕ) (d : Device)
    → IsDevice d
    → d.f_pos + length bs ≤ buffer_size
    → (d' d'' : Device) × (write u bs d ≡ ok (value (pos (length bs)), d'))
      × (d'.f_pos ≡ d.f_pos + length bs)
      × ((j : ℕ)
          → (j < d.f_pos) ⊎ (d.f_pos + length bs ≤ j)
          → get_elem? d'.kernel_buffer j ≡ get_elem? d.kernel_buffer j)
      × (seek (pos d.f_pos) 0 d' ≡ (value (pos d.f_pos), d''))
      × (read u (length bs) d''
          ≡ ok (u.copy_to_user (u.copy_from_user bs), value (pos (length bs)), d'))
unfolding seek
write-seek-read u bs d i h =
    let l = u.copy_from_user-length bs in
    let new = splice d.kernel_buffer d.f_pos (u.copy_from_user bs) in
    let after = record d { kernel_buffer = new; f_pos = d.f_pos + length bs } in
    let back = record d { kernel_buffer = new } in
    let e = slice_written u bs d i h in
    (
      after,
      back,
      write_fits u bs d h,
      refl,
      (λ j o. splice-other d.kernel_buffer d.f_pos (u.copy_from_user bs) j (ground arith)),
      ground (arith, i.inside),
      read_fits u (length bs) back h
          ∙ ap (λ x. ok (u.copy_to_user x, value (pos (length bs)), after)) e,
    )

-- Within the buffer a read is all or nothing: if the bytes asked for are there, it delivers them and
-- advances; otherwise it delivers none, leaves the position, and its answer is not determined.
pub read_all_or_none :
    (u : UserCopy) (n : ℕ) (d : Device)
    → IsDevice d
    → ((d.f_pos + n ≤ buffer_size)
        × (read u n d
            ≡ ok (
              u.copy_to_user (slice d.kernel_buffer d.f_pos n),
              value (pos n),
              record d { f_pos = d.f_pos + n },
            )))
      ⊎ ((buffer_size < d.f_pos + n) × (read u n d ≡ ok ([], undetermined, d)))
read_all_or_none u n d i = elim (Bool-cases (leb (d.f_pos + n) buffer_size)) [
  | inl t ↦ inl (ground arith, read_fits u n d (ground arith))
  | inr f ↦ inr (ground arith, read_short u n d i.inside (ground arith))
]

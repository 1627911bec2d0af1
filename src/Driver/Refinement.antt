-- ===== src/Driver/Refinement.antt =====
-- The driver as a file: what can be seen of the device is a byte at each index, and a position.
use mathlib.Core.Path.{fun_ext}
use csci3757_operating_syste.Base.{
  ℕ, zero, suc, ◌+◌, ◌-◌, ◌≤◌, ◌<◌, ◌≡◌, refl, ◌∙◌, ap, ◌⊎◌, inl, inr, false, ◌&&◌, Option, none,
  some, List, [], ◌∷◌, ℤ, pos, negsuc, ◌+ℤ◌, ◌-ℤ◌, ok, ◌>>=◌, arith, length, ltb, leb,
  if◌then◌else◌, get_elem?, Bool-cases,
}
use csci3757_operating_syste.Driver.{
  buffer_size, Device, UserCopy, splice, open_device, close_device, place, seek, Call, open_call,
  close_call, read_call, write_call, seek_call, call, calls,
}
use csci3757_operating_syste.Driver.Laws.{
  IsDevice, read_fits, read_short, write_fits, write_full, call-IsDevice, seek-IsDevice,
  splice-other,
}

pub record FileView : Type 0 where
  pub contents : ℕ → Option ℕ
  pub position : ℕ

abbrev pub view : Device → FileView
view d = record { contents = λ j. get_elem? d.kernel_buffer j; position = d.f_pos }

-- Where a seek wants to go, by the meaning of whence that the driver documents.
abbrev pub target : ℤ → ℕ → ℕ → Option ℤ
target offset zero p = some offset
target offset (suc zero) p = some (pos p +ℤ offset)
target offset (suc (suc zero)) p = some (pos buffer_size -ℤ offset)
target offset (suc (suc (suc whence))) p = none

abbrev pub settle : Option ℤ → ℕ → ℕ
settle none p = p
settle (some (negsuc n)) p = p
settle (some (pos n)) p = if leb n buffer_size then n else p

abbrev pub overwrite : (ℕ → Option ℕ) → ℕ → List ℕ → ℕ → Option ℕ
overwrite c p bs j = if leb p j && ltb j (p + length bs) then get_elem? bs (j - p) else c j

-- What a call means for the file: a request that does not fit changes nothing.
abbrev pub file_call : UserCopy → Call → FileView → FileView
file_call u open_call f = f
file_call u close_call f = f
file_call u (read_call n) f = record f {
  position = if leb (f.position + n) buffer_size then f.position + n else f.position;
}
file_call u (write_call bs) f =
    if leb (f.position + length bs) buffer_size
    then record {
      contents = overwrite f.contents f.position (u.copy_from_user bs);
      position = f.position + length bs;
    }
    else f
file_call u (seek_call offset whence) f = record f {
  position = settle (target offset whence f.position) f.position;
}

unfoldable pub file_calls : UserCopy → List Call → FileView → FileView
file_calls u [] f = f
file_calls u (c ∷ cs) f = file_calls u cs (file_call u c f)

splice-inside :
    (xs : List ℕ) (i : ℕ) (bs : List ℕ) (j : ℕ)
    → i + length bs ≤ length xs
    → i ≤ j
    → j < i + length bs
    → get_elem? (splice xs i bs) j ≡ get_elem? bs (j - i)
unfolding splice
splice-inside [] i bs j h l m = absurd (omega arith)
splice-inside (x ∷ xs) (suc i) bs zero h l m = absurd (omega arith)
splice-inside (x ∷ xs) (suc i) bs (suc j) h l m =
    let e : suc j - suc i ≡ j - i = omega arith in
    rw e (splice-inside xs i bs j (omega arith) (omega arith) (omega arith))
splice-inside (x ∷ xs) zero [] j h l m = absurd (omega arith)
splice-inside (x ∷ xs) zero (b ∷ bs) zero h l m = refl
splice-inside (x ∷ xs) zero (b ∷ bs) (suc j) h l m =
    let same : suc j - 0 ≡ suc j = omega arith in
    let same' : j - 0 ≡ j = omega arith in
    rw same (
      splice-inside xs zero bs j (omega arith) (omega arith) (omega arith)
      ∙ ap (get_elem? bs) same')

outside : (i j k : ℕ) → (leb i j && ltb j k) ≡ false → (j < i) ⊎ (k ≤ j)
outside i j k e = elim (Bool-cases (ltb j i)) [
  | inl t ↦ inl (ground arith)
  | inr t ↦ inr (ground arith)
]

splice-overwrite :
    (xs : List ℕ) (i : ℕ) (bs : List ℕ) (j : ℕ)
    → i + length bs ≤ length xs
    → get_elem? (splice xs i bs) j ≡ overwrite (λ k. get_elem? xs k) i bs j
splice-overwrite xs i bs j h = elim (Bool-cases (leb i j && ltb j (i + length bs))) [
  | inl e ↦ rw e (splice-inside xs i bs j h (ground arith) (ground arith))
  | inr e ↦ rw e (splice-other xs i bs j (outside i j (i + length bs) e))
]

place-view :
    (d : Device) (z : ℤ)
    → view ((place d z).1) ≡ record (view d) { position = settle (some z) d.f_pos }
place-view d (negsuc n) = refl
place-view d (pos n) = ground arith

seek-view :
    (offset : ℤ) (whence : ℕ) (d : Device)
    → view ((seek offset whence d).1)
      ≡ record (view d) { position = settle (target offset whence d.f_pos) d.f_pos }
unfolding seek
seek-view offset zero d = place-view d offset
seek-view offset (suc zero) d = place-view d (pos d.f_pos +ℤ offset)
seek-view offset (suc (suc zero)) d = place-view d (pos buffer_size -ℤ offset)
seek-view offset (suc (suc (suc whence))) d = refl

-- The result of a call, seen as a file.
unfoldable pub Refines : UserCopy → Call → Device → Type 0
Refines u c d =
    (d' : Device) × (call u c d ≡ ok d') × IsDevice d' × (view d' ≡ file_call u c (view d))

read-Refines : (u : UserCopy) (n : ℕ) (d : Device) → IsDevice d → Refines u (read_call n) d
unfolding Refines
read-Refines u n d i =
    let (d', e, i') = call-IsDevice u (read_call n) d i in
    (
      d',
      e,
      i',
      elim (Bool-cases (leb (d.f_pos + n) buffer_size)) [
        | inl t ↦
            let fits : call u (read_call n) d ≡ ok (record d { f_pos = d.f_pos + n }) =
              rw (read_fits u n d (ground arith)) refl in
            let same : d' ≡ record d { f_pos = d.f_pos + n } = cc in rw (same, t) refl
        | inr f ↦
            let stays : call u (read_call n) d ≡ ok d =
              rw (read_short u n d i.inside (ground arith)) refl in
            let same : d' ≡ d = cc in rw (same, f) refl
      ],
    )

write-Refines : (u : UserCopy) (bs : List ℕ) (d : Device) → IsDevice d → Refines u (write_call bs) d
unfolding Refines
write-Refines u bs d i =
    let (d', e, i') = call-IsDevice u (write_call bs) d i in
    (
      d',
      e,
      i',
      elim (Bool-cases (leb (d.f_pos + length bs) buffer_size)) [
        | inl t ↦
            let new = record d {
              kernel_buffer = splice d.kernel_buffer d.f_pos (u.copy_from_user bs);
              f_pos = d.f_pos + length bs;
            } in
            let fits : call u (write_call bs) d ≡ ok new =
              rw (write_fits u bs d (ground arith)) refl in
            let same : d' ≡ new = cc in
            rw (same, t)
              (λ k. record {
                contents =
                    fun_ext
                      (λ j.
                        splice-overwrite d.kernel_buffer d.f_pos (u.copy_from_user bs) j
                          (ground (arith, i.whole, u.copy_from_user-length bs)))
                      k;
                position = d.f_pos + length bs;
              })
        | inr f ↦
            let stays : call u (write_call bs) d ≡ ok d =
              rw (write_full u bs d i.inside (ground arith)) refl in
            let same : d' ≡ d = cc in rw (same, f) refl
      ],
    )

call-Refines : (u : UserCopy) (c : Call) (d : Device) → IsDevice d → Refines u c d
unfolding Refines open_device close_device
call-Refines u open_call d i = (
  record d { open_count = d.open_count + 1 },
  refl,
  record { whole = i.whole; inside = i.inside },
  refl,
)
call-Refines u close_call d i = (d, refl, i, refl)
call-Refines u (read_call n) d i = read-Refines u n d i
call-Refines u (write_call bs) d i = write-Refines u bs d i
call-Refines u (seek_call offset whence) d i =
    ((seek offset whence d).1, refl, seek-IsDevice offset whence d i, seek-view offset whence d)

-- From a device whose buffer has 1024 bytes and whose position is at most 1024, any sequence of calls
-- succeeds and does to the contents and the position what the calls mean for a file of 1024 bytes: a
-- read that fits advances the position, a write that fits also replaces the bytes, a seek with a
-- place from 0 to 1024 goes there, and every other request changes nothing.
pub calls-Refines :
    (u : UserCopy) (cs : List Call) (d : Device)
    → IsDevice d
    → (d' : Device) × (calls u cs d ≡ ok d') × (view d' ≡ file_calls u cs (view d))
unfolding calls file_calls Refines
calls-Refines u [] d i = (d, refl, refl)
calls-Refines u (c ∷ cs) d i =
    let (d', e, i', v) = call-Refines u c d i in
    let (d'', e', v') = calls-Refines u cs d' i' in
    (d'', ap (λ r. r >>= calls u cs) e ∙ e', v' ∙ ap (file_calls u cs) v)

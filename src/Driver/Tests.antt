-- ===== src/Driver/Tests.antt =====
-- The driver on a buffer of zeros whose position is near the end.
mod Menu
mod Module
use csci3757_operating_syste.Driver.Refinement.{view, file_calls, calls-Refines}
use csci3757_operating_syste.Base.{
  ℕ, ◌≤◌, ◌<◌, ◌≡◌, refl, ◌⊎◌, List, [], ◌∷◌, pos, negsuc, ok, arith, replicate, length-replicate,
  get_elem?,
}
use csci3757_operating_syste.Driver.{
  buffer_size, Device, UserCopy, value, undetermined, slice, read, write, seek, Call, open_call,
  read_call, write_call, seek_call, calls,
}
use csci3757_operating_syste.Driver.Laws.{
  IsDevice, calls-IsDevice, write-seek-read, read_all_or_none,
}

abbrev pub near_end : Device
near_end = record { kernel_buffer = replicate 1024 0; open_count = 1; f_pos = 1020 }

abbrev pub whole_copy : UserCopy
whole_copy = record {
  copy_to_user = λ bs. bs;
  copy_from_user = λ bs. bs;
  copy_from_user-length = λ bs. refl;
}

pub near_end-IsDevice : IsDevice near_end
near_end-IsDevice = record { whole = length-replicate {A = ℕ} 1024 0; inside = omega arith }

abbrev some_calls : List Call
some_calls = open_call ∷ write_call (1 ∷ 2 ∷ []) ∷ seek_call (negsuc 3) 1 ∷ read_call 7 ∷ []

-- Too long a write is refused, a seek before the buffer leaves the position.
refused : write whole_copy (1 ∷ 2 ∷ 3 ∷ 4 ∷ 5 ∷ []) near_end ≡ ok (value (negsuc 0), near_end)
unfolding write
refused = refl

before : seek (negsuc 0) 0 near_end ≡ (value (negsuc 0), near_end)
unfolding seek
before = refl

calls-IsDevice_example :
    (d' : Device) × (calls whole_copy some_calls near_end ≡ ok d') × IsDevice d'
calls-IsDevice_example = calls-IsDevice whole_copy some_calls near_end near_end-IsDevice

write-seek-read_example :
    (d' d'' : Device) × (write whole_copy (7 ∷ 8 ∷ []) near_end ≡ ok (value (pos 2), d'))
    × (d'.f_pos ≡ 1022)
    × ((j : ℕ)
        → (j < 1020) ⊎ (1022 ≤ j)
        → get_elem? d'.kernel_buffer j ≡ get_elem? (replicate 1024 0) j)
    × (seek (pos 1020) 0 d' ≡ (value (pos 1020), d''))
    × (read whole_copy 2 d'' ≡ ok (7 ∷ 8 ∷ [], value (pos 2), d'))
write-seek-read_example =
    write-seek-read whole_copy (7 ∷ 8 ∷ []) near_end near_end-IsDevice (omega arith)

read_all_or_none_example :
    ((1029 ≤ buffer_size)
      × (read whole_copy 9 near_end
          ≡ ok (slice (replicate 1024 0) 1020 9, value (pos 9), record near_end { f_pos = 1029 })))
    ⊎ ((buffer_size < 1029) × (read whole_copy 9 near_end ≡ ok ([], undetermined, near_end)))
read_all_or_none_example = read_all_or_none whole_copy 9 near_end near_end-IsDevice

calls-Refines_example :
    (d' : Device) × (calls whole_copy some_calls near_end ≡ ok d')
    × (view d' ≡ file_calls whole_copy some_calls (view near_end))
calls-Refines_example = calls-Refines whole_copy some_calls near_end near_end-IsDevice

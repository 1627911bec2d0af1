-- ===== src/Driver/Module/Sharing.antt =====
-- Two open files share the buffer.
use csci3757_operating_syste.Base.{
  ℕ, ◌+◌, ◌≤◌, ◌≡◌, refl, ◌∙◌, ap, some, List, pos, ok, length, get_elem?, ◌≢◌, get_elem?-set_ne,
  get_elem?-set_self, get_elem?-lt, false, ◌&&◌, arith,
}
use csci3757_operating_syste.Driver.{
  buffer_size, Device, UserCopy, value, splice, read, write_call, slice,
}
use csci3757_operating_syste.Driver.Laws.{IsDevice, write_fits, read_fits, slice_written}
use csci3757_operating_syste.Driver.Module.{
  Module, device, put_device, on_file, write_file, event, is_null, copies, bytes,
}
use csci3757_operating_syste.Driver.Module.Laws.{IsModule}

-- On a loaded module with two files at the same position, a write that fits through the first advances
-- it alone; then a read of as many bytes through the second delivers what was written.
pub write_file-Shared :
    (u : UserCopy) (i j p : ℕ) (bs : List ℕ) (m : Module)
    → IsModule m
    → i ≢ j
    → get_elem? m.files i ≡ some (some p)
    → get_elem? m.files j ≡ some (some p)
    → p + length bs ≤ buffer_size
    → (m' : Module) × (event u (write_file i bs) m ≡ ok m')
      × (get_elem? m'.files i ≡ some (some (p + length bs)))
      × (get_elem? m'.files j ≡ some (some p))
      × (read u (length bs) (device m' p)
          ≡ ok (
            u.copy_to_user (u.copy_from_user bs),
            value (pos (length bs)),
            device m' (p + length bs),
          ))
unfolding event on_file
write_file-Shared u i j p bs m v ne first second fits =
    let (xs, block, whole) = v.buffer in
    let good : IsDevice (device m p) = record {
      whole = rw block whole;
      inside = omega (arith, fits);
    } in
    let after : Device = record (device m p) {
      kernel_buffer = splice (device m p).kernel_buffer p (u.copy_from_user bs);
      f_pos = p + length bs;
    } in
    let safe : (is_null m.kernel_buffer && copies (write_call bs) p) ≡ false = rw block refl in
    let next : Module = put_device m i after in
    let shared : bytes next.kernel_buffer ≡ after.kernel_buffer = rw block refl in
    let written = slice_written u bs (device m p) good fits in
    (
      next,
      rw (first, on_file, safe) (rw (write_fits u bs (device m p) fits) refl),
      get_elem?-set_self m.files i (some (p + length bs)) (get_elem?-lt m.files i (some p) first),
      get_elem?-set_ne m.files i j (some (p + length bs)) ne ∙ second,
      read_fits u (length bs) (device next p) fits
          ∙ ap (λ x. ok (u.copy_to_user x, value (pos (length bs)), device next (p + length bs)))
              (ap (λ x. slice x p (length bs)) shared ∙ written),
    )

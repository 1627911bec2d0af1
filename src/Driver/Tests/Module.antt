-- ===== src/Driver/Tests/Module.antt =====
-- The driver loaded, with two files open, and without memory for its buffer.
use csci3757_operating_syste.Base.{
  ℕ, ◌≡◌, refl, false, some, none, List, [], ◌∷◌, pos, negsuc, ok, err, null_pointer, replicate,
  length-replicate, get_elem?, arith, true,
}
use csci3757_operating_syste.Driver.{value, read}
use csci3757_operating_syste.Driver.Module.{
  Kernel, Module, fresh, init_module, exit_module, device, Event, open_file, close_file, read_file,
  write_file, seek_file, event, events,
}
use csci3757_operating_syste.Driver.Module.Laws.{IsModule, module_life, write_to_null}
use csci3757_operating_syste.Driver.Module.Sharing.{write_file-Shared}
use csci3757_operating_syste.Driver.Tests.{whole_copy}

abbrev zeros : List ℕ
zeros = replicate 1024 0

abbrev with_memory : Kernel
with_memory = record {
  register_chrdev = pos 0;
  kmalloc = some zeros;
  kmalloc-length =
      λ bs e. let same : zeros ≡ bs = cc in rw⁻¹ same (length-replicate {A = ℕ} 1024 0);
}

abbrev without_memory : Kernel
without_memory = record { register_chrdev = pos 0; kmalloc = none; kmalloc-length = λ bs e. cc }

abbrev some_events : List Event
some_events =
    open_file
    ∷ open_file
    ∷ write_file 0 (7 ∷ 8 ∷ [])
    ∷ read_file 1 2
    ∷ seek_file 1 (negsuc 3) 1
    ∷ close_file 0
    ∷ []

module_life_example :
    ((init_module with_memory fresh).0 ≡ pos 0)
    × ((m : Module) × (events whole_copy some_events (init_module with_memory fresh).1 ≡ ok m)
        × IsModule m
        × ((exit_module m).registered ≡ false)
        × ((exit_module m).blocks ≡ 0))
module_life_example = module_life whole_copy with_memory zeros some_events refl refl

write_to_null_example :
    ((init_module without_memory fresh).0 ≡ pos 0)
    × (events whole_copy
          (open_file ∷ write_file 0 (7 ∷ 8 ∷ []) ∷ [])
          (init_module without_memory fresh).1
        ≡ err null_pointer)
write_to_null_example = write_to_null whole_copy without_memory (7 ∷ 8 ∷ []) refl refl (omega arith)

abbrev two_files : Module
two_files = record {
  registered = true;
  kernel_buffer = some zeros;
  blocks = 1;
  open_count = 2;
  files = some 5 ∷ some 5 ∷ [];
}

two_files-IsModule : IsModule two_files
two_files-IsModule = record {
  on = refl;
  one_block = refl;
  buffer = (zeros, refl, length-replicate {A = ℕ} 1024 0);
  positions = (omega arith, (omega arith, tt));
}

write_file-Shared_example :
    (m' : Module) × (event whole_copy (write_file 0 (7 ∷ 8 ∷ [])) two_files ≡ ok m')
    × (get_elem? m'.files 0 ≡ some (some 7))
    × (get_elem? m'.files 1 ≡ some (some 5))
    × (read whole_copy 2 (device m' 5) ≡ ok (7 ∷ 8 ∷ [], value (pos 2), device m' 7))
write_file-Shared_example =
    write_file-Shared whole_copy 0 1 5 (7 ∷ 8 ∷ []) two_files two_files-IsModule
      (λ e. omega (arith, e)) refl refl (omega arith)

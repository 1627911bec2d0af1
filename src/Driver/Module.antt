-- ===== src/Driver/Module.antt =====
-- PA-Two/submission/charModule.c as a module of the kernel: `pa2_char_driver_init`,
-- `pa2_char_driver_exit`, and the files that are open in between, which share the buffer and have a
-- position each.
pub mod Laws
pub mod Sharing
use csci3757_operating_syste.Base.{
  ℕ, Bool, true, false, not, Option, none, some, List, [], ◌∷◌, ◌++◌, ℤ, pos, ◌-◌, ◌+◌, Result, ok,
  err, null_pointer, ◌>>=◌, ltb, ◌&&◌, if◌then◌else◌, length, get_elem?, set, ◌≡◌,
}
use csci3757_operating_syste.Driver.{
  buffer_size, Device, UserCopy, to_size_t, is_negative, bytes_left, Call, open_call, close_call,
  read_call, write_call, seek_call, call,
}

-- What the kernel answers: register_chrdev, for the number and the name of the device, and kmalloc, for
-- 1024 bytes, with `none` for NULL.
pub record Kernel : Type 0 where
  pub register_chrdev : ℤ
  pub kmalloc : Option (List ℕ)
  pub kmalloc-length : (bs : List ℕ) → kmalloc ≡ some bs → length bs ≡ buffer_size

-- Whether the device is registered, `kernelBuffer`, the blocks that are allocated, `openCount`, and the
-- position of each file, with `none` for one that is closed.
pub record Module : Type 0 where
  pub registered : Bool
  pub kernel_buffer : Option (List ℕ)
  pub blocks : ℕ
  pub open_count : ℕ
  pub files : List (Option ℕ)

abbrev pub fresh : Module
fresh = record { registered = false; kernel_buffer = none; blocks = 0; open_count = 0; files = [] }

abbrev pub block_count : Option (List ℕ) → ℕ
block_count none = 0
block_count (some bs) = 1

-- `pa2_char_driver_init`: what kmalloc returns is not tested.
unfoldable pub init_module : Kernel → Module → ℤ × Module
init_module k m = if is_negative k.register_chrdev then (k.register_chrdev, m) else (
  pos 0,
  record m {
    registered = true;
    kernel_buffer = k.kmalloc;
    blocks = m.blocks + block_count k.kmalloc;
  },
)

-- `pa2_char_driver_exit`: kfree of NULL does nothing.
unfoldable pub exit_module : Module → Module
exit_module m = record m { registered = false; blocks = m.blocks - block_count m.kernel_buffer }

abbrev pub is_null : Option (List ℕ) → Bool
is_null none = true
is_null (some bs) = false

abbrev pub bytes : Option (List ℕ) → List ℕ
bytes none = []
bytes (some bs) = bs

-- Whether the call comes to its copy, from a position: the only use of the buffer.
abbrev pub copies : Call → ℕ → Bool
copies (read_call n) p = not (ltb (to_size_t (bytes_left p)) n)
copies (write_call bs) p = not (ltb (to_size_t (bytes_left p)) (length bs))
copies (seek_call offset whence) p = false
copies open_call p = false
copies close_call p = false

-- The device as a call on a file at `p` sees it, and what the call leaves.
abbrev pub device : Module → ℕ → Device
device m p = record { kernel_buffer = bytes m.kernel_buffer; open_count = m.open_count; f_pos = p }

abbrev pub put_device : Module → ℕ → Device → Module
put_device m i d = record m {
  kernel_buffer = if is_null m.kernel_buffer then none else some d.kernel_buffer;
  open_count = d.open_count;
  files = set m.files i (some d.f_pos);
}

abbrev pub opened : Option (Option ℕ) → Option ℕ
opened none = none
opened (some x) = x

-- A call on the file `i`; the kernel makes none on a file that is not open.
unfoldable pub on_file : UserCopy → ℕ → Call → Module → Result Module
on_file u i c m = elim (opened (get_elem? m.files i)) [
  | none ↦ ok m
  | some p ↦ elim (is_null m.kernel_buffer && copies c p) [
    | true ↦ err null_pointer
    | false ↦ call u c (device m p) >>= λ d. ok (put_device m i d)
  ]
]

pub data Event : Type 0 where
  open_file : Event
  close_file : ℕ → Event
  read_file : ℕ → ℕ → Event
  write_file : ℕ → List ℕ → Event
  seek_file : ℕ → ℤ → ℕ → Event

unfoldable pub event : UserCopy → Event → Module → Result Module
unfolding on_file
event u open_file m =
    on_file u (length m.files) open_call (record m { files = m.files ++ (some 0 ∷ []) })
event u (close_file i) m =
    on_file u i close_call m >>= λ m'. ok (record m' { files = set m'.files i none })
event u (read_file i n) m = on_file u i (read_call n) m
event u (write_file i bs) m = on_file u i (write_call bs) m
event u (seek_file i offset whence) m = on_file u i (seek_call offset whence) m

unfoldable pub events : UserCopy → List Event → Module → Result Module
unfolding event
events u [] m = ok m
events u (e ∷ es) m = event u e m >>= events u es

-- ===== src/Driver/Module/Laws.antt =====
-- From init to exit.
use csci3757_operating_syste.Base.{
  ℕ, ◌≤◌, ◌≡◌, refl, ap, inl, inr, true, false, Option, none, some, List, [], ◌∷◌, ◌++◌, pos,
  Result, ok, err, null_pointer, ◌>>=◌, arith, length, get_elem?, set, All, All-get, All-set,
  Option-cases, Bool-cases, ◌&&◌, ◌≢◌, get_elem?-set_ne, >>=-eq-ok, subst,
}
use csci3757_operating_syste.Driver.{
  buffer_size, UserCopy, is_negative, Call, open_call, close_call, read_call, write_call, seek_call,
  call, open_device,
}
use csci3757_operating_syste.Driver.Laws.{call-IsDevice}
use csci3757_operating_syste.Driver.Module.{
  Kernel, Module, fresh, init_module, exit_module, is_null, copies, device, put_device, opened,
  on_file, Event, open_file, close_file, read_file, write_file, seek_file, event, events,
}

abbrev pub IsPosition : Option ℕ → Type 0
IsPosition none = Unit
IsPosition (some p) = p ≤ buffer_size

-- The module is loaded: its buffer is one block of 1024 bytes, and no file is beyond the end of it.
pub record IsModule (m : Module) : Type 0 where
  pub on : m.registered ≡ true
  pub one_block : m.blocks ≡ 1
  pub buffer : (bs : List ℕ) × (m.kernel_buffer ≡ some bs) × (length bs ≡ buffer_size)
  pub positions : All IsPosition m.files

opened-some : (x : Option (Option ℕ)) (p : ℕ) → opened x ≡ some p → x ≡ some (some p)
opened-some none p e = cc
opened-some (some x) p e = ap some e

All-append :
    (P : Option ℕ → Type 0) (xs : List (Option ℕ)) (x : Option ℕ)
    → All P xs
    → P x
    → All P (xs ++ (x ∷ []))
All-append P [] x h p = (p, tt)
All-append P (y ∷ xs) x h p = (h.0, All-append P xs x h.1 p)

abbrev Loaded : Result Module → Type 0
Loaded r = (m : Module) × (r ≡ ok m) × IsModule m

module _ (u : UserCopy) (i : ℕ) (c : Call) (m : Module) (v : IsModule m) where
  call-Loaded :
      (p : ℕ) → p ≤ buffer_size → Loaded (call u c (device m p) >>= λ d. ok (put_device m i d))
  call-Loaded p h =
      let (bs, e, whole) = v.buffer in
      let (d, called, good) =
        call-IsDevice u c (device m p) (record { whole = rw e whole; inside = h }) in
      rw called (
        put_device m i d,
        refl,
        record {
          on = v.on;
          one_block = v.one_block;
          buffer = (d.kernel_buffer, rw e refl, good.whole);
          positions = All-set IsPosition m.files i (some d.f_pos) v.positions good.inside;
        },
      )

  on_file-Loaded : Loaded (on_file u i c m)
  unfolding on_file
  on_file-Loaded = elim (Option-cases (opened (get_elem? m.files i))) [
    | inl e ↦ rw (e, on_file) (m, refl, v)
    | inr (p, e) ↦
        let there = opened-some (get_elem? m.files i) p e in
        let (bs, some_block, whole) = v.buffer in
        let safe : (is_null m.kernel_buffer && copies c p) ≡ false = rw some_block refl in
        rw (e, on_file, safe)
          (call-Loaded p (All-get IsPosition m.files i (some p) v.positions there))
  ]

event-Loaded : (u : UserCopy) (e : Event) (m : Module) → IsModule m → Loaded (event u e m)
unfolding event
event-Loaded u open_file m v =
    on_file-Loaded u (length m.files) open_call (record m { files = m.files ++ (some 0 ∷ []) })
      (record {
        on = v.on;
        one_block = v.one_block;
        buffer = v.buffer;
        positions = All-append IsPosition m.files (some 0) v.positions (omega arith);
      })
event-Loaded u (close_file i) m v =
    let (m', e, v') = on_file-Loaded u i close_call m v in
    rw e (
      record m' { files = set m'.files i none },
      refl,
      record {
        on = v'.on;
        one_block = v'.one_block;
        buffer = v'.buffer;
        positions = All-set IsPosition m'.files i none v'.positions tt;
      },
    )
event-Loaded u (read_file i n) m v = on_file-Loaded u i (read_call n) m v
event-Loaded u (write_file i bs) m v = on_file-Loaded u i (write_call bs) m v
event-Loaded u (seek_file i offset whence) m v = on_file-Loaded u i (seek_call offset whence) m v

events-Loaded : (u : UserCopy) (es : List Event) (m : Module) → IsModule m → Loaded (events u es m)
unfolding events
events-Loaded u [] m v = (m, refl, v)
events-Loaded u (e ∷ es) m v =
    let (m', first, v') = event-Loaded u e m v in rw first (events-Loaded u es m' v')

init_module-IsModule :
    (k : Kernel) (bs : List ℕ)
    → is_negative k.register_chrdev ≡ false
    → k.kmalloc ≡ some bs
    → IsModule (init_module k fresh).1
unfolding init_module
init_module-IsModule k bs h e =
    rw (h, e)
      (record {
        on = refl;
        one_block = refl;
        buffer = (bs, refl, k.kmalloc-length bs e);
        positions = tt;
      })

-- Where the registration succeeds and kmalloc gives a block, init answers 0; then any openings, closings,
-- reads, writes and seeks of any files succeed, in a buffer of 1024 bytes with every position within
-- it; and exit, whenever it comes, takes the device out and leaves no block allocated.
pub module_life :
    (u : UserCopy) (k : Kernel) (bs : List ℕ) (es : List Event)
    → is_negative k.register_chrdev ≡ false
    → k.kmalloc ≡ some bs
    → ((init_module k fresh).0 ≡ pos 0)
      × ((m : Module) × (events u es (init_module k fresh).1 ≡ ok m)
          × IsModule m
          × ((exit_module m).registered ≡ false)
          × ((exit_module m).blocks ≡ 0))
unfolding init_module exit_module
module_life u k bs es h e =
    let (m, run, v) = events-Loaded u es (init_module k fresh).1 (init_module-IsModule k bs h e) in
    let (cs, block, whole) = v.buffer in
    (rw h refl, (m, run, v, refl, rw block (ground (arith, v.one_block))))

-- Where kmalloc gives NULL, init answers 0 all the same, and the first write of bytes that fit, through
-- the first file that is opened, uses the null pointer.
pub write_to_null :
    (u : UserCopy) (k : Kernel) (bs : List ℕ)
    → is_negative k.register_chrdev ≡ false
    → k.kmalloc ≡ none
    → length bs ≤ buffer_size
    → ((init_module k fresh).0 ≡ pos 0)
      × (events u (open_file ∷ write_file 0 bs ∷ []) (init_module k fresh).1 ≡ err null_pointer)
unfolding init_module events event on_file open_device
write_to_null u k bs h e fits =
    let start : (init_module k fresh).1 ≡ record fresh { registered = true } = rw (h, e) refl in
    (rw h refl, rw start (ground (arith, fits)))

-- A call on one file that succeeds leaves every other file as it was: open or closed, and at its
-- position.
on_file-other :
    (u : UserCopy) (i j : ℕ) (c : Call) (m m' : Module)
    → i ≢ j
    → on_file u i c m ≡ ok m'
    → get_elem? m'.files j ≡ get_elem? m.files j
unfolding on_file
on_file-other u i j c m m' ne e = elim (Option-cases (opened (get_elem? m.files i))) [
  | inl closed ↦
      let stays : ok m ≡ ok m' = rw (closed, on_file) at e in let same : m ≡ m' = cc in rw same refl
  | inr (p, at) ↦ elim (Bool-cases (is_null m.kernel_buffer && copies c p)) [
    | inl t ↦ let fails : err null_pointer ≡ ok m' = rw (at, on_file, t) at e in cc
    | inr f ↦
        let runs : (call u c (device m p) >>= λ d. ok (put_device m i d)) ≡ ok m' =
          rw (at, on_file, f) at e in
        let (d, called, put) =
          >>=-eq-ok (call u c (device m p)) (λ d. ok (put_device m i d)) runs in
        let same : put_device m i d ≡ m' = cc in
        subst (λ (x : Module). get_elem? x.files j ≡ get_elem? m.files j) same
          (get_elem?-set_ne m.files i j (some d.f_pos) ne)
  ]
]

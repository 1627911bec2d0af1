-- ===== src/Lookup/Main/Laws.antt =====
-- The arguments and the logs of the lookup program.
use csci3757_operating_syste.Base.{
  ◌≤◌, ◌≡◌, refl, sym, ap, ◌∙◌, ◌⊎◌, inl, inr, Bool, true, false, Option, some, List, [], ◌∷◌,
  Result, ok, err, ◌>>=◌, null_pointer, out_of_bounds, ◌&&◌, if◌then◌else◌, length, subst, arith,
  Bool-cases,
}
use csci3757_operating_syste.Lookup.{Name, Lookup, start_threads}
use csci3757_operating_syste.Lookup.Main.{
  Disk, System, same_name, erase, clear_logs, readable, prepare,
}

pub same_name_refl : (name : Name) → same_name name name ≡ true
same_name_refl [] = refl
same_name_refl (c ∷ cs) = ground (arith, same_name_refl cs)

pub same_name-eq : (a b : Name) → same_name a b ≡ true → a ≡ b
same_name-eq [] [] h = refl
same_name-eq [] (c ∷ cs) h = absurd (ground arith)
same_name-eq (c ∷ cs) [] h = absurd (ground arith)
same_name-eq (c ∷ cs) (c' ∷ cs') h = elim (Bool-cases (same_name cs cs')) [
  | inl e ↦ let tail : cs ≡ cs' = same_name-eq cs cs' e in let head : c ≡ c' = ground arith in cc
  | inr e ↦ absurd (ground (arith, e))
]

-- What clear_logs leaves on the disk.
abbrev pub Cleared : Name → Name → Disk → Disk → Type 0
Cleared service results disk disk' =
    (disk' service ≡ some [])
    × (disk' results ≡ some [])
    × ((other : Name) → (other ≡ service) ⊎ (other ≡ results) ⊎ (disk' other ≡ disk other))

-- Both logs are opened before either is tested.
clear_logs_lem :
    (sys : System) (service results : Name) (disk : Disk)
    → clear_logs sys (some service) (some results) disk ≡ (
        if sys.writable service && sys.writable results
        then ok (erase (erase disk service) results)
        else err null_pointer)
unfolding clear_logs
clear_logs_lem sys service results disk = elim (Bool-cases (sys.writable service)) [
  | inr e ↦ elim (Bool-cases (sys.writable results)) [
    | inl f ↦ rw (e, clear_logs, f) refl
    | inr f ↦ rw (e, clear_logs, f) refl
  ]
  | inl e ↦ elim (Bool-cases (sys.writable results)) [
    | inl f ↦ rw (e, clear_logs, f) refl
    | inr f ↦ rw (e, clear_logs, f) refl
  ]
]

then_ok : (b : Bool) (x y : Disk) → (if b then ok x else err null_pointer) ≡ ok y → x ≡ y
then_ok true x y h = cc
then_ok false x y h = absurd (cc)

erase_self : (disk : Disk) (name : Name) → erase disk name name ≡ some []
erase_self disk name = rw (same_name_refl name) refl

erase-other :
    (disk : Disk) (name other : Name) → (other ≡ name) ⊎ (erase disk name other ≡ disk other)
erase-other disk name other = elim (Bool-cases (same_name other name)) [
  | inl e ↦ inl (same_name-eq other name e)
  | inr e ↦ inr (rw e refl)
]

erase-empty :
    (disk : Disk) (name other : Name) → disk other ≡ some [] → erase disk name other ≡ some []
erase-empty disk name other h = elim (Bool-cases (same_name other name)) [
  | inl e ↦ rw e refl
  | inr e ↦ rw e h
]

erase-Cleared :
    (service results : Name) (disk : Disk)
    → Cleared service results disk (erase (erase disk service) results)
erase-Cleared service results disk = (
  erase-empty (erase disk service) results service (erase_self disk service),
  erase_self (erase disk service) results,
  λ other. elim (erase-other (erase disk service) results other) [
    | inl e ↦ inr (inl e)
    | inr e ↦ elim (erase-other disk service other) [ inl f ↦ inl f | inr f ↦ inr (inr (e ∙ f)) ]
  ],
)

pub clear_logs-Cleared :
    (sys : System) (service results : Name) (disk disk' : Disk)
    → clear_logs sys (some service) (some results) disk ≡ ok disk'
    → Cleared service results disk disk'
clear_logs-Cleared sys service results disk disk' h =
    let both = sys.writable service && sys.writable results in
    let done = erase (erase disk service) results in
    let same : done ≡ disk' =
      then_ok both done disk' (sym (clear_logs_lem sys service results disk) ∙ h) in
    subst (Cleared service results disk) same (erase-Cleared service results disk)

-- main reads argv[1] to argv[4] before it counts the arguments: with fewer than five strings it uses a
-- null pointer or leaves argv.
prepare-few :
    (sys : System) (fresh : List Name) (disk : Disk) (args : List Name)
    → length args ≤ 4
    → (prepare sys fresh disk args ≡ err null_pointer)
      ⊎ (prepare sys fresh disk args ≡ err out_of_bounds)
unfolding prepare
prepare-few sys fresh disk [] h = inr refl
prepare-few sys fresh disk (a ∷ []) h = inl refl
prepare-few sys fresh disk (a ∷ a' ∷ []) h = inl refl
prepare-few sys fresh disk (a ∷ a' ∷ m ∷ []) h = inr refl
prepare-few sys fresh disk (a ∷ a' ∷ m ∷ n ∷ []) h = elim (Bool-cases (sys.writable n)) [
  | inl e ↦ inl (simp (e, clear_logs, prepare) refl)
  | inr e ↦ inl (simp (e, clear_logs, prepare) refl)
]
prepare-few sys fresh disk (a ∷ a' ∷ m ∷ n ∷ b ∷ rest) h = absurd (omega arith)

with_threads :
    (x : Result Disk) (start : Disk → Option Lookup) (disk' : Disk) (found : Option Lookup)
    → ◌>>=◌ {B = Disk × Option Lookup} x (λ d. ok (d, start d)) ≡ ok (disk', found)
    → (x ≡ ok disk') × (start disk' ≡ found)
with_threads (ok d) start disk' found h =
    let same : d ≡ disk' = cc in
    let threads : start d ≡ found = cc in (ap ok same, ap start (sym same) ∙ threads)
with_threads (err e) start disk' found h = absurd (cc)

-- Where main comes to the start of the threads or to its return of -1, it has emptied the two logs and
-- left every other file as it was, also where there are too few arguments or the numbers are wrong;
-- then it starts the threads over the emptied logs.
pub prepare-Cleared :
    (sys : System) (fresh : List Name) (disk disk' : Disk) (program m n service results : Name)
    (names : List Name) (start : Option Lookup)
    → prepare sys fresh disk (program ∷ m ∷ n ∷ service ∷ results ∷ names) ≡ ok (disk', start)
    → Cleared service results disk disk'
      × (start_threads (readable disk') fresh (sys.atoi m) (sys.atoi n) names ≡ start)
unfolding prepare
prepare-Cleared sys fresh disk disk' program m n service results names start h =
    let (cleared, started) =
      with_threads (clear_logs sys (some service) (some results) disk)
        (λ d. start_threads (readable d) fresh (sys.atoi m) (sys.atoi n) names) disk' start h in
    (clear_logs-Cleared sys service results disk disk' cleared, started)

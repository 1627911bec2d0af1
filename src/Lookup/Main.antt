-- ===== src/Lookup/Main.antt =====
-- PA-Three/PA3/multi-lookup.c: clearLogs, and main from its arguments to its end. The timer, what it
-- prints and the setting up and destroying of the locks are left out.
pub mod Laws
pub mod Ends
pub mod Late
pub mod Lost
use csci3757_operating_syste.Base.{
  ℕ, zero, suc, Bool, true, false, Option, none, some, List, [], ◌∷◌, Result, ok, err, ◌>>=◌, ◌>>◌,
  null_pointer, out_of_bounds, invalid_free, ◌==◌, ◌&&◌, if◌then◌else◌, get_elem?, length, drop, ℤ,
  pos, negsuc,
}
use csci3757_operating_syste.Lookup.{
  Name, Net, World, Requester, stopped, Resolver, ended, Lookup, Turn, turns, start_threads,
}

-- What a file holds, by its name; `none` where fopen for reading fails.
abbrev pub Disk : Type 0
Disk = Name → Option (List Name)

-- The C library and the file system: atoi, whether fopen succeeds for "w" and for "r+", the lookups.
pub record System : Type 0 where
  pub atoi : Name → ℤ
  pub writable : Name → Bool
  pub updatable : Name → Bool
  pub net : Net

abbrev pub same_name : Name → Name → Bool
same_name [] [] = true
same_name [] (c ∷ cs) = false
same_name (c ∷ cs) [] = false
same_name (c ∷ cs) (c' ∷ cs') = let rest = same_name cs cs' in (c == c') && rest

abbrev pub erase : Disk → Name → Disk
erase disk name other = if same_name other name then some [] else disk other

-- fopen with "w", and whether it gives a file.
abbrev pub open_for_writing : System → Option Name → Disk → Result (Bool × Disk)
open_for_writing sys none disk = err null_pointer
open_for_writing sys (some name) disk =
    if sys.writable name then ok (true, erase disk name) else ok (false, disk)

-- A file that is not open is only found out by fprintf.
unfoldable pub clear_logs : System → Option Name → Option Name → Disk → Result Disk
clear_logs sys service results disk = do
  (service_file, disk') ← open_for_writing sys service disk
  (results_file, disk'') ← open_for_writing sys results disk'
  if service_file && results_file then ok disk'' else err null_pointer

-- argv[k]; the null pointer stands after the last argument.
abbrev pub argument : List Name → ℕ → Result (Option Name)
argument args k = elim (get_elem? args k) [
  | some a ↦ ok (some a)
  | none ↦ if k == length args then ok none else err out_of_bounds
]

abbrev pub int_argument : System → Option Name → Result ℤ
int_argument sys none = err null_pointer
int_argument sys (some a) = ok (sys.atoi a)

abbrev pub readable : Disk → Name → Bool
readable disk name = elim (disk name) [ none ↦ false | some ls ↦ true ]

-- main up to the start of the threads: the files, and the threads unless it returns -1.
unfoldable pub prepare : System → List Name → Disk → List Name → Result (Disk × Option Lookup)
unfolding clear_logs start_threads
prepare sys fresh disk args = do
  first ← argument args 1
  m ← int_argument sys first
  second ← argument args 2
  n ← int_argument sys second
  service ← argument args 3
  results ← argument args 4
  disk' ← clear_logs sys service results disk
  ok (disk', start_threads (readable disk') fresh m n (drop 5 args))

-- Whether pthread_join comes back from all threads.
abbrev pub requesters_joined : List Requester → Bool
requesters_joined [] = true
requesters_joined (r ∷ rs) =
    let rest = requesters_joined rs in elim r [ stopped ↦ rest | _ ↦ false ]

abbrev pub resolvers_joined : List Resolver → Bool
resolvers_joined [] = true
resolvers_joined (r ∷ rs) = let rest = resolvers_joined rs in elim r [ ended ↦ rest | _ ↦ false ]

-- What main frees; the last two are arrays on its stack.
pub data Block : Type 0 where
  shared input_files req_workers res_workers : Block

abbrev pub is_allocated : Block → Bool
is_allocated shared = true
is_allocated input_files = true
is_allocated req_workers = false
is_allocated res_workers = false

abbrev pub free : Block → Result (Unit {0})
free b = if is_allocated b then ok tt else err invalid_free

abbrev pub clean_up : Result (Unit {0})
clean_up = free shared >> free input_files >> free req_workers >> free res_workers

-- main has returned, or waits in pthread_join.
pub data Exit : Type 0 where
  returned : ℤ → Exit
  joining : Lookup → Exit

unfoldable pub finish : Lookup → Result Exit
finish s =
    if requesters_joined s.requesters && resolvers_joined s.resolvers
    then clean_up >> ok (returned (pos 1))
    else ok (joining s)

abbrev pub world : System → Disk → World
world sys disk = record {
  fopen = λ name. if sys.updatable name then disk name else none;
  net = sys.net;
}

-- main, where the threads take the given turns.
unfoldable pub main : System → List Name → Disk → List Name → List Turn → Result Exit
unfolding prepare turns finish
main sys fresh disk args ts = do
  (disk', start) ← prepare sys fresh disk args
  elim start [ none ↦ ok (returned (negsuc 0)) | some s ↦ turns (world sys disk') ts s >>= finish ]

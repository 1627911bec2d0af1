-- ===== src/Threads/Counter.antt =====
-- PA-Three/Threads-and-Processes/threads/mutex.c: threads that raise and lower a shared index without
-- a lock. A turn of a thread is its read of the index, or its write of the new value.
pub mod Bounds
use csci3757_operating_syste.Base.{
  ℕ, zero, suc, Bool, Option, none, some, List, [], ◌∷◌, ◌++◌, ℤ, pos, negsuc, ◌+ℤ◌, ◌-ℤ◌,
  get_elem?, set, replicate,
}

-- `increment` or `decrement`.
pub data Kind : Type 0 where
  increment decrement : Kind

-- Before the read, with the value to write, and at the end.
pub data Phase : Type 0 where
  begun written : Phase
  holding : ℤ → Phase

pub record Worker : Type 0 where
  pub kind : Kind
  pub phase : Phase

pub record Shared : Type 0 where
  pub index : ℤ
  pub threads : List Worker

abbrev pub changed : Kind → ℤ → ℤ
changed increment z = z +ℤ pos 1
changed decrement z = z -ℤ pos 1

abbrev pub move : ℕ → Worker → Phase → Shared → Shared
move i t begun s = record s {
  threads = set s.threads i (record t { phase = holding (changed t.kind s.index) });
}
move i t (holding z) s = record s {
  index = z;
  threads = set s.threads i (record t { phase = written });
}
move i t written s = s

unfoldable pub act : ℕ → Shared → Shared
act i s = elim (get_elem? s.threads i) [ none ↦ s | some t ↦ move i t t.phase s ]

unfoldable pub acts : List ℕ → Shared → Shared
unfolding act
acts [] s = s
acts (i ∷ is) s = acts is (act i s)

-- `main`: 3 threads that lower the index, 2 that raise it, from 5.
abbrev pub five_threads : Shared
five_threads = record {
  index = pos 5;
  threads =
      replicate 3 (record { kind = decrement; phase = begun })
      ++ replicate 2 (record { kind = increment; phase = begun });
}

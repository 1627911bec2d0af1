-- ===== src/Threads/Forked.antt =====
-- PA-Three/Threads-and-Processes/threads/thread_process.c: a process, its child and the child's
-- thread. A turn is what one of the three does up to its next call.
pub mod Laws
use csci3757_operating_syste.Base.{
  ℕ, ◌≡◌, refl, sym, ap, Bool, true, false, List, [], ◌∷◌, if◌then◌else◌, subst,
}

-- The global `value` and the `updateValue` of main, in the memory of one process.
pub record Globals : Type 0 where
  pub value : ℕ
  pub update_value : ℕ

-- The thread of the child, which runs `runner`.
pub data Thread : Type 0 where
  begun assigned ended : Thread

-- Where the parent stands.
pub data Parent : Type 0 where
  forking waiting sleeping printing returned : Parent

-- The child: not there, before its call of pthread_create, in pthread_join, before its printf, at its
-- end.
pub data Child : Type 0 where
  absent exited : Child
  creating reporting : Globals → Child
  joining : Thread → Globals → Child

pub data Output : Type 0 where
  child_value parent_value : ℕ → Output

-- Both processes, and the lines printed, newest first.
pub record Processes : Type 0 where
  pub parent : Parent
  pub memory : Globals
  pub child : Child
  pub output : List Output

-- `wait` and the sleep of two seconds; the child begins with a copy of the parent's memory.
abbrev pub parent_act : Bool → Parent → Processes → Processes
parent_act fork_succeeds forking s =
    if fork_succeeds
    then record s { parent = waiting; child = creating s.memory }
    else record s { parent = returned }
parent_act fork_succeeds waiting s = elim (s.child) [
  | exited ↦ record s { parent = sleeping }
  | _ ↦ s
]
parent_act fork_succeeds sleeping s = record s { parent = printing }
parent_act fork_succeeds printing s = record s {
  parent = returned;
  output = parent_value (s.memory).value ∷ s.output;
}
parent_act fork_succeeds returned s = s

abbrev pub child_act : Child → Processes → Processes
child_act absent s = s
child_act exited s = s
child_act (creating m) s = record s { child = joining begun m }
child_act (joining ended m) s = record s { child = reporting m }
child_act (joining begun m) s = s
child_act (joining assigned m) s = s
child_act (reporting m) s = record s { child = exited; output = child_value m.value ∷ s.output }

-- `runner`
abbrev pub thread_act : Child → Processes → Processes
thread_act (joining begun m) s = record s {
  child = joining assigned (record m { value = m.update_value });
}
thread_act (joining assigned m) s = record s { child = joining ended m }
thread_act (joining ended m) s = s
thread_act absent s = s
thread_act exited s = s
thread_act (creating m) s = s
thread_act (reporting m) s = s

pub data Actor : Type 0 where
  parent_turn child_turn thread_turn : Actor

abbrev pub proceed : Bool → Actor → Processes → Processes
proceed fork_succeeds parent_turn s = parent_act fork_succeeds s.parent s
proceed fork_succeeds child_turn s = child_act s.child s
proceed fork_succeeds thread_turn s = thread_act s.child s

unfoldable pub proceeds : Bool → List Actor → Processes → Processes
proceeds fork_succeeds [] s = s
proceeds fork_succeeds (t ∷ ts) s = proceeds fork_succeeds ts (proceed fork_succeeds t s)

abbrev pub before_fork : Processes
before_fork = record {
  parent = forking;
  memory = record { value = 0; update_value = 5 };
  child = absent;
  output = [];
}

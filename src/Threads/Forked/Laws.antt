-- ===== src/Threads/Forked/Laws.antt =====
-- What thread_process.c prints, in whatever order its processes run.
use csci3757_operating_syste.Base.{◌≡◌, refl, sym, ap, Bool, true, false, List, [], ◌∷◌, subst}
use csci3757_operating_syste.Threads.Forked.{
  Globals, begun, assigned, ended, Parent, forking, waiting, sleeping, printing, returned, Child,
  absent, exited, creating, reporting, joining, Output, child_value, parent_value, Processes,
  parent_act, child_act, thread_act, Actor, parent_turn, child_turn, thread_turn, proceed, proceeds,
  before_fork,
}

-- What the states between the fork and the end have in common.
abbrev IsChild : Child → List Output → Type 0
IsChild absent out = ⊥
IsChild exited out = out ≡ (child_value 5 ∷ [])
IsChild (creating m) out = (m.update_value ≡ 5) × (out ≡ [])
IsChild (reporting m) out = (m.value ≡ 5) × (out ≡ [])
IsChild (joining begun m) out = (m.update_value ≡ 5) × (out ≡ [])
IsChild (joining assigned m) out = (m.value ≡ 5) × (out ≡ [])
IsChild (joining ended m) out = (m.value ≡ 5) × (out ≡ [])

abbrev IsStage : Bool → Parent → Globals → Child → List Output → Type 0
IsStage b forking m c out = (m ≡ before_fork.memory) × (c ≡ absent) × (out ≡ [])
IsStage b waiting m c out = (b ≡ true) × (m.value ≡ 0) × IsChild c out
IsStage b sleeping m c out =
    (b ≡ true) × (m.value ≡ 0) × (c ≡ exited) × (out ≡ (child_value 5 ∷ []))
IsStage b printing m c out =
    (b ≡ true) × (m.value ≡ 0) × (c ≡ exited) × (out ≡ (child_value 5 ∷ []))
IsStage true returned m c out = (c ≡ exited) × (out ≡ (parent_value 0 ∷ child_value 5 ∷ []))
IsStage false returned m c out = (c ≡ absent) × (out ≡ [])

abbrev InStage : Bool → Processes → Type 0
InStage b s = IsStage b s.parent s.memory s.child s.output

abbrev state : Parent → Globals → Child → List Output → Processes
state p m c out = record { parent = p; memory = m; child = c; output = out }

parent_act-InStage :
    (b : Bool) (p : Parent) (m : Globals) (c : Child) (out : List Output)
    → IsStage b p m c out
    → InStage b (parent_act b p (state p m c out))
parent_act-InStage true forking m c out (e, f, g) =
    (refl, ap (λ (x : Globals). x.value) e, (ap (λ (x : Globals). x.update_value) e, g))
parent_act-InStage false forking m c out (e, f, g) = (f, g)
parent_act-InStage b waiting m exited out (e, f, g) = (e, f, refl, g)
parent_act-InStage b waiting m absent out h = h
parent_act-InStage b waiting m (creating x) out h = h
parent_act-InStage b waiting m (reporting x) out h = h
parent_act-InStage b waiting m (joining t x) out h = h
parent_act-InStage b sleeping m c out h = h
parent_act-InStage true printing m c out (e, f, g, h) = (g, rw (f, h) refl)
parent_act-InStage false printing m c out (e, f, g, h) = absurd (cc e)
parent_act-InStage true returned m c out h = h
parent_act-InStage false returned m c out h = h

-- Before the fork and after the child's end only the parent can do anything.
idle :
    (f : Child → Processes → Processes) (p : Parent) (m : Globals) (c d : Child) (out : List Output)
    (b : Bool)
    → c ≡ d
    → ((s : Processes) → f d s ≡ s)
    → IsStage b p m c out
    → InStage b (f c (state p m c out))
idle f p m c d out b e still h =
    let same : f c (state p m c out) ≡ state p m c out = rw e (still (state p m d out)) in
    subst (InStage b) (sym same) h

child_act-InStage :
    (b : Bool) (p : Parent) (m : Globals) (c : Child) (out : List Output)
    → IsStage b p m c out
    → InStage b (child_act c (state p m c out))
child_act-InStage b forking m c out h = idle child_act forking m c absent out b h.1 (λ s. refl) h
child_act-InStage b waiting m absent out h = h
child_act-InStage b waiting m exited out h = h
child_act-InStage b waiting m (creating x) out h = h
child_act-InStage b waiting m (joining begun x) out h = h
child_act-InStage b waiting m (joining assigned x) out h = h
child_act-InStage b waiting m (joining ended x) out h = h
child_act-InStage b waiting m (reporting x) out (e, f, (g, h)) = (e, f, rw (g, h) refl)
child_act-InStage b sleeping m c out h = idle child_act sleeping m c exited out b h.2 (λ s. refl) h
child_act-InStage b printing m c out h = idle child_act printing m c exited out b h.2 (λ s. refl) h
child_act-InStage true returned m c out h =
    idle child_act returned m c exited out true h.0 (λ s. refl) h
child_act-InStage false returned m c out h =
    idle child_act returned m c absent out false h.0 (λ s. refl) h

thread_act-InStage :
    (b : Bool) (p : Parent) (m : Globals) (c : Child) (out : List Output)
    → IsStage b p m c out
    → InStage b (thread_act c (state p m c out))
thread_act-InStage b forking m c out h = idle thread_act forking m c absent out b h.1 (λ s. refl) h
thread_act-InStage b waiting m absent out h = h
thread_act-InStage b waiting m exited out h = h
thread_act-InStage b waiting m (creating x) out h = h
thread_act-InStage b waiting m (joining begun x) out h = h
thread_act-InStage b waiting m (joining assigned x) out h = h
thread_act-InStage b waiting m (joining ended x) out h = h
thread_act-InStage b waiting m (reporting x) out h = h
thread_act-InStage b sleeping m c out h =
    idle thread_act sleeping m c exited out b h.2 (λ s. refl) h
thread_act-InStage b printing m c out h =
    idle thread_act printing m c exited out b h.2 (λ s. refl) h
thread_act-InStage true returned m c out h =
    idle thread_act returned m c exited out true h.0 (λ s. refl) h
thread_act-InStage false returned m c out h =
    idle thread_act returned m c absent out false h.0 (λ s. refl) h

proceed-InStage : (b : Bool) (t : Actor) (s : Processes) → InStage b s → InStage b (proceed b t s)
proceed-InStage b parent_turn s h = parent_act-InStage b s.parent s.memory s.child s.output h
proceed-InStage b child_turn s h = child_act-InStage b s.parent s.memory s.child s.output h
proceed-InStage b thread_turn s h = thread_act-InStage b s.parent s.memory s.child s.output h

proceeds-InStage :
    (b : Bool) (ts : List Actor) (s : Processes) → InStage b s → InStage b (proceeds b ts s)
unfolding proceeds
proceeds-InStage b [] s h = h
proceeds-InStage b (t ∷ ts) s h = proceeds-InStage b ts (proceed b t s) (proceed-InStage b t s h)

-- The lines at the end, newest first.
abbrev pub printed : Bool → List Output
printed true = parent_value 0 ∷ child_value 5 ∷ []
printed false = []

at_end :
    (b : Bool) (p : Parent) (m : Globals) (c : Child) (out : List Output)
    → p ≡ returned
    → IsStage b p m c out
    → out ≡ printed b
at_end true p m c out e h = (rw e at h).1
at_end false p m c out e h = (rw e at h).1

-- In whatever order the parent, the child and its thread run: once the parent has returned, the child
-- has printed 5, the value that its thread has set, and after it the parent the value 0 of its own
-- memory; or the fork has failed and nothing is printed.
pub proceeds_lem :
    (b : Bool) (ts : List Actor)
    → (proceeds b ts before_fork).parent ≡ returned
    → (proceeds b ts before_fork).output ≡ printed b
proceeds_lem b ts h =
    let s = proceeds b ts before_fork in
    at_end b s.parent s.memory s.child s.output h
      (proceeds-InStage b ts before_fork (refl, refl, refl))

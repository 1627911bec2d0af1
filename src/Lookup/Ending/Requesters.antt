-- ===== src/Lookup/Ending/Requesters.antt =====
-- A turn of a requester keeps the order in which the program ends.
use csci3757_operating_syste.Base.{
  total-lt, total-le, ℕ, ◌+◌, ◌≡◌, refl, ◌⊎◌, inl, inr, Bool, true, false, Option, none, some, List,
  [], ◌∷◌, Result, ok, err, ◌==◌, if◌then◌else◌, get_elem?, set, arith, subst, total-set, total-ge,
  ltb, out_of_bounds,
}
use csci3757_operating_syste.Lookup.{
  Name, File, World, Requester, searching, locking, reading, checking, full_wait, full_woken,
  stopped, Lookup, search, signal, wake_resolver, is_empty_wait, put_requester, take_file, service,
  store, wait_full, lock, requester_step, array_size, chomp,
}
use csci3757_operating_syste.Lookup.Invariant.{
  Inv, bit-le, holds_requester, holds_resolver, total-map_wake,
}
use csci3757_operating_syste.Lookup.Ending.{
  Ordered, is_stopped, is_ended, at_empty, one, Marks, search-Marks, is_ended-wake, at_empty-wake,
  requester_moves-Ordered, signal_resolvers-Ordered, at_empty-le, is_stopped-le,
}

pub lock-Ordered :
    (s next : Lookup) (b : Bool)
    → Ordered s
    → Ordered (record next { buffer_lock = true })
    → Ordered (if b then s else record next { buffer_lock = true })
lock-Ordered s next true o k = o
lock-Ordered s next false o k = k

take_file-Ordered :
    (v : World) (s : Lookup) (i n : ℕ) (fs : List File) (r : Option (Name × List File))
    → Ordered s
    → get_elem? s.requesters i ≡ some (searching n)
    → Marks s.files r
    → Ordered (take_file v i n s fs r)
take_file-Ordered v s i n [] r o e t =
    requester_moves-Ordered s i (searching n) (locking n none) s.buffer_lock o e refl
take_file-Ordered v s i n (f ∷ fs) (some (name, files)) o e t =
    let r' = locking (n + 1) (v.fopen name) in
    omega (
      arith,
      t,
      total-set is_stopped s.requesters i (searching n) r' e,
      total-set one s.requesters i (searching n) r' e,
    )
take_file-Ordered v s i n (f ∷ fs) none o e t = omega (
  arith,
  t,
  total-set is_stopped s.requesters i (searching n) stopped e,
  total-set one s.requesters i (searching n) stopped e,
  total-lt is_stopped one is_stopped-le s.requesters i (searching n) e (omega arith),
  total-map_wake is_ended wake_resolver is_empty_wait is_ended-wake s.resolvers,
  total-map_wake at_empty wake_resolver is_empty_wait at_empty-wake s.resolvers,
  total-map_wake one wake_resolver is_empty_wait (λ r. refl) s.resolvers,
)

-- While a requester puts a line into the buffer, no resolver has found it empty and none has ended.
store-Ordered :
    (s : Lookup) (i n : ℕ) (l : Name) (ls : List Name)
    → Inv s
    → Ordered s
    → get_elem? s.requesters i ≡ some (checking n l ls)
    → Ordered (record (put_requester s i (reading n (some ls))) {
      buffer = set s.buffer s.current_position (chomp l);
      current_position = s.current_position + 1;
    })
store-Ordered s i n l ls inv o e =
    let r = checking n l ls in
    let r' = reading n (some ls) in
    omega (
      arith,
      inv.exclusive,
      bit-le s.buffer_lock,
      total-ge holds_requester s.requesters i r e,
      total-le at_empty holds_resolver at_empty-le s.resolvers,
      total-lt is_stopped one is_stopped-le s.requesters i r e (omega arith),
      total-set is_stopped s.requesters i r r' e,
      total-set one s.requesters i r r' e,
    )

stored :
    (b : Bool) (x s' : Lookup) (e : Result Lookup)
    → (if b then ok x else e) ≡ ok s'
    → (x ≡ s') ⊎ (e ≡ ok s')
stored true x s' e h = inl (cc)
stored false x s' e h = inr h

-- What a requester's turn leads to, if it succeeds, is ordered.
pub requester_step-Ordered :
    (v : World) (k i : ℕ) (r : Requester) (s s' : Lookup)
    → Inv s
    → Ordered s
    → get_elem? s.requesters i ≡ some r
    → requester_step v k i r s ≡ ok s'
    → Ordered s'
unfolding requester_step service
requester_step-Ordered v k i (searching n) s s' inv o e h =
    let same : service v i n s ≡ s' = cc in
    subst Ordered same
      (take_file-Ordered v s i n s.files (search s.files) o e (search-Marks s.files))
requester_step-Ordered v k i (locking n f) s s' inv o e h =
    let next = put_requester s i (reading n f) in
    let same : lock s next ≡ s' = cc in
    subst Ordered same (
      lock-Ordered s next s.buffer_lock o
        (requester_moves-Ordered s i (locking n f) (reading n f) true o e refl))
requester_step-Ordered v k i (reading n none) s s' inv o e h = absurd (ground arith)
requester_step-Ordered v k i (reading n (some [])) s s' inv o e h =
    let next = record (put_requester s i (searching n)) { buffer_lock = false } in
    let same : record next { resolvers = signal wake_resolver is_empty_wait k s.resolvers } ≡ s' =
      cc in
    subst Ordered same (
      signal_resolvers-Ordered next k
        (requester_moves-Ordered s i (reading n (some [])) (searching n) false o e refl))
requester_step-Ordered v k i (reading n (some (l ∷ ls))) s s' inv o e h =
    let same : put_requester s i (checking n l ls) ≡ s' = cc in
    subst Ordered same (
      requester_moves-Ordered s i (reading n (some (l ∷ ls))) (checking n l ls) s.buffer_lock o e
        refl)
requester_step-Ordered v k i (checking n l ls) s s' inv o e h =
    elim (stored (s.current_position == array_size) (wait_full k i n l ls s) s' (store i n l ls s)
      h) [
        | inl same ↦ subst Ordered same (
            signal_resolvers-Ordered
              (record (put_requester s i (full_wait n l ls)) { buffer_lock = false }) k
              (requester_moves-Ordered s i (checking n l ls) (full_wait n l ls) false o e refl))
        | inr kept ↦
            elim (stored (ltb s.current_position array_size)
              (record (put_requester s i (reading n (some ls))) {
                buffer = set s.buffer s.current_position (chomp l);
                current_position = s.current_position + 1;
              })
              s' (err out_of_bounds) kept) [
                | inl same ↦ subst Ordered same (store-Ordered s i n l ls inv o e)
                | inr wrong ↦ absurd (ground arith)
              ]
      ]
requester_step-Ordered v k i (full_wait n l ls) s s' inv o e h =
    let same : s ≡ s' = cc in subst Ordered same o
requester_step-Ordered v k i (full_woken n l ls) s s' inv o e h =
    let next = put_requester s i (checking n l ls) in
    let same : lock s next ≡ s' = cc in
    subst Ordered same (
      lock-Ordered s next s.buffer_lock o
        (requester_moves-Ordered s i (full_woken n l ls) (checking n l ls) true o e refl))
requester_step-Ordered v k i stopped s s' inv o e h = let same : s ≡ s' = cc in subst Ordered same o

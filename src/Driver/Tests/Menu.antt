-- ===== src/Driver/Tests/Menu.antt =====
-- Sessions of the menu.
use csci3757_operating_syste.Base.{
  ℕ, ◌≡◌, refl, [], ◌∷◌, pos, ok, err, out_of_bounds, out_of_fuel, arith, length, replicate,
  length-replicate, inl, inr,
}
use csci3757_operating_syste.Driver.Menu.{
  read_command, write_command, seek_command, terminate, Memory, Session, menu, round,
}
use csci3757_operating_syste.Driver.Menu.Prints.{CopiesAll, menu-Prints}
use csci3757_operating_syste.Driver.Menu.Typed.{IsText}
use csci3757_operating_syste.Driver.Tests.{near_end, near_end-IsDevice, whole_copy}

abbrev used_memory : Memory
used_memory n = 65 ∷ 65 ∷ 65 ∷ 65 ∷ replicate 1020 0

abbrev begun : Session
begun = record { device = near_end; mallocs = 0; printed = [] }

whole_copy-CopiesAll : CopiesAll whole_copy
whole_copy-CopiesAll = record { in_full = λ bs. refl; out_full = λ bs. refl }

length-used_memory : length (used_memory 0) ≡ 1024
length-used_memory = omega (arith, length-replicate {A = ℕ} 1020 0)

-- A line of 1024 characters is stored past the end of the buffer before its length is tested.
too_long_a_line :
    menu whole_copy used_memory (write_command (replicate 1024 66) ∷ terminate ∷ []) begun
    ≡ err out_of_bounds
unfolding menu round
too_long_a_line = refl

end_of_input : menu whole_copy used_memory [] begun ≡ err out_of_fuel
unfolding menu
end_of_input = refl

ab-IsText : IsText (97 ∷ 98 ∷ [])
ab-IsText = record {
  first = 97;
  others = 98 ∷ [];
  whole = refl;
  no_space = omega arith;
  no_control = inr (omega arith);
  one_line = omega arith;
}

-- The blanks before a line are not written.
menu-Prints_example :
    (s' : Session) × (menu whole_copy used_memory
        (write_command (32 ∷ 9 ∷ 97 ∷ 98 ∷ [])
          ∷ seek_command (pos 0) (pos 1020)
          ∷ read_command (pos 2)
          ∷ terminate
          ∷ [])
        begun
      ≡ ok s')
    × (s'.printed ≡ (97 ∷ 98 ∷ replicate 2 32) ∷ [])
menu-Prints_example =
    menu-Prints whole_copy used_memory begun (32 ∷ 9 ∷ []) (97 ∷ 98 ∷ []) 4 whole_copy-CopiesAll
      near_end-IsDevice (inl refl, (inr (omega arith), tt)) ab-IsText length-used_memory refl
      (omega arith) (omega arith) (omega arith) (omega arith)

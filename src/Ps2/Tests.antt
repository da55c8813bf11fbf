-- ===== src/Ps2/Tests.antt =====
-- The theorems on ps2.cpp at concrete keyboards.
use podumat_os.Prelude.{◌≡◌, true, false, [], ◌∷◌, arith}
use podumat_os.Ps2.{Keyboard}
use podumat_os.Ps2.Keys.{run, last_shift, odd_presses, run_lem}

abbrev fresh : Keyboard
fresh = record { shift_pressed = false; caps_lock = false }

-- Left shift goes down, caps lock is pressed and released, and A is pressed.
run_lem_example :
    run (0x2A ∷ 0x3A ∷ 0xBA ∷ 0x1E ∷ []) fresh ≡ record { shift_pressed = true; caps_lock = true }
unfolding last_shift odd_presses
run_lem_example = run_lem (0x2A ∷ 0x3A ∷ 0xBA ∷ 0x1E ∷ []) fresh (omega arith)

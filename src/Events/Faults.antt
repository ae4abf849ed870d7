-- ===== src/Events/Faults.antt =====
-- Schedules of faults as a database driver makes them.
use ddash.Base.{Bool, true, false, not, ◌&&◌, Option, none, some, List, [], ◌∷◌, ◌≡◌, refl, arith}
use ddash.Effect.{Err, is_no_rows}
use ddash.Store.{next_fault, later_faults}

-- No fault of the schedule is sql.ErrNoRows, which a statement only gives for an empty answer.
abbrev pub driver_fault : Option Err → Bool
driver_fault none = true
driver_fault (some e) = not (is_no_rows e)

abbrev pub driver_faults : List (Option Err) → Bool
driver_faults [] = true
driver_faults (f ∷ fs) = driver_fault f && driver_faults fs

pub driver_later :
    (fs : List (Option Err)) → driver_faults fs ≡ true → driver_faults (later_faults fs) ≡ true
driver_later [] h = refl
driver_later (f ∷ fs) h = ground arith

pub driver_next :
    (fs : List (Option Err)) → driver_faults fs ≡ true → driver_fault (next_fault fs) ≡ true
driver_next [] h = refl
driver_next (f ∷ fs) h = ground arith

pub not_no_rows : (e : Err) → driver_fault (some e) ≡ true → is_no_rows e ≡ false
not_no_rows e h = ground arith

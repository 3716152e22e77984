-- ===== src/Ipc/Accept/Decided.antt =====
-- An accept passes over what decides nothing, and returns at the first answer that does.
use kesharon.Prelude.{◌≡◌, refl, ap, true, false, List, [], ◌∷◌, ◌++◌, Result, err}
use kesharon.Ipc.Accept.{
  IoError, Accepting, connects, not_ready, interrupted, failed, Accepted, returned, waiting,
  deadline_error, made_nonblocking, accept_loop,
}

-- An answer after which the loop goes on.
abbrev pub IsPassed : {A : Type 0} → Accepting A → Type 0
IsPassed (connects stream nonblocking) = ⊥
IsPassed (not_ready late) = late ≡ false
IsPassed interrupted = Unit
IsPassed (failed e) = ⊥

abbrev pub ArePassed : {A : Type 0} → List (Accepting A) → Type 0
ArePassed [] = Unit
ArePassed (a ∷ answers) = IsPassed a × ArePassed answers

-- The result that an answer brings.
abbrev pub Decides : {A : Type 0} → Accepting A → Result A IoError → Type 0
Decides (connects stream nonblocking) r = r ≡ made_nonblocking stream nonblocking
Decides (not_ready late) r = (late ≡ true) × (r ≡ err deadline_error)
Decides interrupted r = ⊥
Decides (failed e) r = r ≡ err e

-- The answers that an accept has passed over, and the one that has decided it; or all have been
-- passed over, and it waits.
pub record IsDecided {A : Type 0} (answers : List (Accepting A)) (r : Result A IoError)
    (rest : List (Accepting A)) : Type 0 where
  pub passed : List (Accepting A)
  pub decisive : Accepting A
  pub parts : answers ≡ passed ++ decisive ∷ rest
  pub passes : ArePassed passed
  pub decides : Decides decisive r

abbrev pub IsAccepted : {A : Type 0} → List (Accepting A) → Accepted A → Type 0
IsAccepted answers (returned r rest) = IsDecided answers r rest
IsAccepted answers waiting = ArePassed answers

passed-IsAccepted :
    {A : Type 0} (a : Accepting A) (answers : List (Accepting A)) (r : Accepted A)
    → IsPassed a
    → IsAccepted answers r
    → IsAccepted (a ∷ answers) r
passed-IsAccepted a answers (returned r rest) p d = record {
  passed = a ∷ d.passed;
  decisive = d.decisive;
  parts = ap (λ xs. a ∷ xs) d.parts;
  passes = (p, d.passes);
  decides = d.decides;
}
passed-IsAccepted a answers waiting p d = (p, d)

decided :
    {A : Type 0} (a : Accepting A) (answers : List (Accepting A)) (r : Result A IoError)
    → Decides a r
    → IsDecided (a ∷ answers) r answers
decided a answers r d = record { passed = []; decisive = a; parts = refl; passes = tt; decides = d }

-- The loop of an accept returns at the first answer that is a stream, a failure or a reading of the
-- clock past the deadline, with the result that this answer brings, and leaves the answers behind it
-- to the next call; it waits only where there is no such answer.
pub accept_loop-IsAccepted :
    {A : Type 0} (answers : List (Accepting A)) → IsAccepted answers (accept_loop answers)
unfolding accept_loop
accept_loop-IsAccepted [] = tt
accept_loop-IsAccepted (connects stream nonblocking ∷ answers) =
    decided (connects stream nonblocking) answers _ refl
accept_loop-IsAccepted (not_ready true ∷ answers) = decided (not_ready true) answers _ (refl, refl)
accept_loop-IsAccepted (not_ready false ∷ answers) =
    passed-IsAccepted (not_ready false) answers _ refl (accept_loop-IsAccepted answers)
accept_loop-IsAccepted (interrupted ∷ answers) =
    passed-IsAccepted interrupted answers _ tt (accept_loop-IsAccepted answers)
accept_loop-IsAccepted (failed e ∷ answers) = decided (failed e) answers _ refl

-- ===== src/Daemon/Runtime/Accepting/Taken.antt =====
-- What a call of `accept_with_timeout` takes from the answers of the listener.
use mathlib.Core.List.{append_assoc}
use kesharon.Prelude.{◌≡◌, refl, ap, sym, ◌∙◌, true, false, List, [], ◌∷◌, ◌++◌, Result, ok, err}
use kesharon.Ipc.Accept.{
  IoError, Stream, Accepting, connects, not_ready, interrupted, failed, Accepted, returned, waiting,
  accept_loop, accept_with_timeout,
}
use kesharon.Daemon.Runtime.Accepting.{Turn}

-- The streams that the listener gives.
abbrev pub streams : List (Accepting Stream) → List Stream
streams [] = []
streams (connects stream (ok _) ∷ answers) = stream ∷ streams answers
streams (_ ∷ answers) = streams answers

-- All that the listener answers in some turns.
abbrev pub offered : List Turn → List (Accepting Stream)
offered [] = []
offered (t ∷ turns) = t.answers ++ offered turns

abbrev pub accepted : Result Stream IoError → List Stream
accepted (ok stream) = stream ∷ []
accepted (err e) = []

pub streams-append :
    (xs ys : List (Accepting Stream)) → streams (xs ++ ys) ≡ streams xs ++ streams ys
streams-append [] ys = refl
streams-append (connects stream (ok _) ∷ xs) ys = ap (λ ss. stream ∷ ss) (streams-append xs ys)
streams-append (connects stream (err e) ∷ xs) ys = streams-append xs ys
streams-append (not_ready late ∷ xs) ys = streams-append xs ys
streams-append (interrupted ∷ xs) ys = streams-append xs ys
streams-append (failed e ∷ xs) ys = streams-append xs ys

-- A call that has returned has taken some answers, with the stream that it returns and no other, and
-- left the rest; a call that waits has had no stream.
abbrev pub IsTaken : List (Accepting Stream) → Accepted Stream → Type 0
IsTaken answers (returned r rest) =
    (given : List (Accepting Stream)) × (answers ≡ given ++ rest) × (streams given ≡ accepted r)
IsTaken answers waiting = streams answers ≡ []

passed-IsTaken :
    (a : Accepting Stream) (answers : List (Accepting Stream)) (r : Accepted Stream)
    → streams (a ∷ []) ≡ []
    → IsTaken answers r
    → IsTaken (a ∷ answers) r
passed-IsTaken a answers (returned r rest) e (given, parts, same) = (
  a ∷ given,
  ap (λ xs. a ∷ xs) parts,
  streams-append (a ∷ []) given ∙ ap (λ ss. ss ++ streams given) e ∙ same,
)
passed-IsTaken a answers waiting e h =
    streams-append (a ∷ []) answers ∙ ap (λ ss. ss ++ streams answers) e ∙ h

accept_loop-IsTaken : (answers : List (Accepting Stream)) → IsTaken answers (accept_loop answers)
unfolding accept_loop
accept_loop-IsTaken [] = refl
accept_loop-IsTaken (connects stream (ok _) ∷ answers) = (connects stream (ok tt) ∷ [], refl, refl)
accept_loop-IsTaken (connects stream (err e) ∷ answers) = (connects stream (err e) ∷ [], refl, refl)
accept_loop-IsTaken (not_ready true ∷ answers) = (not_ready true ∷ [], refl, refl)
accept_loop-IsTaken (not_ready false ∷ answers) =
    passed-IsTaken (not_ready false) answers _ refl (accept_loop-IsTaken answers)
accept_loop-IsTaken (interrupted ∷ answers) =
    passed-IsTaken interrupted answers _ refl (accept_loop-IsTaken answers)
accept_loop-IsTaken (failed e ∷ answers) = (failed e ∷ [], refl, refl)

pub accept_with_timeout-IsTaken :
    (nonblocking : Result (Unit {0}) IoError) (answers : List (Accepting Stream))
    → IsTaken answers (accept_with_timeout 100 nonblocking answers)
unfolding accept_with_timeout
accept_with_timeout-IsTaken (err e) answers = ([], refl, refl)
accept_with_timeout-IsTaken (ok _) answers = accept_loop-IsTaken answers

-- The answers of a call that has returned, and those of the turns behind it.
pub turn_parts :
    (answers given left later given' remaining : List (Accepting Stream))
    → answers ≡ given ++ left
    → left ++ later ≡ given' ++ remaining
    → answers ++ later ≡ (given ++ given') ++ remaining
turn_parts answers given left later given' remaining e h =
    ap (λ xs. xs ++ later) e
    ∙ append_assoc given left later
    ∙ ap (λ xs. given ++ xs) h
    ∙ sym (append_assoc given given' remaining)

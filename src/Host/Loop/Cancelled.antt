-- ===== src/Host/Loop/Cancelled.antt =====
-- A subscription that another one has replaced comes to its end.
use mathlib.Core.List.{append-nil, append_assoc}
use kesharon.Prelude.{◌≡◌, refl, ap, sym, ◌∙◌, Bool, true, false, List, [], ◌∷◌, ◌++◌, arith}
use kesharon.Host.{Following}
use kesharon.Host.Loop.{
  Effect, Locals, InnerTurn, OuterTurn, without_client, attempt_fails, connects, Turn, Standing,
  at_outer, at_inner, over, after_connection, inner_step, outer_step, step, run_rounds,
}

-- The first reading of the flag in a round finds it set.
abbrev set_at_outer : OuterTurn → Bool
set_at_outer (without_client set_before set_late) = set_before
set_at_outer (attempt_fails set_before set_after set_late) = set_before
set_at_outer (connects set_before set_after s taken) = set_before

abbrev pub IsCancelling : Turn → Type 0
IsCancelling turn = (set_at_outer turn.outer ≡ true) × (turn.inner.set_before ≡ true)

run_rounds-append :
    (s : Standing) (turns more : List Turn)
    → run_rounds s (turns ++ more) ≡ (
      (run_rounds s turns).0 ++ (run_rounds (run_rounds s turns).1 more).0,
      (run_rounds (run_rounds s turns).1 more).1,
    )
unfolding run_rounds
run_rounds-append s [] more = refl
run_rounds-append s (turn ∷ turns) more =
    let done = run_rounds (step s turn).1 turns in
    ap (λ (r : List Effect × Standing). ((step s turn).0 ++ r.0, r.1))
      (run_rounds-append (step s turn).1 turns more)
    ∙ ap (λ (es : List Effect). (es, (run_rounds done.1 more).1))
        (sym (append_assoc (step s turn).0 done.0 (run_rounds done.1 more).0))

over-run_rounds : (turns : List Turn) → run_rounds over turns ≡ ([], over)
unfolding run_rounds step
over-run_rounds [] = refl
over-run_rounds (turn ∷ turns) = over-run_rounds turns

outer_step-over :
    (cancelled : Bool) (l : Locals) (turn : OuterTurn)
    → set_at_outer turn ≡ true
    → outer_step cancelled l turn ≡ ([], over)
unfolding outer_step
outer_step-over cancelled l (without_client set_before set_late) h = ground (arith, h)
outer_step-over cancelled l (attempt_fails set_before set_after set_late) h = ground (arith, h)
outer_step-over cancelled l (connects set_before set_after s taken) h = ground (arith, h)

pub outer_step_flagged : (l : Locals) (turn : OuterTurn) → outer_step true l turn ≡ ([], over)
unfolding outer_step
outer_step_flagged l (without_client set_before set_late) = refl
outer_step_flagged l (attempt_fails set_before set_after set_late) = refl
outer_step_flagged l (connects set_before set_after s taken) = refl

inner_step_flagged :
    (f : Following) (turn : InnerTurn)
    → turn.set_before ≡ true
    → inner_step f turn ≡ ([], at_outer true (after_connection false))
unfolding inner_step
inner_step_flagged f turn h = rw h refl

ends :
    (s : Standing) (turn next : Turn) (more : List Turn)
    → IsCancelling turn
    → run_rounds s (turn ∷ next ∷ more) ≡ ([], over)
unfolding run_rounds step
ends (at_outer cancelled l) turn next more (h, k) =
    rw (outer_step-over cancelled l turn.outer h, over-run_rounds more) refl
ends (at_inner f) turn next more (h, k) =
    rw (inner_step_flagged f turn.inner k)
      (rw (outer_step_flagged (after_connection false) next.outer, over-run_rounds more) refl)
ends over turn next more (h, k) = over-run_rounds more

-- Wherever the task stands when the flag is found set at the beginning of a round, it has returned
-- after this round and the next, and from there on it has sent nothing and has not slept.
pub run_rounds-IsCancelling :
    (s : Standing) (before : List Turn) (turn next : Turn) (more : List Turn)
    → IsCancelling turn
    → run_rounds s (before ++ turn ∷ next ∷ more) ≡ ((run_rounds s before).0, over)
run_rounds-IsCancelling s before turn next more c =
    run_rounds-append s before (turn ∷ next ∷ more)
    ∙ ap (λ (r : List Effect × Standing). ((run_rounds s before).0 ++ r.0, r.1))
        (ends (run_rounds s before).1 turn next more c)
    ∙ ap (λ (es : List Effect). (es, over)) (append-nil (run_rounds s before).0)

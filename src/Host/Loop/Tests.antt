-- ===== src/Host/Loop/Tests.antt =====
-- The theorems on the host's loop, its processes and its attempts, at concrete rounds.
use kesharon.Prelude.{
  ℕ, zero, suc, ◌≡◌, refl, true, false, none, some, List, [], ◌∷◌, ◌++◌, Result, ok, err,
}
use kesharon.Protocol.Event.{StreamMessage, event, operation_cancelled, WorkspaceSnapshot}
use kesharon.Protocol.Response.{ServerResponse, success, ready}
use kesharon.Protocol.Response
use kesharon.Protocol.Token.Tests.{token}
use kesharon.Host.{terminated}
use kesharon.Host.Client.{DaemonClient}
use kesharon.Host.Error.{HostError, state_unavailable}
use kesharon.Host.Loop.{
  InnerTurn, OuterTurn, without_client, attempt_fails, connects, Turn, read, timed_out, run_rounds,
  spawned_task, at_outer, over, Standing, after_connection,
}
use kesharon.Host.Loop.Cancelled.{run_rounds-IsCancelling}
use kesharon.Host.Process.{Life}
use kesharon.Host.State.{DaemonState, default_state, unlocked, execute_health}
use kesharon.Host.State.Attempts.{IsExecuted, execute_health-IsAsked}

abbrev empty_snapshot : WorkspaceSnapshot
empty_snapshot = record {
  stream_id = "s";
  last_sequence = 6;
  project = none;
  active_operations = [];
}

abbrev numbered : ℕ → StreamMessage
numbered n = event (record {
  protocol_version = 1;
  stream_id = "s";
  sequence = n;
  payload = operation_cancelled "r1";
})

abbrev quiet : InnerTurn
quiet = record { set_before = false; result = timed_out true; set_after = false }

abbrev outer_round : OuterTurn → Turn
outer_round turn = record { outer = turn; inner = quiet }

abbrev inner_round : StreamMessage → Turn
inner_round m = record {
  outer = without_client false false;
  inner = record { set_before = false; result = read m true; set_after = false };
}

-- An attempt that fails, a connection with an event and then a gap, and a further attempt.
abbrev turns : List Turn
turns =
    outer_round (attempt_fails false false false)
    ∷ outer_round
        (connects false false (record { stream_id = "s"; initial_snapshot = empty_snapshot }) true)
    ∷ inner_round (numbered 7)
    ∷ inner_round (numbered 9)
    ∷ outer_round (without_client false false)
    ∷ []

abbrev cancelling : Turn
cancelling = record {
  outer = without_client true false;
  inner = record { set_before = true; result = timed_out true; set_after = false };
}

run_rounds-IsCancelling_example :
    run_rounds spawned_task (turns ++ cancelling ∷ inner_round (numbered 7) ∷ [])
    ≡ ((run_rounds spawned_task turns).0, over)
run_rounds-IsCancelling_example =
    run_rounds-IsCancelling spawned_task turns cancelling (inner_round (numbered 7)) [] (refl, refl)

abbrev failing : List Turn
failing =
    outer_round (without_client false false) ∷ outer_round (attempt_fails false false false) ∷ []

abbrev after_gap : Standing
after_gap = at_outer false (after_connection true)

abbrev life : Life
life = record {
  launching = record {
    directory = ok tt;
    filled = ok token.bytes;
    endpoint_value = "/run_rounds/k.sock";
    spawned = ok 7;
    written = ok tt;
  };
  observations = terminated ∷ [];
}

abbrev served_state : DaemonState
served_state = record default_state {
  client = unlocked (
      some (record {
        endpoint = record { as_str = "/run_rounds/k.sock" };
        launch_token = [];
        io_timeout = 2000;
      }));
}

-- The first two attempts fail.
abbrev answer : DaemonClient → ℕ → Result ServerResponse HostError
answer client zero = err state_unavailable
answer client (suc zero) = err state_unavailable
answer client n = ok (success "r1" (Response.health ready 1))

execute_health-IsAsked_example : IsExecuted served_state answer (execute_health served_state answer)
execute_health-IsAsked_example = execute_health-IsAsked served_state answer

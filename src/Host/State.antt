-- ===== src/Host/State.antt =====
-- `DaemonState` of apps/desktop/src-tauri/src/lib.rs, and the commands of the web view that read it.
pub mod Sole
pub mod Attempts
use kesharon.Prelude.{
  ℕ, zero, suc, ◌+◌, String, Bool, true, false, Option, none, some, List, [], ◌∷◌, ◌++◌,
  if◌then◌else◌, length, set, Result, ok, err, map_err,
}
use kesharon.Ipc.{Call, returned, waiting}
use kesharon.Protocol.Frame.{Json}
use kesharon.Protocol.Request.{ClientRequest}
use kesharon.Protocol.Response.{ServerResponse}
use kesharon.Daemon.Session.State.{Mutex}
use kesharon.Host.{RestartBudget}
use kesharon.Host.Client.{
  DaemonClient, LocalStream, Exchange, client_open_project, client_cancel_request,
}
use kesharon.Host.Error.{HostError, state_unavailable, to_string}

-- The child is its number. A cancellation flag is an address in `flags`.
pub record DaemonState : Type 0 where
  pub client : Mutex (Option DaemonClient)
  pub child : Mutex (Option ℕ)
  pub restart_budget : Mutex RestartBudget
  pub active_subscription_cancel : Mutex (Option ℕ)
  pub flags : List Bool

abbrev pub unlocked {ℓ} : {A : Type ℓ} → A → Mutex A
unlocked a = record { poisoned = false; inner = a }

-- `DaemonState::default`
abbrev pub default_state : DaemonState
default_state = record {
  client = unlocked none;
  child = unlocked none;
  restart_budget = unlocked (record { restart_used = false });
  active_subscription_cancel = unlocked none;
  flags = [];
}

-- The flag of the subscription before is set, if there is one.
abbrev pub cancel_previous : Option ℕ → List Bool → List Bool
cancel_previous none flags = flags
cancel_previous (some previous) flags = set flags previous true

-- The beginning of `execute_subscribe_daemon_events`: a fresh flag, and the one before is set.
unfoldable pub register_subscription : DaemonState → DaemonState
register_subscription s =
    if s.active_subscription_cancel.poisoned
    then record s { flags = s.flags ++ false ∷ [] }
    else record s {
      flags = cancel_previous s.active_subscription_cancel.inner (s.flags ++ false ∷ []);
      active_subscription_cancel = record s.active_subscription_cancel {
        inner = some (length s.flags);
      };
    }

abbrev pub present_client : Option DaemonClient → Result DaemonClient String
present_client none = err (to_string state_unavailable)
present_client (some client) = ok client

-- The client of the state, or the text that the commands fail with.
unfoldable pub current_client : DaemonState → Result DaemonClient String
current_client s =
    if s.client.poisoned then err (to_string state_unavailable) else present_client s.client.inner

abbrev pub unwrap_or_else {ℓ} : {A : Type ℓ} → Option A → A → A
unwrap_or_else none a = a
unwrap_or_else (some b) a = b

-- The text of an error.
abbrev pub in_text : {A : Type 0} → Call (Result A HostError) → Call (Result A String)
in_text (returned r rest) = returned (map_err to_string r) rest
in_text waiting = waiting

abbrev pub call_client :
    Result DaemonClient String
    → (DaemonClient → Exchange ServerResponse)
    → Call (Result ServerResponse String)
call_client (err text) f = returned (err text) []
call_client (ok client) f = in_text (f client).result

module _ (requests : Json ClientRequest) (responses : Json ServerResponse) where
  -- `fresh_id` and `fresh_key` are what `uuid` would make.
  unfoldable pub execute_open_project :
      DaemonState
      → (path : String) → (request_id idempotency_key : Option String)
      → (fresh_id fresh_key : String) → Result LocalStream String
      → Call (Result ServerResponse String)
  unfolding current_client client_open_project
  execute_open_project s path request_id idempotency_key fresh_id fresh_key stream =
      call_client (current_client s) (λ client.
        client_open_project requests responses client path (unwrap_or_else request_id fresh_id)
          (unwrap_or_else idempotency_key fresh_key) stream)

  unfoldable pub execute_cancel_request :
      DaemonState
      → (target_request_id : String) → (request_id idempotency_key : Option String)
      → (fresh_id fresh_key : String) → Result LocalStream String
      → Call (Result ServerResponse String)
  unfolding current_client client_cancel_request
  execute_cancel_request s target_request_id request_id idempotency_key fresh_id fresh_key stream =
      call_client (current_client s) (λ client.
        client_cancel_request requests responses client target_request_id
          (unwrap_or_else request_id fresh_id) (unwrap_or_else idempotency_key fresh_key) stream)

-- A command that asks several times: its result, its number of attempts, and the milliseconds slept.
pub record Asked : Type 0 where
  pub result : Result ServerResponse String
  pub attempts : ℕ
  pub slept : ℕ

abbrev pub not_ready_text : String
not_ready_text = "daemon did not become ready before the connection deadline"

abbrev pub asked_once : ℕ → Asked → Asked
asked_once milliseconds rest = record rest {
  attempts = suc rest.attempts;
  slept = milliseconds + rest.slept;
}

-- `for _ in 0..rounds`, where `request_health` gives the answers of the list in turn, and never
-- another once it has run out.
unfoldable pub ask_health :
    (rounds : ℕ) → (answer : ℕ → Result ServerResponse HostError) → (first : ℕ) → Asked
ask_health zero answer first = record { result = err not_ready_text; attempts = 0; slept = 0 }
ask_health (suc rounds) answer first = elim (answer first) [
  | ok response ↦ record { result = ok response; attempts = 1; slept = 0 }
  | err e ↦ asked_once 40 (ask_health rounds answer (suc first))
]

abbrev pub health_of :
    Result DaemonClient String → (DaemonClient → ℕ → Result ServerResponse HostError) → Asked
health_of (err text) answer = record { result = err text; attempts = 0; slept = 0 }
health_of (ok client) answer = ask_health 25 (answer client) 0

-- `execute_health`, from what each call of `request_health` would return.
unfoldable pub execute_health :
    DaemonState → (DaemonClient → ℕ → Result ServerResponse HostError) → Asked
unfolding current_client ask_health
execute_health s answer = health_of (current_client s) answer

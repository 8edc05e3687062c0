-- ===== src/Web/Terminal.antt =====
-- apps/web/src/lib/useTerminalMachine.ts: the state machine of the challenge page. A callback that
-- awaits is cut at its awaits: each part is an event, and the events come in any order.
pub mod Backoff
pub mod Runs
pub mod Ready
pub mod Attempts
use devops_lab.Prelude.{
  ℕ, suc, ◌+◌, ◌*◌, ◌/◌, ◌^◌, min, Bool, true, false, ◌||◌, not, Option, none, some, String, List,
  [], ◌∷◌, ◌++◌, nat_eq, string_eq, ◌==◌, leb, any, where_rows, or_else, is_some, if◌then◌else◌,
}
use devops_lab.Progress.Consumers.{Check}

pub data TerminalState : Type 0 where
  idle requesting_sandbox provisioning connecting connected reconnecting sandbox_lost broken :
      TerminalState

pub record SessionInfo : Type 0 where
  pub session_id : String
  pub terminal_url : String
  pub token : Option String

pub record ValidationResult : Type 0 where
  pub passed : Bool
  pub feedback : String
  pub checks : List Check

-- What the validator answers; the two last fields may be missing.
pub record Verdict : Type 0 where
  pub passed : Bool
  pub feedback : Option String
  pub checks : Option (List Check)

-- The subprotocols are "terminal" and, if there is a token, "bearer." with it.
pub record Socket : Type 0 where
  pub url : String
  pub bearer : Option String

pub record Timer : Type 0 where
  pub id : ℕ
  pub delay : ℕ

-- The state and the refs of the hook. `session` is the state and its ref, which are set together;
-- `pending` are the timers that have not fired, and `timer` the one that the ref holds.
pub record Machine : Type 0 where
  pub state : TerminalState
  pub session : Option SessionInfo
  pub attempt : ℕ
  pub validation : Option ValidationResult
  pub is_validating : Bool
  pub error_message : Option String
  pub progress_events : List (String × String)
  pub ttl_warning : Option ℕ
  pub isolation_downgraded : Bool
  pub socket : Option Socket
  pub pending : List Timer
  pub timer : Option ℕ
  pub next_timer : ℕ
  pub intentional_close : Bool

abbrev pub max_reconnect_attempts : ℕ
max_reconnect_attempts = 6

abbrev pub base_backoff_ms : ℕ
base_backoff_ms = 1000

abbrev pub max_backoff_ms : ℕ
max_backoff_ms = 15000

-- `Math.random()` is a multiple of this part of one, from 0 and below 1.
abbrev pub random_scale : ℕ
random_scale = 9007199254740992

-- `Math.round(base + base * 0.1 * (random * 2 - 1))`, in exact arithmetic.
unfoldable pub backoff_ms : ℕ → ℕ → ℕ
backoff_ms attempt random =
    let base : ℕ = min (base_backoff_ms * 2 ^ attempt) max_backoff_ms in
    (base * (9 * random_scale + 2 * random) * 2 + 10 * random_scale) / (20 * random_scale)

-- `explicitToken || storedToken`
abbrev pub pick_token : Option String → Option String → Option String
pick_token none stored = stored
pick_token (some t) stored = if t == "" then stored else some t

-- `token ? … : …` takes an empty token for none.
abbrev pub truthy : Option String → Option String
truthy none = none
truthy (some t) = if t == "" then none else some t

-- An old socket is closed with the flag up, and the flag goes down again.
unfoldable pub connect_ws : Option String → String → Option String → Machine → Machine
connect_ws stored url explicit m = record m {
  state = connecting;
  intentional_close = if is_some m.socket then false else m.intentional_close;
  socket = some (record { url = url; bearer = truthy (pick_token explicit stored) });
}

-- `scheduleReconnect`: what happens before its timer fires.
unfoldable pub schedule_reconnect : ℕ → Machine → Machine
unfolding backoff_ms
schedule_reconnect random m =
    if leb max_reconnect_attempts m.attempt then record m { state = sandbox_lost } else record m {
      attempt = m.attempt + 1;
      pending = (record { id = m.next_timer; delay = backoff_ms m.attempt random }) ∷ m.pending;
      timer = some m.next_timer;
      next_timer = suc m.next_timer;
    }

unfoldable pub handle_ws_close : ℕ → ℕ → Machine → Machine
unfolding schedule_reconnect
handle_ws_close code random m =
    if m.intentional_close
    then m
    else (if code == 1000 || code == 1001
        then record m { state = sandbox_lost }
        else schedule_reconnect random (record m { state = reconnecting }))

-- What a request gives: an answer, or an error with its message.
pub data Answer (A : Type 0) : Type 0 where
  answered : A → Answer A
  rejected : String → Answer A

-- What a health check gives: alive or not, status 502, or another error.
pub data Health : Type 0 where
  healthy dead bad_gateway unreachable : Health

-- The messages of the terminal; `noise` is any other text.
pub data Frame : Type 0 where
  progress : String → String → Frame
  ttl_left : ℕ → Frame
  noise : Frame

pub data Event : Type 0 where
  start_clicked : Event
  retry_clicked : Event
  session_given : Answer SessionInfo → Event
  worker_checked : Bool → SessionInfo → Health → Event
  ws_opened : Event
  ws_message : Frame → Event
  ws_closed : ℕ → ℕ → Event
  timer_fired : ℕ → Event
  health_given : SessionInfo → Health → Event
  reconnect_checked : SessionInfo → Health → Event
  terminate_clicked : Event
  terminate_done : Event
  validate_clicked : Event
  validate_done : Answer Verdict → Event
  unmounted : Event

unfoldable pub is_bad_gateway : Health → Bool
is_bad_gateway bad_gateway = true
is_bad_gateway _ = false

abbrev pub unavailable : Machine → Machine
unavailable m = record m {
  state = broken;
  error_message = some "Sandbox service is currently unavailable. Please try again later.";
}

abbrev pub begin_start : Machine → Machine
begin_start m = record m {
  state = requesting_sandbox;
  error_message = none;
  validation = none;
  progress_events = [];
  isolation_downgraded = false;
}

abbrev pub on_session : Answer SessionInfo → Machine → Machine
on_session (answered res) m = record m { session = some res; state = provisioning }
on_session (rejected msg) m = record m { error_message = some msg; state = broken }

-- The worker's check of a start (without the token) or of a trial (with it), then the socket.
abbrev pub on_worker : Option String → Bool → SessionInfo → Health → Machine → Machine
on_worker stored trial res bad_gateway m = unavailable m
on_worker stored trial res healthy m =
    connect_ws stored res.terminal_url (if trial then res.token else none) m
on_worker stored trial res dead m =
    connect_ws stored res.terminal_url (if trial then res.token else none) m
on_worker stored trial res unreachable m =
    connect_ws stored res.terminal_url (if trial then res.token else none) m

abbrev pub on_frame : Frame → Machine → Machine
on_frame (progress stage message) m = record m {
  progress_events = m.progress_events ++ (stage, message) ∷ [];
  state = if stage == "READY" then connected else m.state;
  isolation_downgraded = if stage == "ISOLATION_DOWNGRADED" then true else m.isolation_downgraded;
}
on_frame (ttl_left n) m = record m { ttl_warning = some n }
on_frame noise m = m

-- `clearTimeout`, and a timer that has fired.
abbrev pub drop_timer : ℕ → Machine → Machine
drop_timer id m = record m { pending = where_rows (λ (t : Timer). not (t.id == id)) m.pending }

abbrev pub clear_timer : Option ℕ → Machine → Machine
clear_timer none m = m
clear_timer (some id) m = drop_timer id m

-- The timer's callback up to its first await.
abbrev pub look_up_session : Option SessionInfo → Machine → Machine
look_up_session none m = record m { state = sandbox_lost }
look_up_session (some _) m = m

unfoldable pub fire : ℕ → Machine → Machine
fire id m =
    if any (λ (t : Timer). t.id == id) m.pending
    then look_up_session m.session (drop_timer id m)
    else m

-- The answer of the session's health: a dead sandbox is not retried; if it is alive the worker is
-- asked next.
unfoldable pub on_health : Option String → SessionInfo → Health → Machine → Machine
unfolding connect_ws
on_health stored s healthy m = m
on_health stored s dead m = record m { state = sandbox_lost }
on_health stored s bad_gateway m = unavailable m
on_health stored s unreachable m = connect_ws stored s.terminal_url s.token m

-- `terminateSession` up to its await: the socket is closed with the flag up and down again.
abbrev pub begin_terminate : Option SessionInfo → Machine → Machine
begin_terminate none m = m
begin_terminate (some _) m = record (clear_timer m.timer m) {
  socket = none;
  intentional_close = false;
}

abbrev pub finish_terminate : Machine → Machine
finish_terminate m = record m {
  session = none;
  validation = none;
  error_message = none;
  attempt = 0;
  state = idle;
}

abbrev pub begin_validate : Option SessionInfo → Machine → Machine
begin_validate none m = m
begin_validate (some _) m = record m { is_validating = true; error_message = none }

abbrev pub finish_validate : Answer Verdict → Machine → Machine
finish_validate (answered v) m = record m {
  validation = some (record {
    passed = v.passed;
    feedback = or_else v.feedback "";
    checks = or_else v.checks [];
  });
  is_validating = false;
}
finish_validate (rejected msg) m = record m { error_message = some msg; is_validating = false }

unfoldable pub step : Option String → Event → Machine → Machine
unfolding fire on_health handle_ws_close connect_ws
step stored start_clicked m = begin_start m
step stored retry_clicked m = begin_start (record m { session = none; attempt = 0 })
step stored (session_given a) m = on_session a m
step stored (worker_checked trial res h) m = on_worker stored trial res h m
step stored ws_opened m = record m { attempt = 0; error_message = none }
step stored (ws_message f) m = on_frame f m
step stored (ws_closed code random) m = handle_ws_close code random m
step stored (timer_fired id) m = fire id m
step stored (health_given s h) m = on_health stored s h m
step stored (reconnect_checked s h) m = on_worker stored true s h m
step stored terminate_clicked m = begin_terminate m.session m
step stored terminate_done m = finish_terminate m
step stored validate_clicked m = begin_validate m.session m
step stored (validate_done a) m = finish_validate a m
step stored unmounted m = record (clear_timer m.timer m) { intentional_close = true }

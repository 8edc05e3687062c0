-- ===== src/Web/Terminal/Runs.antt =====
-- Runs of the terminal's machine, for any order of its events.
use devops_lab.Prelude.{
  ℕ, ◌≤◌, ◌<◌, inl, inr, Bool, true, ◌||◌, not, Option, none, some, String, List, [], ◌∷◌, nat_eq,
  string_eq, ◌==◌, leb, any, All, All-where, arith, Bool-cases, if_either, Option-cases,
}
use devops_lab.Web.Terminal.{
  Machine, Timer, SessionInfo, Health, healthy, dead, bad_gateway, unreachable, Event, ws_closed,
  ws_message, progress, ttl_left, noise, timer_fired, health_given, reconnect_checked,
  terminate_clicked, terminate_done, step, start_clicked, retry_clicked, session_given,
  worker_checked, ws_opened, validate_clicked, validate_done, unmounted, answered, rejected,
  sandbox_lost, reconnecting, random_scale, fire, on_health, handle_ws_close, schedule_reconnect,
  connect_ws, drop_timer, clear_timer, on_worker, look_up_session, begin_terminate,
  max_reconnect_attempts,
}
use devops_lab.Web.Terminal.Backoff.{backoff_ms-bounds}

-- The machine after a sequence of events.
unfoldable pub run : Option String → List Event → Machine → Machine
run stored [] m = m
run stored (e ∷ es) m = run stored es (step stored e m)

abbrev pub IsDelay : Timer → Type 0
IsDelay t = (900 ≤ t.delay) × (t.delay ≤ 16500)

-- The budget of attempts, and the delays of the timers that wait.
pub record IsBounded (m : Machine) : Type 0 where
  pub budget : m.attempt ≤ 6
  pub delays : All IsDelay m.pending

-- The random numbers that the events carry are below one.
abbrev pub IsFair : Event → Type 0
IsFair (ws_closed code random) = random < random_scale
IsFair _ = Unit

drop_timer-IsBounded : (id : ℕ) (m : Machine) → IsBounded m → IsBounded (drop_timer id m)
drop_timer-IsBounded id m h = record {
  budget = h.budget;
  delays = All-where IsDelay (λ (t : Timer). not (t.id == id)) m.pending h.delays;
}

clear_timer-IsBounded : (t : Option ℕ) (m : Machine) → IsBounded m → IsBounded (clear_timer t m)
clear_timer-IsBounded none m h = h
clear_timer-IsBounded (some id) m h = drop_timer-IsBounded id m h

schedule_reconnect-IsBounded :
    (random : ℕ) (m : Machine)
    → random < random_scale
    → IsBounded m
    → IsBounded (schedule_reconnect random m)
unfolding schedule_reconnect
schedule_reconnect-IsBounded random m fair h =
    elim (Bool-cases (leb max_reconnect_attempts m.attempt)) [
      | inl e ↦ rw e (record { budget = h.budget; delays = h.delays })
      | inr e ↦
          let b = backoff_ms-bounds m.attempt random fair in
          rw e (record { budget = ground arith; delays = ((b.2, b.3), h.delays) })
    ]

handle_ws_close-IsBounded :
    (code random : ℕ) (m : Machine)
    → random < random_scale
    → IsBounded m
    → IsBounded (handle_ws_close code random m)
unfolding handle_ws_close
handle_ws_close-IsBounded code random m fair h =
    let kept : IsBounded (record m { state = reconnecting }) = record {
      budget = h.budget;
      delays = h.delays;
    } in
    if_either IsBounded m.intentional_close m _ h (
      if_either IsBounded (code == 1000 || code == 1001) (record m { state = sandbox_lost }) _
        (record { budget = h.budget; delays = h.delays })
        (schedule_reconnect-IsBounded random (record m { state = reconnecting }) fair kept))

look_up_session-IsBounded :
    (o : Option SessionInfo) (m : Machine) → IsBounded m → IsBounded (look_up_session o m)
look_up_session-IsBounded none m h = record { budget = h.budget; delays = h.delays }
look_up_session-IsBounded (some s) m h = h

fire-IsBounded : (id : ℕ) (m : Machine) → IsBounded m → IsBounded (fire id m)
unfolding fire
fire-IsBounded id m h = elim (Bool-cases (any (λ (t : Timer). t.id == id) m.pending)) [
  | inl e ↦ rw (e, fire) (look_up_session-IsBounded m.session _ (drop_timer-IsBounded id m h))
  | inr e ↦ rw (e, fire) h
]

on_worker-IsBounded :
    (stored : Option String) (trial : Bool) (s : SessionInfo) (c : Health) (m : Machine)
    → IsBounded m
    → IsBounded (on_worker stored trial s c m)
unfolding connect_ws
on_worker-IsBounded stored trial s healthy m h = record { budget = h.budget; delays = h.delays }
on_worker-IsBounded stored trial s dead m h = record { budget = h.budget; delays = h.delays }
on_worker-IsBounded stored trial s bad_gateway m h = record { budget = h.budget; delays = h.delays }
on_worker-IsBounded stored trial s unreachable m h = record { budget = h.budget; delays = h.delays }

on_health-IsBounded :
    (stored : Option String) (s : SessionInfo) (c : Health) (m : Machine)
    → IsBounded m
    → IsBounded (on_health stored s c m)
unfolding on_health
on_health-IsBounded stored s healthy m h = h
on_health-IsBounded stored s dead m h = record { budget = h.budget; delays = h.delays }
on_health-IsBounded stored s bad_gateway m h = record { budget = h.budget; delays = h.delays }
on_health-IsBounded stored s unreachable m h = record { budget = h.budget; delays = h.delays }

begin_terminate-IsBounded :
    (o : Option SessionInfo) (m : Machine) → IsBounded m → IsBounded (begin_terminate o m)
begin_terminate-IsBounded none m h = h
begin_terminate-IsBounded (some s) m h =
    let c = clear_timer-IsBounded m.timer m h in record { budget = c.budget; delays = c.delays }

step-IsBounded :
    (stored : Option String) (e : Event) (m : Machine)
    → IsFair e
    → IsBounded m
    → IsBounded (step stored e m)
unfolding step
step-IsBounded stored start_clicked m f h = record { budget = h.budget; delays = h.delays }
step-IsBounded stored retry_clicked m f h = record { budget = omega arith; delays = h.delays }
step-IsBounded stored (session_given (answered s)) m f h = record {
  budget = h.budget;
  delays = h.delays;
}
step-IsBounded stored (session_given (rejected s)) m f h = record {
  budget = h.budget;
  delays = h.delays;
}
step-IsBounded stored (worker_checked trial s c) m f h = on_worker-IsBounded stored trial s c m h
step-IsBounded stored ws_opened m f h = record { budget = omega arith; delays = h.delays }
step-IsBounded stored (ws_message (progress a b)) m f h = record {
  budget = h.budget;
  delays = h.delays;
}
step-IsBounded stored (ws_message (ttl_left n)) m f h = record {
  budget = h.budget;
  delays = h.delays;
}
step-IsBounded stored (ws_message noise) m f h = h
step-IsBounded stored (ws_closed code random) m f h = handle_ws_close-IsBounded code random m f h
step-IsBounded stored (timer_fired id) m f h = fire-IsBounded id m h
step-IsBounded stored (health_given s c) m f h = on_health-IsBounded stored s c m h
step-IsBounded stored (reconnect_checked s c) m f h = on_worker-IsBounded stored true s c m h
step-IsBounded stored terminate_clicked m f h = begin_terminate-IsBounded m.session m h
step-IsBounded stored terminate_done m f h = record { budget = omega arith; delays = h.delays }
step-IsBounded stored validate_clicked m f h = elim (Option-cases m.session) [
  | inl e ↦ simp e h
  | inr (s, e) ↦ simp e (record { budget = h.budget; delays = h.delays })
]
step-IsBounded stored (validate_done (answered v)) m f h = record {
  budget = h.budget;
  delays = h.delays;
}
step-IsBounded stored (validate_done (rejected s)) m f h = record {
  budget = h.budget;
  delays = h.delays;
}
step-IsBounded stored unmounted m f h =
    let c = clear_timer-IsBounded m.timer m h in record { budget = c.budget; delays = c.delays }

-- In any order of events, if their random numbers are below one, the number of attempts stays at
-- most six, and every timer that waits has a delay between 0.9 and 16.5 seconds.
pub run-IsBounded :
    (stored : Option String) (es : List Event) (m : Machine)
    → All IsFair es
    → IsBounded m
    → IsBounded (run stored es m)
unfolding run
run-IsBounded stored [] m f h = h
run-IsBounded stored (e ∷ es) m f h =
    run-IsBounded stored es (step stored e m) f.1 (step-IsBounded stored e m f.0 h)

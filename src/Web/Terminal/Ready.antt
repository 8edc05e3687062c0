-- ===== src/Web/Terminal/Ready.antt =====
-- When the terminal counts as connected.
use devops_lab.Prelude.{
  ℕ, ◌≡◌, refl, ◌⊎◌, inl, inr, Option, none, some, String, nat_eq, string_eq, ◌==◌, arith,
  Bool-cases, Option-cases, eq_of_beq, ap,
}
use devops_lab.Web.Terminal.{
  Machine, SessionInfo, healthy, dead, bad_gateway, unreachable, Event, ws_closed, ws_message,
  progress, ttl_left, noise, timer_fired, health_given, reconnect_checked, terminate_clicked,
  terminate_done, step, start_clicked, retry_clicked, session_given, worker_checked, ws_opened,
  validate_clicked, validate_done, unmounted, answered, rejected, connected, fire, on_health,
  handle_ws_close, schedule_reconnect, connect_ws, clear_timer, begin_terminate, begin_validate,
}

clear_timer-state : (t : Option ℕ) (m : Machine) → (clear_timer t m).state ≡ m.state
clear_timer-state none m = refl
clear_timer-state (some id) m = refl

fire-connected : (id : ℕ) (m : Machine) → (fire id m).state ≡ connected → m.state ≡ connected
unfolding fire
fire-connected id m h = elim (Option-cases m.session) [
  | inl e ↦ ground (arith, h, e)
  | inr (s, e) ↦ ground (arith, h, e)
]

handle_ws_close-connected :
    (code random : ℕ) (m : Machine)
    → (handle_ws_close code random m).state ≡ connected
    → m.state ≡ connected
unfolding handle_ws_close schedule_reconnect
handle_ws_close-connected code random m h = ground arith

begin_terminate-connected :
    (o : Option SessionInfo) (m : Machine)
    → (begin_terminate o m).state ≡ connected
    → m.state ≡ connected
begin_terminate-connected none m h = h
begin_terminate-connected (some s) m h = rw (clear_timer-state m.timer m) at h

begin_validate-connected :
    (o : Option SessionInfo) (m : Machine)
    → (begin_validate o m).state ≡ connected
    → m.state ≡ connected
begin_validate-connected none m h = h
begin_validate-connected (some s) m h = h

-- The terminal becomes connected by one event alone, the progress message of stage READY: after
-- any other event it is connected only if it was before.
step-connected :
    (stored : Option String) (e : Event) (m : Machine)
    → (step stored e m).state ≡ connected
    → (m.state ≡ connected) ⊎ ((msg : String) × (e ≡ ws_message (progress "READY" msg)))
unfolding step on_health connect_ws
step-connected stored start_clicked m h = cc
step-connected stored retry_clicked m h = cc
step-connected stored (session_given (answered s)) m h = cc
step-connected stored (session_given (rejected s)) m h = cc
step-connected stored (worker_checked trial s healthy) m h = cc
step-connected stored (worker_checked trial s dead) m h = cc
step-connected stored (worker_checked trial s bad_gateway) m h = cc
step-connected stored (worker_checked trial s unreachable) m h = cc
step-connected stored ws_opened m h = inl h
step-connected stored (ws_message (progress a b)) m h = elim (Bool-cases (a == "READY")) [
  | inl e ↦ inr (b, ap (λ x. ws_message (progress x b)) (eq_of_beq a "READY" e))
  | inr e ↦ inl (rw e at h)
]
step-connected stored (ws_message (ttl_left n)) m h = inl h
step-connected stored (ws_message noise) m h = inl h
step-connected stored (ws_closed code random) m h = inl (handle_ws_close-connected code random m h)
step-connected stored (timer_fired id) m h = inl (fire-connected id m h)
step-connected stored (health_given s healthy) m h = inl h
step-connected stored (health_given s dead) m h = cc
step-connected stored (health_given s bad_gateway) m h = cc
step-connected stored (health_given s unreachable) m h = cc
step-connected stored (reconnect_checked s healthy) m h = cc
step-connected stored (reconnect_checked s dead) m h = cc
step-connected stored (reconnect_checked s bad_gateway) m h = cc
step-connected stored (reconnect_checked s unreachable) m h = cc
step-connected stored terminate_clicked m h = inl (begin_terminate-connected m.session m h)
step-connected stored terminate_done m h = cc
step-connected stored validate_clicked m h = inl (begin_validate-connected m.session m h)
step-connected stored (validate_done (answered v)) m h = inl h
step-connected stored (validate_done (rejected s)) m h = inl h
step-connected stored unmounted m h = inl (rw (clear_timer-state m.timer m) at h)

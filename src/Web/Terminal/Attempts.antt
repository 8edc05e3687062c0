-- ===== src/Web/Terminal/Attempts.antt =====
-- Attempts to reconnect that fail, and the end of a session by its user.
use devops_lab.Prelude.{
  ℕ, ◌+◌, ◌<◌, ◌≡◌, refl, inl, inr, true, false, ◌||◌, Option, some, String, List, [], ◌∷◌, ◌++◌,
  nat_eq, string_eq, ◌==◌, leb, length, arith, Option-cases, eq_self,
}
use devops_lab.Web.Terminal.{
  Machine, SessionInfo, healthy, Event, ws_closed, timer_fired, health_given, reconnect_checked,
  terminate_clicked, terminate_done, step, connecting, sandbox_lost, idle, fire, on_health,
  handle_ws_close, schedule_reconnect, connect_ws,
}
use devops_lab.Web.Terminal.Runs.{run}

-- The events of one attempt to reconnect: the socket drops, the timer fires, and both health checks
-- succeed.
abbrev pub attempt_of : SessionInfo → ℕ → ℕ → Machine → List Event
attempt_of s code random m =
    ws_closed code random
    ∷ timer_fired m.next_timer
    ∷ health_given s healthy
    ∷ reconnect_checked s healthy
    ∷ []

-- Drops, each followed by an attempt whose socket has not opened at its end.
unfoldable pub attempts : Option String → SessionInfo → ℕ → List ℕ → Machine → Machine
unfolding run
attempts stored s code [] m = m
attempts stored s code (r ∷ rs) m = attempts stored s code rs (run stored (attempt_of s code r m) m)

-- What an attempt needs: a session, and that nobody closes the socket on purpose.
pub record IsOnline (s : SessionInfo) (m : Machine) : Type 0 where
  pub has_session : m.session ≡ some s
  pub open_socket : m.intentional_close ≡ false

module _ (stored : Option String) (s : SessionInfo) (code : ℕ) where
  attempt-lem :
      (r : ℕ) (m : Machine)
      → (code == 1000 || code == 1001) ≡ false
      → m.attempt < 6
      → IsOnline s m
      → let m' = run stored (attempt_of s code r m) m in
        IsOnline s m' × (m'.attempt ≡ m.attempt + 1) × (m'.state ≡ connecting)
  unfolding run step fire on_health handle_ws_close schedule_reconnect connect_ws
  attempt-lem r m c lt h =
      let full : leb 6 m.attempt ≡ false = ground arith in
      simp (h.open_socket, c, full, eq_self m.next_timer, h.has_session)
        (record { has_session = refl; open_socket = ground arith }, refl, refl)

  -- Reconnecting ends if no new socket opens (an open resets the count): with a session and no
  -- intentional close, after as many drops as the budget of six has left, each followed by its
  -- timer, health checks that succeed and a socket that never opens, the next drop gives the
  -- sandbox up. The drops are of a code other than 1000 and 1001.
  pub attempts-lost :
      (rs : List ℕ) (r : ℕ) (m : Machine)
      → (code == 1000 || code == 1001) ≡ false
      → m.attempt + length rs ≡ 6
      → IsOnline s m
      → let m' = step stored (ws_closed code r) (attempts stored s code rs m) in
        (m'.state ≡ sandbox_lost) × (m'.attempt ≡ 6)
  unfolding attempts step handle_ws_close schedule_reconnect
  attempts-lost [] r m c e h =
      let full : leb 6 m.attempt ≡ true = ground arith in
      simp (h.open_socket, c, full) (refl, omega arith)
  attempts-lost (x ∷ rs) r m c e h =
      let one = attempt-lem x m c (omega arith) h in
      attempts-lost rs r (run stored (attempt_of s code x m) m) c (omega (arith, one.1)) one.0

module _ (stored : Option String) (s : SessionInfo) where
  -- If the socket's close event (with code 1005) arrives while the request to terminate a session
  -- is under way, and fewer than six attempts are counted, the terminal is idle when the request
  -- is done, but the timer of a reconnection is left, and when it fires the terminal shows a lost
  -- sandbox.
  pub terminate-returns :
      (r : ℕ) (m : Machine)
      → m.attempt < 6
      → m.session ≡ some s
      → let ended = terminate_clicked ∷ ws_closed 1005 r ∷ terminate_done ∷ [] in
        ((run stored ended m).state ≡ idle)
        × ((run stored (ended ++ timer_fired m.next_timer ∷ []) m).state ≡ sandbox_lost)
  unfolding run step handle_ws_close schedule_reconnect fire
  terminate-returns r m lt h =
      let full : leb 6 m.attempt ≡ false = ground arith in
      elim (Option-cases m.timer) [
        | inl e ↦ simp (h, e, full, eq_self m.next_timer) (refl, refl)
        | inr (id, e) ↦ simp (h, e, full, eq_self m.next_timer) (refl, refl)
      ]

-- ===== src/Core/Sessions.antt =====
-- services/core/src/modules/challenge/challenge.routes.ts: the end of a session by its user
-- (DELETE /session/:id, DELETE /session/active), and its state as the terminal asks for it
-- (GET /session/:id, GET /session/:id/health).
pub mod Lifecycle
pub mod Owned
pub mod Ending
use devops_lab.Prelude.{
  ℕ, Bool, true, false, ◌&&◌, Option, none, some, String, List, [], ◌∷◌, nat_eq, string_eq, ◌==◌,
  if◌then◌else◌,
}
use devops_lab.Services.{Prisma, Redis}
use devops_lab.Core.Rows.{
  LabSession, SessionStatus, Message, session_ended, SessionEndReason, ended_terminated, Queue,
  terminate_sandbox, Key, terminated, is_active,
}
use devops_lab.Core.State.{Core, Delivery, outbox_row, publish_inline}
use devops_lab.Core.Start.{active_of}

-- The clock, the fresh identifier of the event, whether the session's update and the event's row are
-- written, and how the brokers answer.
pub record EndRequest : Type 0 where
  pub now : ℕ
  pub fresh_event : ℕ
  pub session_ok : Bool
  pub event_ok : Bool
  pub delivery : Delivery

-- `where: { id, status: "ACTIVE" }`
abbrev pub is_live : ℕ → LabSession → Bool
is_live id r = r.id == id && is_active r.status

-- `data: { status, endedAt: new Date() }`
abbrev pub close_with : SessionStatus → ℕ → LabSession → LabSession
close_with status now r = record r { status = status; ended_at = some now }

module _ (P : Prisma) (R : Redis Key ℕ) where
  -- The two writes, each in a transaction of its own, and the publication for one session; `false` if
  -- a write throws, which ends the request and leaves the other write.
  unfoldable pub end_one : EndRequest → ℕ → Core P R → Core P R × Bool
  unfolding publish_inline outbox_row
  end_one q id s =
      let payload = session_ended id ended_terminated in
      let written = record s {
        sessions =
            if q.session_ok
            then P.update_many (is_live id) (close_with terminated q.now) s.sessions
            else s.sessions;
        outbox =
            if q.event_ok
            then P.create (outbox_row q.fresh_event "SessionEndedEvent" payload q.now) s.outbox
            else s.outbox;
      } in
      if q.session_ok && q.event_ok
      then (
        publish_inline P R q.delivery "SessionEndedEvent" terminate_sandbox payload written,
        true,
      )
      else (written, false)

  -- DELETE /session/:id. The handler does not read the caller.
  unfoldable pub delete_session : EndRequest → String → ℕ → Core P R → Core P R × Bool
  unfolding end_one
  delete_session q caller id s = end_one q id s

  -- The loop of DELETE /session/active, over the sessions that were read; `q` gives what each one
  -- meets.
  unfoldable pub end_all : (ℕ → EndRequest) → List LabSession → Core P R → Core P R × Bool
  unfolding end_one
  end_all q [] s = (s, true)
  end_all q (r ∷ rs) s =
      let (s', committed) = end_one (q r.id) r.id s in
      let rest = end_all q rs s' in if committed then rest else (s', false)

  unfoldable pub delete_active : (ℕ → EndRequest) → String → Core P R → Core P R × Bool
  unfolding end_all
  delete_active q user_id s = end_all q (P.find_many (active_of user_id) s.sessions) s

  -- GET /session/:id/health: the field `alive`.
  unfoldable pub session_health : ℕ → Core P R → Bool
  session_health id s = elim (P.find_first (λ (r : LabSession). r.id == id) s.sessions) [
    | none ↦ false
    | some r ↦ is_active r.status
  ]

  -- GET /session/:id: the status, `none` for 404.
  unfoldable pub session_status : ℕ → Core P R → Option SessionStatus
  session_status id s = elim (P.find_first (λ (r : LabSession). r.id == id) s.sessions) [
    | none ↦ none
    | some r ↦ some r.status
  ]

-- ===== src/Core/Reaper.antt =====
-- services/core/src/plugins/session-reaper.ts: one cycle of the session reaper.
pub mod Promise
pub mod Expiry
use devops_lab.Prelude.{
  ℕ, ◌+◌, ◌*◌, Bool, true, false, ◌&&◌, ◌||◌, not, Option, none, some, List, [], ◌∷◌, ◌++◌, nat_eq,
  string_eq, ◌==◌, ltb, take, if◌then◌else◌,
}
use devops_lab.Services.{Prisma, Redis}
use devops_lab.Core.Rows.{
  LabSession, OutboxEvent, Message, session_ended, ended_expired, terminate_sandbox, Key,
  reaper_leader, is_active, is_guest, terminated,
}
use devops_lab.Core.State.{Core, Delivery, outbox_row, mark_processed}
use devops_lab.Core.Sessions.{close_with}

-- What one session meets: the clock, the fresh identifier of the event, whether the session's update
-- and the event's row are written, and how the brokers (and the update that follows) answer.
pub record Reap : Type 0 where
  pub now : ℕ
  pub fresh_event : ℕ
  pub session_ok : Bool
  pub event_ok : Bool
  pub delivery : Delivery

abbrev pub leader_lock_ttl_seconds : ℕ
leader_lock_ttl_seconds = 90

-- `fastify.guestTrialTTLMins || 10`
abbrev pub guest_ttl_mins : ℕ → ℕ
guest_ttl_mins mins = if mins == 0 then 10 else mins

-- The `where` of the query: `startedAt < now - ttl`, with the subtraction on the other side.
abbrev pub is_expired : ℕ → ℕ → ℕ → LabSession → Bool
is_expired now ttl guest_ttl r =
    is_active r.status
    && (if is_guest r.user_id
        then ltb (r.started_at + guest_ttl_mins guest_ttl * 60000) now
        else ltb (r.started_at + ttl * 60000) now)

-- `where: { id }`
abbrev pub has_id : ℕ → LabSession → Bool
has_id id r = r.id == id

module _ (P : Prisma) (R : Redis Key ℕ) where
  -- The publication after the writes; the event is marked by its identifier.
  unfoldable pub emit_ended : Reap → ℕ → Core P R → Core P R
  emit_ended q id s =
      let payload = session_ended id ended_expired in
      let emitted = record s { kafka = s.kafka ++ payload ∷ [] } in
      let published = record emitted { rabbit = s.rabbit ++ (terminate_sandbox, payload) ∷ [] } in
      let marked = record published {
        outbox = P.update_many (λ (e : OutboxEvent). e.id == q.fresh_event) mark_processed s.outbox;
      } in
      if q.delivery.kafka_ok
      then (if q.delivery.rabbit_ok
          then (if q.delivery.mark_ok then marked else published)
          else emitted)
      else s

  -- One session: its two writes, each in a transaction of its own, then the publication; an error is
  -- logged, and the loop goes on.
  unfoldable pub reap_one : Reap → LabSession → Core P R → Core P R
  unfolding emit_ended outbox_row
  reap_one q r s =
      let payload = session_ended r.id ended_expired in
      let written = record s {
        sessions =
            if q.session_ok
            then P.update_many (has_id r.id) (close_with terminated q.now) s.sessions
            else s.sessions;
        outbox =
            if q.event_ok
            then P.create (outbox_row q.fresh_event "SessionEndedEvent" payload q.now) s.outbox
            else s.outbox;
      } in
      if q.session_ok && q.event_ok then emit_ended q r.id written else written

  unfoldable pub reap_all : (ℕ → Reap) → List LabSession → Core P R → Core P R
  unfolding reap_one
  reap_all q [] s = s
  reap_all q (r ∷ rs) s = reap_all q rs (reap_one (q r.id) r s)

  -- `SET leader instance EX 90 NX`, then the expired sessions, at most fifty.
  unfoldable pub reap : (ℕ → Reap) → ℕ → ℕ → ℕ → ℕ → Core P R → Core P R
  unfolding reap_all
  reap q now instance_id ttl guest_ttl s = elim (R.get s.kv now reaper_leader) [
    | some leader ↦ s
    | none ↦
        let led = record s {
          kv = R.set_ex s.kv now reaper_leader instance_id leader_lock_ttl_seconds;
        } in
        reap_all q (take 50 (P.find_many (is_expired now ttl guest_ttl) s.sessions)) led
  ]

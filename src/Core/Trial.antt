-- ===== src/Core/Trial.antt =====
-- services/core/src/modules/challenge/challenge.routes.ts: POST /challenges/:id/trial and
-- GET /challenges/:id/trial/status, stage by stage in the order of the handlers.
pub mod Once
pub mod Limited
pub mod Promise
use Prim.Native.String.{◌++◌ as str_append}
use devops_lab.Prelude.{
  ℕ, ◌*◌, ◌==◌, nat_eq, string_eq, Bool, true, false, ◌&&◌, Option, none, some, String, List, [],
  ◌∷◌, ltb, leb, is_some, if◌then◌else◌,
}
use devops_lab.Services.{Prisma, Redis}
use devops_lab.Core.Rows.{
  User, Challenge, Message, session_started, provision_sandbox, Key, session_lock, trial_used,
  trial_ip,
}
use devops_lab.Core.State.{Core, Delivery, outbox_row, publish_inline}
use devops_lab.Core.Start.{new_session}

-- The challenge, the cookie (the identifier of the guest, if it is set), the fresh identifiers, the
-- address, the clock, whether the session's row and the event's row are written, and
-- how the brokers answer.
pub record TrialRequest : Type 0 where
  pub challenge_id : ℕ
  pub cookie : Option String
  pub fresh_guest : String
  pub client_ip : String
  pub now : ℕ
  pub lock_read_at : ℕ
  pub fresh_session : ℕ
  pub fresh_event : ℕ
  pub session_ok : Bool
  pub event_ok : Bool
  pub delivery : Delivery
  pub guest_ttl_mins : ℕ

-- The replies: 404, 403 twice, 429, 200 with the session of the lock, 500, and 201.
pub data TrialReply : Type 0 where
  no_challenge : TrialReply
  not_eligible : TrialReply
  already_used : TrialReply
  rate_limited : TrialReply
  running : ℕ → TrialReply
  trial_failed : TrialReply
  trial_created : ℕ → TrialReply

-- `if (!guestId)`: an empty cookie is no cookie.
abbrev pub guest_of : Option String → String → String
guest_of none fresh = fresh
guest_of (some c) fresh = if c == "" then fresh else c

abbrev pub guest_user_id : String → String
guest_user_id guest = str_append "guest_" guest

abbrev pub guest_user : String → User
guest_user guest = record {
  id = guest_user_id guest;
  org_id = none;
  xp = 0;
  current_streak = 0;
  longest_streak = 0;
  last_activity_date = none;
}

abbrev pub trial_provider : Challenge → String
trial_provider c = if c.required_provider == "" then "docker" else c.required_provider

-- `fastify.guestTrialTTLMins || 10`
abbrev pub trial_ttl : ℕ → ℕ
trial_ttl mins = if mins == 0 then 10 else mins

abbrev pub trial_payload : TrialRequest → String → Challenge → Message
trial_payload q guest c = session_started (record {
  session_id = q.fresh_session;
  user_id = guest_user_id guest;
  challenge_id = c.id;
  image = c.docker_image;
  ttl_mins = trial_ttl q.guest_ttl_mins;
  required_provider = trial_provider c;
})

abbrev pub trial_retention_seconds : ℕ
trial_retention_seconds = 30 * 24 * 60 * 60

module _ (P : Prisma) (R : Redis Key ℕ) where
  -- The two rows, each in a transaction of its own, the mark that the trial is used, and the
  -- publication; or the roll back of the lock, which leaves a row that was written.
  unfoldable pub commit_trial : TrialRequest → String → Challenge → Core P R → Core P R × TrialReply
  unfolding publish_inline outbox_row
  commit_trial q guest c s =
      let user_id = guest_user_id guest in
      let payload = trial_payload q guest c in
      let written = record s {
        sessions =
            if q.session_ok
            then P.create (new_session q.fresh_session user_id c.id q.now) s.sessions
            else s.sessions;
        outbox =
            if q.event_ok
            then P.create (outbox_row q.fresh_event "SessionStartedEvent" payload q.now) s.outbox
            else s.outbox;
      } in
      let marked = record written {
        kv = R.set_ex s.kv q.now (trial_used guest) q.fresh_session trial_retention_seconds;
      } in
      if q.session_ok && q.event_ok
      then (
        publish_inline P R q.delivery "SessionStartedEvent" (provision_sandbox (trial_provider c))
            payload marked,
        trial_created q.fresh_session,
      )
      else (record written { kv = R.del s.kv (session_lock user_id c.id) }, trial_failed)

  unfoldable pub lock_trial : TrialRequest → String → Challenge → Core P R → Core P R × TrialReply
  unfolding commit_trial
  lock_trial q guest c s =
      let key = session_lock (guest_user_id guest) c.id in
      elim (R.get s.kv q.now key) [
        | some taken ↦ elim (R.get s.kv q.lock_read_at key) [
          | some holder ↦ (s, running holder)
          | none ↦ commit_trial q guest c s
        ]
        | none ↦
            commit_trial q guest c (record s { kv = R.set_ex s.kv q.now key q.fresh_session 10 })
      ]

  -- `user.upsert` with an empty update
  abbrev pub with_guest : String → Core P R → Core P R
  with_guest guest s =
      if is_some (P.find_first (λ (u : User). u.id == guest_user_id guest) s.users)
      then s
      else record s { users = P.create (guest_user guest) s.users }

  -- The counter of the address, which lives an hour from its first increment.
  abbrev pub counted : TrialRequest → Core P R → Core P R
  counted q s =
      let kv = R.incr s.kv q.now (trial_ip q.client_ip) in
      record s {
        kv =
            if R.counter kv q.now (trial_ip q.client_ip) == 1
            then R.expire kv q.now (trial_ip q.client_ip) 3600
            else kv;
      }

  unfoldable pub admit_trial : TrialRequest → String → Challenge → Core P R → Core P R × TrialReply
  unfolding lock_trial
  admit_trial q guest c s =
      let attempts =
        R.counter (R.incr s.kv q.now (trial_ip q.client_ip)) q.now (trial_ip q.client_ip) in
      if ltb 2 attempts
      then (counted q s, rate_limited)
      else lock_trial q guest c (with_guest guest (counted q s))

  unfoldable pub start_trial : TrialRequest → Core P R → Core P R × TrialReply
  unfolding admit_trial
  start_trial q s =
      let guest = guest_of q.cookie q.fresh_guest in
      elim (P.find_first (λ (c : Challenge). c.id == q.challenge_id) s.challenges) [
        | none ↦ (s, no_challenge)
        | some c ↦
            if c.guest_trial_eligible
            then (if is_some (R.get s.kv q.now (trial_used guest))
                then (s, already_used)
                else admit_trial q guest c s)
            else (s, not_eligible)
      ]

  abbrev pub used_by : Option String → ℕ → Core P R → Bool
  used_by none now s = false
  used_by (some guest) now s =
      if guest == "" then false else is_some (R.get s.kv now (trial_used guest))

  -- GET /challenges/:id/trial/status: whether the challenge is eligible and whether the trial is used;
  -- `none` for 404.
  unfoldable pub trial_status : Option String → ℕ → ℕ → Core P R → Option (Bool × Bool)
  trial_status cookie challenge_id now s =
      elim (P.find_first (λ (c : Challenge). c.id == challenge_id) s.challenges) [
        | none ↦ none
        | some c ↦ some (c.guest_trial_eligible, used_by cookie now s)
      ]

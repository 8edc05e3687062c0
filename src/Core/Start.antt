-- ===== src/Core/Start.antt =====
-- services/core/src/modules/challenge/challenge.routes.ts: POST /challenges/:id/start, stage by
-- stage in the order of the handler. What comes from outside is in `StartRequest`.
pub mod Outcome
pub mod Limits
pub mod Branches
use devops_lab.Prelude.{
  ℕ, zero, suc, ◌+◌, Bool, true, false, ◌&&◌, Option, none, some, String, List, [], ◌∷◌, ◌++◌,
  nat_eq, string_eq, ◌==◌, leb, not, if◌then◌else◌,
}
use devops_lab.Services.{Prisma, Redis}
use devops_lab.Core.Rows.{
  LabSession, User, Org, PlanTier, free, pro, team, Challenge, Message, session_started,
  provision_sandbox, session_lock, Key, active, terminated, is_active,
}
use devops_lab.Core.State.{Core, Delivery, outbox_row, publish_inline}
use devops_lab.Core.Probe.{Probe, HealthResponse, probe_session}

-- The caller and the challenge, the clock (before and after the probe, and at the `GET`), the answer of the router,
-- the fresh identifiers, whether the session's row and the event's row are written, and how the brokers
-- answer.
pub record StartRequest : Type 0 where
  pub user_id : String
  pub challenge_id : ℕ
  pub now : ℕ
  pub later : ℕ
  pub lock_read_at : ℕ
  pub response : HealthResponse
  pub fresh_session : ℕ
  pub fresh_event : ℕ
  pub session_ok : Bool
  pub event_ok : Bool
  pub delivery : Delivery
  pub session_ttl_mins : ℕ

-- The replies: 404, 403, 200 with the live session, 403 with the limit, 200 with the session of
-- the lock, 500, and 201.
pub data StartReply : Type 0 where
  not_found : StartReply
  forbidden : StartReply
  existing : ℕ → StartReply
  limit_reached : ℕ → StartReply
  cached : ℕ → StartReply
  failed : StartReply
  created : ℕ → StartReply

abbrev pub plan_limit : PlanTier → ℕ
plan_limit pro = 3
plan_limit team = 5
plan_limit free = 1

-- A challenge of an organisation is open to the members of that organisation alone.
abbrev pub org_mismatch : Option ℕ → Option ℕ → Bool
org_mismatch none user_org = false
org_mismatch (some o) none = true
org_mismatch (some o) (some u) = not (o == u)

abbrev pub org_of : Option User → Option ℕ
org_of none = none
org_of (some u) = u.org_id

abbrev pub active_of : String → LabSession → Bool
active_of user_id s = s.user_id == user_id && is_active s.status

abbrev pub active_for : String → ℕ → LabSession → Bool
active_for user_id challenge_id s =
    s.user_id == user_id && (s.challenge_id == challenge_id && is_active s.status)

abbrev pub end_session : ℕ → LabSession → LabSession
end_session now s = record s { status = terminated; ended_at = some now }

abbrev pub new_session : ℕ → String → ℕ → ℕ → LabSession
new_session id user_id challenge_id now = record {
  id = id;
  user_id = user_id;
  challenge_id = challenge_id;
  status = active;
  started_at = now;
  ended_at = none;
}

abbrev pub start_payload : StartRequest → Challenge → Message
start_payload q c = session_started (record {
  session_id = q.fresh_session;
  user_id = q.user_id;
  challenge_id = c.id;
  image = c.docker_image;
  ttl_mins = q.session_ttl_mins;
  required_provider = if c.required_provider == "" then "docker" else c.required_provider;
})

module _ (P : Prisma) (R : Redis Key ℕ) where
  -- `userDb?.org?.planTier || "FREE"`
  unfoldable pub tier_of : Core P R → Option User → PlanTier
  tier_of s none = free
  tier_of s (some u) = elim u.org_id [
    | none ↦ free
    | some o ↦ elim (P.find_first (λ (r : Org). r.id == o) s.orgs) [
      | none ↦ free
      | some r ↦ r.plan_tier
    ]
  ]

  -- The rows of the session and of its event, each written in a transaction of its own (the tenant
  -- client of packages/db/index.ts opens one for every operation); the roll back of the lock, which
  -- leaves a row that was written; and the publication.
  unfoldable pub commit_session : StartRequest → Challenge → Core P R → Core P R × StartReply
  unfolding publish_inline outbox_row
  commit_session q c s =
      let payload = start_payload q c in
      let written = record s {
        sessions =
            if q.session_ok
            then P.create (new_session q.fresh_session q.user_id c.id q.now) s.sessions
            else s.sessions;
        outbox =
            if q.event_ok
            then P.create (outbox_row q.fresh_event "SessionStartedEvent" payload q.now) s.outbox
            else s.outbox;
      } in
      if q.session_ok && q.event_ok
      then (
        publish_inline P R q.delivery "SessionStartedEvent" (provision_sandbox c.required_provider)
            payload written,
        created q.fresh_session,
      )
      else (record written { kv = R.del s.kv (session_lock q.user_id c.id) }, failed)

  -- `SET lockKey sessionId EX 10 NX`, and the session of the lock if it is taken. A lock that has
  -- gone by the time of the `GET` lets the handler go on.
  unfoldable pub lock_session : StartRequest → Challenge → Core P R → Core P R × StartReply
  unfolding commit_session
  lock_session q c s =
      let key = session_lock q.user_id c.id in
      elim (R.get s.kv q.now key) [
        | some taken ↦ elim (R.get s.kv q.lock_read_at key) [
          | some holder ↦ (s, cached holder)
          | none ↦ commit_session q c s
        ]
        | none ↦ commit_session q c (record s { kv = R.set_ex s.kv q.now key q.fresh_session 10 })
      ]

  unfoldable pub limit_session :
      StartRequest → Challenge → Option User → Core P R → Core P R × StartReply
  unfolding lock_session tier_of
  limit_session q c user s =
      let limit = plan_limit (tier_of s user) in
      if leb limit (P.count_rows (active_of q.user_id) s.sessions)
      then (s, limit_reached limit)
      else lock_session q c s

  -- The session that the caller has on this challenge: returned if it is alive, else ended.
  unfoldable pub reuse_session :
      StartRequest → Challenge → Option User → Core P R → Probe → Core P R × Probe × StartReply
  unfolding limit_session probe_session
  reuse_session q c user s p = elim (P.find_first (active_for q.user_id c.id) s.sessions) [
    | none ↦ let (s', reply) = limit_session q c user s in (s', p, reply)
    | some old ↦
        let (p', alive) = probe_session q.now q.later q.response p in
        let ended = record s {
          sessions =
              P.update_many (λ (r : LabSession). r.id == old.id) (end_session q.later) s.sessions;
        } in
        let (s', reply) = limit_session q c user ended in
        if alive then (s, p', existing old.id) else (s', p', reply)
  ]

  unfoldable pub start_challenge : StartRequest → Core P R → Probe → Core P R × Probe × StartReply
  unfolding reuse_session
  start_challenge q s p =
      elim (P.find_first (λ (c : Challenge). c.id == q.challenge_id) s.challenges) [
        | none ↦ (s, p, not_found)
        | some c ↦
            let user = P.find_first (λ (u : User). u.id == q.user_id) s.users in
            let (s', p', reply) = reuse_session q c user s p in
            if org_mismatch c.contributed_by_org_id (org_of user)
            then (s, p, forbidden)
            else (s', p', reply)
      ]

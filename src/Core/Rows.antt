-- ===== src/Core/Rows.antt =====
-- The rows of the core service's tables (packages/db/prisma/schema.prisma), the events and the
-- queues (packages/messaging/types.ts), and the Redis keys. Identifiers that are only compared are
-- numbers; a user's is a text, since the code looks at its prefix.
use text.Mathlib.Text.{starts_with}
use text.Mathlib.TextEquality.{eq_iff}
use devops_lab.Prelude.{
  ℕ, ◌≡◌, refl, Bool, true, false, Option, String, ℕ_discrete, ◌==◌, string_eq, inl, inr,
  Bool-cases, any, List, ◌||◌, arith,
}

pub data SessionStatus : Type 0 where
  active completed expired terminated : SessionStatus

abbrev pub is_active : SessionStatus → Bool
is_active active = true
is_active _ = false

abbrev pub is_completed : SessionStatus → Bool
is_completed completed = true
is_completed _ = false

pub record LabSession : Type 0 where
  pub id : ℕ
  pub user_id : String
  pub challenge_id : ℕ
  pub status : SessionStatus
  pub started_at : ℕ
  pub ended_at : Option ℕ

pub data PlanTier : Type 0 where
  free pro team : PlanTier

pub record Org : Type 0 where
  pub id : ℕ
  pub plan_tier : PlanTier

pub record User : Type 0 where
  pub id : String
  pub org_id : Option ℕ
  pub xp : ℕ
  pub current_streak : ℕ
  pub longest_streak : ℕ
  pub last_activity_date : Option ℕ

-- `path_id` is the learning path of the challenge's module.
pub record Challenge : Type 0 where
  pub id : ℕ
  pub xp : ℕ
  pub docker_image : String
  pub required_provider : String
  pub contributed_by_org_id : Option ℕ
  pub guest_trial_eligible : Bool
  pub path_id : Option ℕ

pub data SessionEndReason : Type 0 where
  ended_completed ended_terminated ended_expired : SessionEndReason

pub record SessionStarted : Type 0 where
  pub session_id : ℕ
  pub user_id : String
  pub challenge_id : ℕ
  pub image : String
  pub ttl_mins : ℕ
  pub required_provider : String

-- The payload of an outbox event. `other` is any payload that is not a session's.
pub data Message : Type 0 where
  session_started : SessionStarted → Message
  session_ended : ℕ → SessionEndReason → Message
  other : ℕ → Message

unfoldable pub string_discrete : Discrete String
string_discrete a b = elim (Bool-cases (a == b)) [
  | inl h ↦ yes ((eq_iff a b).0 h)
  | inr h ↦ no (λ e. absurd (ground (arith, (eq_iff a b).1 e)))
]

pub Message-discrete : Discrete Message
Message-discrete = hlevel (ℕ_discrete, string_discrete)

-- `payload: { equals: … }`
pub same_message : Message → Message → Bool
same_message a b = elim (Message-discrete a b) [ yes _ ↦ true | no _ ↦ false ]

pub same_message_self : (m : Message) → same_message m m ≡ true
unfolding same_message
same_message_self m =
    elim (Message-discrete m m) as (λ d. elim d [ yes _ ↦ true | no _ ↦ false ] ≡ true) [
      | yes _ ↦ refl
      | no h ↦ absurd (h refl)
    ]

-- The event is in the log.
abbrev pub has : Message → List Message → Bool
has m = any (same_message m)

pub record OutboxEvent : Type 0 where
  pub id : ℕ
  pub event_type : String
  pub payload : Message
  pub created_at : ℕ
  pub processed : Bool
  pub retry_count : ℕ
  pub failed : Bool

-- The event types that the outbox poller sends.
abbrev pub is_started_type : String → Bool
is_started_type t = t == "SessionStartedEvent" || t == "session.started"

abbrev pub is_ended_type : String → Bool
is_ended_type t = t == "SessionEndedEvent" || t == "session.ended"

abbrev pub is_session_type : String → Bool
is_session_type t = is_started_type t || is_ended_type t

pub data Queue : Type 0 where
  provision_sandbox : String → Queue
  terminate_sandbox : Queue

pub data Key : Type 0 where
  session_lock : String → ℕ → Key
  trial_used : String → Key
  trial_ip : String → Key
  reaper_leader : Key

unfoldable pub Key-discrete : Discrete Key
Key-discrete = hlevel (ℕ_discrete, string_discrete)

-- `userId.startsWith("guest_")`
abbrev pub is_guest : String → Bool
is_guest u = starts_with u "guest_"

-- ===== src/Core/Start/Outcome.antt =====
-- What a reply of POST /challenges/:id/start means for the tables, from the lock on.
use devops_lab.Prelude.{
  ℕ, ◌+◌, ◌≤◌, ◌≡◌, refl, Bool, true, false, List, [], ◌∷◌, inl, inr, Bool-cases, Option-cases,
  arith, nat_eq, string_eq, ◌==◌, count, count-append, any, any-append, update_where, eq_self,
  String, ◌∙◌, ◌⊎◌, ◌++◌, ◌&&◌, if◌then◌else◌,
}
use devops_lab.Services.{Prisma, Redis}
use devops_lab.Core.Rows.{
  Key, Challenge, LabSession, OutboxEvent, Message, Queue, session_lock, provision_sandbox,
  same_message, same_message_self,
}
use devops_lab.Core.State.{Core, Delivery, outbox_row, publish_inline, undelivered, mark_processed}
use devops_lab.Core.Start.{
  StartRequest, StartReply, created, failed, commit_session, lock_session, active_of, start_payload,
  new_session, end_session,
}

-- An event with this payload is in the outbox.
abbrev pub recorded : Message → List OutboxEvent → Bool
recorded m = any (λ (e : OutboxEvent). same_message e.payload m)

-- A reply other than 201 and 500.
abbrev pub is_refused : StartReply → Bool
is_refused (created _) = false
is_refused failed = false
is_refused _ = true

recorded-mark :
    (m n : Message) (type : String) (es : List OutboxEvent)
    → recorded m (update_where (undelivered type n) mark_processed es) ≡ recorded m es
recorded-mark m n type [] = refl
recorded-mark m n type (e ∷ es) = ground (arith, recorded-mark m n type es)

-- Ending one session opens none.
pub count-end :
    (u : String) (id now : ℕ) (rs : List LabSession)
    → count (active_of u) (update_where (λ (r : LabSession). r.id == id) (end_session now) rs)
      ≤ count (active_of u) rs
count-end u id now [] = omega arith
count-end u id now (r ∷ rs) = ground (arith, count-end u id now rs)

module _ (P : Prisma) (R : Redis Key ℕ) where
  pub publish_inline-sessions :
      (d : Delivery) (type : String) (k : Queue) (m : Message) (s : Core P R)
      → (publish_inline P R d type k m s).sessions ≡ s.sessions
  unfolding publish_inline
  publish_inline-sessions d type k m s = ground arith

  pub publish_inline-recorded :
      (d : Delivery) (type : String) (k : Queue) (m n : Message) (s : Core P R)
      → recorded m (P.rows (publish_inline P R d type k n s).outbox) ≡ recorded m (P.rows s.outbox)
  unfolding publish_inline
  publish_inline-recorded d type k m n s =
      let update = P.rows-update_many (undelivered type n) mark_processed s.outbox in
      ground (arith, update, recorded-mark m n type (P.rows s.outbox))

-- The event of a start, as it is written.
abbrev pub event_row : StartRequest → Challenge → OutboxEvent
event_row q c = outbox_row q.fresh_event "SessionStartedEvent" (start_payload q c) q.now

module _ (P : Prisma) (R : Redis Key ℕ) (q : StartRequest) where
  -- What a reply of 201 means for the tables: one more active session of the caller, and its event.
  pub record Opened (c : Challenge) (s s' : Core P R) (id : ℕ) : Type 0 where
    pub fresh : id ≡ q.fresh_session
    pub one_more :
        count (active_of q.user_id) (P.rows s'.sessions)
        ≡ count (active_of q.user_id) (P.rows s.sessions) + 1
    pub event : recorded (start_payload q c) (P.rows s'.outbox) ≡ true

  -- What a reply other than 201 and 500 means: nothing is written to the outbox or sent, and no session opens.
  pub record Refused (s s' : Core P R) : Type 0 where
    pub outbox_same : s'.outbox ≡ s.outbox
    pub kafka_same : s'.kafka ≡ s.kafka
    pub rabbit_same : s'.rabbit ≡ s.rabbit
    pub no_more :
        count (active_of q.user_id) (P.rows s'.sessions)
        ≤ count (active_of q.user_id) (P.rows s.sessions)

  -- What a reply of 500 means: nothing is sent, and at most one of the two rows is written.
  pub record Failed (c : Challenge) (s s' : Core P R) : Type 0 where
    pub kafka_same : s'.kafka ≡ s.kafka
    pub rabbit_same : s'.rabbit ≡ s.rabbit
    pub one_row :
        ((s'.outbox ≡ s.outbox)
          × (count (active_of q.user_id) (P.rows s'.sessions)
              ≤ count (active_of q.user_id) (P.rows s.sessions) + 1))
        ⊎ ((P.rows s'.outbox ≡ P.rows s.outbox ++ event_row q c ∷ [])
            × (count (active_of q.user_id) (P.rows s'.sessions)
                ≤ count (active_of q.user_id) (P.rows s.sessions)))

  abbrev pub Outcome : Challenge → Core P R → Core P R → StartReply → Type 0
  Outcome c s s' reply =
      ((id : ℕ) → reply ≡ created id → Opened c s s' id)
      × (is_refused reply ≡ true → Refused s s')
      × (reply ≡ failed → Failed c s s')

  pub Refused-self : (s : Core P R) → Refused s s
  Refused-self s = record {
    outbox_same = refl;
    kafka_same = refl;
    rabbit_same = refl;
    no_more = omega arith;
  }

  -- The state in which both rows are written.
  abbrev written : Challenge → Core P R → Core P R
  written c s = record s {
    sessions = P.create (new_session q.fresh_session q.user_id c.id q.now) s.sessions;
    outbox = P.create (event_row q c) s.outbox;
  }

  count-written :
      (c : Challenge) (s : Core P R)
      → count (active_of q.user_id) (P.rows (written c s).sessions)
        ≡ count (active_of q.user_id) (P.rows s.sessions) + 1
  count-written c s =
      let new = new_session q.fresh_session q.user_id c.id q.now in
      rw (P.rows-create new s.sessions) (
        ground (
          arith,
          count-append (active_of q.user_id) (P.rows s.sessions) (new ∷ []),
          eq_self q.user_id,
        ))

  recorded-written :
      (c : Challenge) (s : Core P R)
      → recorded (start_payload q c) (P.rows (written c s).outbox) ≡ true
  unfolding outbox_row
  recorded-written c s =
      let m = start_payload q c in
      let new = outbox_row q.fresh_event "SessionStartedEvent" m q.now in
      rw (P.rows-create new s.outbox) (
        any-append (λ (e : OutboxEvent). same_message e.payload m) (P.rows s.outbox) (new ∷ [])
        ∙ ground (arith, same_message_self m))

  commit_session-Failed :
      (c : Challenge) (s : Core P R)
      → (q.session_ok && q.event_ok) ≡ false
      → Failed c s (commit_session P R q c s).0
  unfolding commit_session
  commit_session-Failed c s h = elim (Bool-cases q.event_ok) [
    | inl e ↦
        let none_new : q.session_ok ≡ false = ground (arith, e, h) in
        rw (e, none_new)
          (record {
            kafka_same = refl;
            rabbit_same = refl;
            one_row = inr (P.rows-create (event_row q c) s.outbox, omega arith);
          })
    | inr e ↦ elim (Bool-cases q.session_ok) [
      | inl o ↦
          let one_new = count-written c s in
          rw (e, o)
            (record {
              kafka_same = refl;
              rabbit_same = refl;
              one_row = inl (refl, omega (arith, one_new));
            })
      | inr o ↦
          rw (e, o)
            (record { kafka_same = refl; rabbit_same = refl; one_row = inl (refl, omega arith) })
    ]
  ]

  commit_session-created :
      (c : Challenge) (s : Core P R)
      → q.session_ok ≡ true
      → q.event_ok ≡ true
      → Opened c s (commit_session P R q c s).0 q.fresh_session
  unfolding commit_session
  commit_session-created c s o e =
      let queue = provision_sandbox c.required_provider in
      let m = start_payload q c in
      let type : String = "SessionStartedEvent" in
      rw (o, e)
        (record {
          fresh = refl;
          one_more =
              rw (publish_inline-sessions P R q.delivery type queue m (written c s))
                (count-written c s);
          event =
              publish_inline-recorded P R q.delivery type queue m m (written c s)
              ∙ recorded-written c s;
        })

  commit_session-reply :
      (c : Challenge) (s : Core P R)
      → (commit_session P R q c s).1
        ≡ (if q.session_ok && q.event_ok then created q.fresh_session else failed)
  unfolding commit_session
  commit_session-reply c s = ground arith

  commit_session-Outcome :
      (c : Challenge) (s : Core P R) → let r = commit_session P R q c s in Outcome c s r.0 r.1
  commit_session-Outcome c s = elim (Bool-cases (q.session_ok && q.event_ok)) [
    | inl e ↦
        let both_ok : (q.session_ok ≡ true) × (q.event_ok ≡ true) = ground (arith, e) in
        let opened = commit_session-created c s both_ok.0 both_ok.1 in
        let reply = commit_session-reply c s in
        (
          λ id h. record {
            fresh = ground (arith, h, e, reply);
            one_more = opened.one_more;
            event = opened.event;
          },
          λ h. absurd (ground (arith, h, e, reply)),
          λ h. absurd (ground (arith, h, e, reply)),
        )
    | inr e ↦
        let reply = commit_session-reply c s in
        (
          λ id h. absurd (ground (arith, h, e, reply)),
          λ h. absurd (ground (arith, h, e, reply)),
          λ h. commit_session-Failed c s e,
        )
  ]

  -- The lock changes Redis alone, so the outcome is that of the commit.
  pub lock_session-Outcome :
      (c : Challenge) (s : Core P R) → let r = lock_session P R q c s in Outcome c s r.0 r.1
  unfolding lock_session
  lock_session-Outcome c s = elim (Option-cases (R.get s.kv q.now (session_lock q.user_id c.id))) [
    | inl e ↦
        let locked = record s {
          kv = R.set_ex s.kv q.now (session_lock q.user_id c.id) q.fresh_session 10;
        } in
        let o = commit_session-Outcome c locked in
        rw (e, lock_session)
          (
            λ id h. record {
              fresh = (o.0 id h).fresh;
              one_more = (o.0 id h).one_more;
              event = (o.0 id h).event;
            },
            λ h. record {
              outbox_same = (o.1 h).outbox_same;
              kafka_same = (o.1 h).kafka_same;
              rabbit_same = (o.1 h).rabbit_same;
              no_more = (o.1 h).no_more;
            },
            λ h. record {
              kafka_same = (o.2 h).kafka_same;
              rabbit_same = (o.2 h).rabbit_same;
              one_row = (o.2 h).one_row;
            },
          )
    | inr (v, e) ↦ elim (Option-cases (R.get s.kv q.lock_read_at (session_lock q.user_id c.id))) [
      | inl e' ↦ rw (e, e', lock_session) (commit_session-Outcome c s)
      | inr (w, e') ↦ rw (e, e', lock_session) (λ id h. cc, λ h. Refused-self s, λ h. cc)
    ]
  ]

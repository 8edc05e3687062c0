-- ===== src/Core/Reaper/Expiry.antt =====
-- services/core/src/plugins/session-reaper.ts: the expired sessions before and after a cycle.
use devops_lab.Prelude.{
  ℕ, ◌≡◌, ◌≤◌, refl, Bool, true, false, ◌||◌, not, none, List, [], ◌∷◌, inl, inr, Bool-cases,
  nat_eq, string_eq, ◌==◌, take, arith, update_where, where_rows, subst, eq_self, eq_flip, any,
  count, length, All, ◌∙◌, ap, sym, suc, zero,
}
use devops_lab.Services.{Prisma, Redis}
use devops_lab.Core.Rows.{LabSession, Key, reaper_leader, terminated}
use devops_lab.Core.State.{Core}
use devops_lab.Core.Sessions.{close_with}
use devops_lab.Core.Reaper.{
  Reap, emit_ended, reap_one, reap_all, reap, is_expired, has_id, leader_lock_ttl_seconds,
}

module _ (now ttl guest_ttl : ℕ) where
  -- Every expired session among the rows is still to be ended.
  abbrev Expected : List LabSession → List LabSession → Type 0
  Expected todo = All (λ (r : LabSession).
      (not (is_expired now ttl guest_ttl r) || any (λ (x : LabSession). x.id == r.id) todo) ≡ true)

  Expected-weaken :
      (x : LabSession) (todo rs : List LabSession) → Expected todo rs → Expected (x ∷ todo) rs
  Expected-weaken x todo [] h = tt
  Expected-weaken x todo (r ∷ rs) h = (ground (arith, h.0), Expected-weaken x todo rs h.1)

  Expected-where :
      (rs : List LabSession) → Expected (where_rows (is_expired now ttl guest_ttl) rs) rs
  Expected-where [] = tt
  Expected-where (r ∷ rs) =
      let rest = where_rows (is_expired now ttl guest_ttl) rs in
      elim (Bool-cases (is_expired now ttl guest_ttl r)) [
        | inl e ↦
            let taken : r ∷ rest ≡ where_rows (is_expired now ttl guest_ttl) (r ∷ rs) = rw e refl in
            subst (λ t. Expected t (r ∷ rs)) taken
              (ground (arith, eq_self r.id), Expected-weaken r rest rs (Expected-where rs))
        | inr e ↦
            let left : rest ≡ where_rows (is_expired now ttl guest_ttl) (r ∷ rs) = rw e refl in
            subst (λ t. Expected t (r ∷ rs)) left (ground (arith, e), Expected-where rs)
      ]

  Expected-close :
      (at : ℕ) (x : LabSession) (todo rs : List LabSession)
      → Expected (x ∷ todo) rs
      → Expected todo (update_where (has_id x.id) (close_with terminated at) rs)
  Expected-close at x todo [] h = tt
  Expected-close at x todo (r ∷ rs) h = elim (Bool-cases (has_id x.id r)) [
    | inl e ↦ (rw e refl, Expected-close at x todo rs h.1)
    | inr e ↦
        let miss : (x.id == r.id) ≡ false = eq_flip x.id r.id ∙ e in
        let kept : (not (is_expired now ttl guest_ttl r)
              || any (λ (y : LabSession). y.id == r.id) todo)
            ≡ true =
          rw miss at h.0 in
        (rw e kept, Expected-close at x todo rs h.1)
  ]

  count-Expected :
      (rs : List LabSession) → Expected [] rs → count (is_expired now ttl guest_ttl) rs ≡ 0
  count-Expected [] h = refl
  count-Expected (r ∷ rs) h = elim (Bool-cases (is_expired now ttl guest_ttl r)) [
    | inl e ↦ absurd (ground (arith, rw e at h.0))
    | inr e ↦ rw e (count-Expected rs h.1)
  ]

take-all : (n : ℕ) (rs : List LabSession) → length rs ≤ n → take n rs ≡ rs
take-all zero [] h = refl
take-all zero (r ∷ rs) h = absurd (omega (arith, h))
take-all (suc n) [] h = refl
take-all (suc n) (r ∷ rs) h = ap (λ l. r ∷ l) (take-all n rs (omega (arith, h)))

count-where : (p : LabSession → Bool) (rs : List LabSession) → length (where_rows p rs) ≡ count p rs
count-where p [] = refl
count-where p (r ∷ rs) = ground (arith, count-where p rs)

module _ (P : Prisma) (R : Redis Key ℕ) (q : ℕ → Reap)
    (closes : (id : ℕ) → (q id).session_ok ≡ true) where
  emit_ended-sessions :
      (r : Reap) (id : ℕ) (s : Core P R) → (emit_ended P R r id s).sessions ≡ s.sessions
  unfolding emit_ended
  emit_ended-sessions r id s = ground arith

  reap_one-rows :
      (r : LabSession) (s : Core P R)
      → P.rows (reap_one P R (q r.id) r s).sessions
        ≡ update_where (has_id r.id) (close_with terminated (q r.id).now) (P.rows s.sessions)
  unfolding reap_one
  reap_one-rows r s =
      let closed =
        P.rows-update_many (has_id r.id) (close_with terminated (q r.id).now) s.sessions in
      elim (Bool-cases (q r.id).event_ok) [
        | inl e ↦ rw (closes r.id, e, reap_one, emit_ended-sessions) closed
        | inr e ↦ rw (closes r.id, e, reap_one) closed
      ]

  reap_all-Expected :
      (now ttl guest_ttl : ℕ) (todo : List LabSession) (s : Core P R)
      → Expected now ttl guest_ttl todo (P.rows s.sessions)
      → Expected now ttl guest_ttl [] (P.rows (reap_all P R q todo s).sessions)
  unfolding reap_all
  reap_all-Expected now ttl guest_ttl [] s h = h
  reap_all-Expected now ttl guest_ttl (r ∷ todo) s h =
      reap_all-Expected now ttl guest_ttl todo (reap_one P R (q r.id) r s) (
        subst (Expected now ttl guest_ttl todo) (sym (reap_one-rows r s))
          (Expected-close now ttl guest_ttl (q r.id).now r todo (P.rows s.sessions) h))

  -- If every update of a session is written, no replica holds the lock and at most fifty sessions
  -- have expired, then after a cycle of the reaper no session that had expired at its start is
  -- active, guests' and members' lifetimes told apart.
  pub reap-ends :
      (now instance_id ttl guest_ttl : ℕ) (s : Core P R)
      → R.get s.kv now reaper_leader ≡ none
      → count (is_expired now ttl guest_ttl) (P.rows s.sessions) ≤ 50
      → count
          (is_expired now ttl guest_ttl)
          (P.rows (reap P R q now instance_id ttl guest_ttl s).sessions)
        ≡ 0
  unfolding reap
  reap-ends now instance_id ttl guest_ttl s free few =
      let p = is_expired now ttl guest_ttl in
      let rows = P.rows s.sessions in
      let led = record s {
        kv = R.set_ex s.kv now reaper_leader instance_id leader_lock_ttl_seconds;
      } in
      let batch = take 50 (P.find_many p s.sessions) in
      let whole : batch ≡ where_rows p rows =
        ap (take 50) (P.find_many_lem p s.sessions)
        ∙ take-all 50 (where_rows p rows) (omega (arith, few, count-where p rows)) in
      let all =
        subst (λ t. Expected now ttl guest_ttl t rows) (sym whole)
          (Expected-where now ttl guest_ttl rows) in
      rw (free, reap)
        (count-Expected now ttl guest_ttl _ (reap_all-Expected now ttl guest_ttl batch led all))

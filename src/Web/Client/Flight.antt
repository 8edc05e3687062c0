-- ===== src/Web/Client/Flight.antt =====
-- apps/web/src/lib/apiClient.ts: one refresh at a time, and no call sent more than twice.
use devops_lab.Prelude.{
  ℕ, zero, suc, ◌+◌, ◌*◌, ◌≤◌, ◌≡◌, refl, Bool, true, false, not, ◌&&◌, inl, inr, some, nat_eq,
  ◌==◌, Bool-cases, Option-cases, List, [], ◌∷◌, count, if◌then◌else◌, arith, All, subst, ap,
  or_else, sym,
}
use devops_lab.Web.Client.{
  Call, Waiter, Settled, Client, ClientEvent, CallAnswer, success, failed, called, answered,
  refreshed, idle_client, settle, rejected, is_401, is_auth_route, send_call, await_refresh,
  on_answer, pick, release, client_step, client_run,
}

-- Of the calls with an identifier: those on the wire, those of them not retried, those that wait,
-- those settled.
module _ (id : ℕ) where
  abbrev pub is_of : Call → Bool
  is_of c = c.id == id

  abbrev pub is_first : Call → Bool
  is_first c = c.id == id && not c.retried

  abbrev pub is_waiting : Waiter → Bool
  is_waiting w = w.call.id == id

  abbrev pub is_settled : Settled → Bool
  is_settled x = x.id == id

  abbrev pub is_id : ℕ → Bool
  is_id i = i == id

-- A refresh is on its way just if `refreshPromise` is set, and calls wait only for one.
abbrev pub IsSingleFlight : Client → Type 0
IsSingleFlight s =
    (s.posted ≡ s.finished + (if s.refreshing then 1 else 0))
    × All (λ (w : Waiter). w.call.retried ≡ true) s.waiting
    × (s.refreshing ≡ false → s.waiting ≡ [])

-- Every call is on the wire, waits or is settled, and what it may still be sent is at most once;
-- `ws` are the calls that wait.
abbrev pub IsOwed : ℕ → List Waiter → Client → Type 0
IsOwed id ws s =
    (count (is_of id) s.pending + (count (is_waiting id) ws + count (is_settled id) s.settled)
      ≡ count (is_id id) s.calls)
    × (count (is_id id) s.sends + (count (is_first id) s.pending + count (is_waiting id) ws)
        ≤ 2 * count (is_id id) s.calls)

abbrev pub IsAccounted : ℕ → Client → Type 0
IsAccounted id s = IsOwed id s.waiting s

abbrev IsCounted : (Call → Bool) → List Call → Call × List Call → Type 0
IsCounted q cs x = count q cs ≡ count q x.1 + (if q x.0 then 1 else 0)

-- What holds of a pair holds of the pair that is found.
IsCounted-some :
    (q : Call → Bool) (cs : List Call) (x y : Call × List Call)
    → some x ≡ some y
    → IsCounted q cs x
    → IsCounted q cs y
IsCounted-some q cs x y e h = subst (IsCounted q cs) (ap (λ o. or_else o x) e) h

count-pick :
    (q : Call → Bool) (n : ℕ) (cs : List Call) (c : Call) (rest : List Call)
    → pick n cs ≡ some (c, rest)
    → count q cs ≡ count q rest + (if q c then 1 else 0)
unfolding pick
count-pick q n [] c rest e = absurd cc
count-pick q zero (d ∷ cs) c rest e = IsCounted-some q (d ∷ cs) (d, cs) (c, rest) e (ground arith)
count-pick q (suc n) (d ∷ cs) c rest e = elim (Option-cases (pick n cs)) [
  | inl none_left ↦ absurd (ground (arith, rw (none_left, pick) at e))
  | inr ((d', rest'), picked) ↦
      IsCounted-some q (d ∷ cs) (d', d ∷ rest') (c, rest) (rw (picked, pick) at e)
        (ground (arith, count-pick q n cs d' rest' picked))
]

answer_by :
    (id : ℕ) (c : Call) (a : CallAnswer) (s : Client) (rest : List Call)
    → count (is_of id) s.pending ≡ count (is_of id) rest + (if is_of id c then 1 else 0)
    → count (is_first id) s.pending ≡ count (is_first id) rest + (if is_first id c then 1 else 0)
    → IsAccounted id s
    → IsAccounted id (on_answer c a (record s { pending = rest }))
unfolding on_answer await_refresh
answer_by id c success s rest of first h =
    (ground (arith, of, first, h.0, h.1), ground (arith, of, first, h.0, h.1))
answer_by id c (failed status body) s rest of first h =
    elim (Bool-cases (is_401 status && (not (is_auth_route c.route) && not c.retried))) [
      | inl e ↦
          let new : c.retried ≡ false = ground (arith, e) in
          elim (Bool-cases s.refreshing) [
            | inl f ↦
                rw (e, f)
                  (
                    ground (arith, of, first, new, h.0, h.1),
                    ground (arith, of, first, new, h.0, h.1),
                  )
            | inr f ↦
                rw (e, f)
                  (
                    ground (arith, of, first, new, h.0, h.1),
                    ground (arith, of, first, new, h.0, h.1),
                  )
          ]
      | inr e ↦ rw e (ground (arith, of, first, h.0, h.1), ground (arith, of, first, h.0, h.1))
    ]

on_answer-IsAccounted :
    (id : ℕ) (c : Call) (a : CallAnswer) (s : Client) (rest : List Call) (n : ℕ)
    → pick n s.pending ≡ some (c, rest)
    → IsAccounted id s
    → IsAccounted id (on_answer c a (record s { pending = rest }))
unfolding on_answer await_refresh
on_answer-IsAccounted id c a s rest n e h =
    answer_by id c a s rest (count-pick (is_of id) n s.pending c rest e)
      (count-pick (is_first id) n s.pending c rest e) h

release-kept :
    (ok : Bool) (ws : List Waiter) (s : Client)
    → let s' = release ok ws s in
      (s'.waiting ≡ s.waiting)
      × (s'.refreshing ≡ s.refreshing)
      × (s'.posted ≡ s.posted)
      × (s'.finished ≡ s.finished)
unfolding release send_call
release-kept ok [] s = (refl, refl, refl, refl)
release-kept true (w ∷ ws) s = release-kept true ws (send_call w.call s)
release-kept false (w ∷ ws) s =
    release-kept false ws (record s { settled = settle w.call.id (rejected w.error) s.settled })

release-IsOwed :
    (id : ℕ) (ok : Bool) (ws : List Waiter) (s : Client)
    → All (λ (w : Waiter). w.call.retried ≡ true) ws
    → IsOwed id ws s
    → IsOwed id [] (release ok ws s)
unfolding release send_call
release-IsOwed id ok [] s r h = h
release-IsOwed id true (w ∷ ws) s r h =
    release-IsOwed id true ws (send_call w.call s) r.1
      (ground (arith, r.0, h.0, h.1), ground (arith, r.0, h.0, h.1))
release-IsOwed id false (w ∷ ws) s r h =
    release-IsOwed id false ws
      (record s { settled = settle w.call.id (rejected w.error) s.settled }) r.1
      (ground (arith, r.0, h.0, h.1), ground (arith, r.0, h.0, h.1))

on_answer-IsSingleFlight :
    (c : Call) (a : CallAnswer) (s : Client) → IsSingleFlight s → IsSingleFlight (on_answer c a s)
unfolding on_answer await_refresh
on_answer-IsSingleFlight c success s h = h
on_answer-IsSingleFlight c (failed status body) s h =
    elim (Bool-cases (is_401 status && (not (is_auth_route c.route) && not c.retried))) [
      | inl e ↦ elim (Bool-cases s.refreshing) [
        | inl f ↦ rw (e, f) (rw f at h.0, (refl, h.1), λ n. absurd cc)
        | inr f ↦ rw (e, f) (ground (arith, h.0, f), (refl, h.1), λ n. absurd cc)
      ]
      | inr e ↦ rw e h
    ]

abbrev IsWell : ℕ → Client → Type 0
IsWell id s = IsSingleFlight s × IsAccounted id s

client_step-IsWell :
    (id : ℕ) (e : ClientEvent) (s : Client) → IsWell id s → IsWell id (client_step e s)
unfolding client_step send_call
client_step-IsWell id (called i route) s h = (h.0, (ground (arith, h.1.0), ground (arith, h.1.1)))
client_step-IsWell id (answered n a) s h = elim (Option-cases (pick n s.pending)) [
  | inl e ↦ rw (e, client_step) h
  | inr ((c, rest), e) ↦
      rw (e, client_step)
        (
          on_answer-IsSingleFlight c a (record s { pending = rest }) h.0,
          on_answer-IsAccounted id c a s rest n e h.1,
        )
]
client_step-IsWell id (refreshed ok) s h = elim (Bool-cases s.refreshing) [
  | inl f ↦
      let s0 : Client = record s { waiting = []; refreshing = false; finished = suc s.finished } in
      let kept = release-kept ok s.waiting s0 in
      rw (f, client_step)
        (
          (rw (kept.1, kept.2, kept.3) (ground (arith, h.0.0, f)), rw kept.0 tt, λ n. kept.0),
          subst (λ l. IsOwed id l (release ok s.waiting s0)) (sym kept.0)
              (release-IsOwed id ok s.waiting s0 h.0.1 h.1),
        )
  | inr f ↦ rw (f, client_step) ((rw f at h.0.0, h.0.1, λ n. h.0.2 f), h.1)
]

client_run-keeps :
    (id : ℕ) (es : List ClientEvent) (s : Client) → IsWell id s → IsWell id (client_run es s)
unfolding client_run
client_run-keeps id [] s h = h
client_run-keeps id (e ∷ es) s h =
    client_run-keeps id es (client_step e s) (client_step-IsWell id e s h)

-- From the start, whatever calls, answers and ends of refreshes come in whatever order: at most
-- one refresh is on its way, just if refreshPromise is set, and only then calls wait; every call
-- is on the wire, waits for the refresh or is settled; and the requests sent for the calls of an
-- identifier are at most twice the calls.
pub client_run-IsAccounted :
    (id : ℕ) (es : List ClientEvent)
    → let s = client_run es idle_client in IsSingleFlight s × IsAccounted id s
client_run-IsAccounted id es =
    client_run-keeps id es idle_client ((refl, tt, λ e. refl), (refl, omega arith))

-- ===== src/Org/Writes.antt =====
-- services/core/src/modules/org/org.routes.ts: the writes of an organisation's routes, together.
use devops_lab.Prelude.{
  ◌≡◌, ◌≢◌, ◌⊎◌, refl, inl, inr, Bool, true, false, String, string_eq, ◌==◌, eq_of_beq, Bool-cases,
  Option-cases, if_either, arith, sym, subst,
}
use devops_lab.Services.{Prisma, find_many-create, find_many-update}
use devops_lab.Org.State.{
  OrgState, OrgError, OrgCaller, user_id_of, OrgInvite, OrgScenario, PathAssignment,
}
use devops_lab.Org.Access.{known, resolve, IsAdmin, entered, at_least_admin}
use devops_lab.Org.Access.Guard.{entered-IsAdmin}
use devops_lab.Org.Seats.{Invite, invite, invite_to, SeatReply, new_invite}
use devops_lab.Org.Work.{
  CreateScenario, Assign, create_scenario, scenario_in, new_scenario, assign, assign_in, WorkReply,
  upsert_assignment, same_assignment,
}
use devops_lab.Org.Seats as Seats
use devops_lab.Org.Work as Work

-- A write of an organisation's routes.
pub data Write : Type 0 where
  inviting : Invite → Write
  adding_scenario : CreateScenario → Write
  assigning : Assign → Write

module _ (P : Prisma) where
  unfoldable pub written_by : Write → OrgCaller → String → OrgState P → OrgState P
  written_by (inviting q) c org_id s = (invite P q c org_id s).0
  written_by (adding_scenario q) c org_id s = (create_scenario P q c org_id s).0
  written_by (assigning q) c org_id s = (assign P q c org_id s).0

  -- What one organisation's write leaves of the others, and of who belongs to which.
  abbrev pub IsIsolated : String → OrgState P → OrgState P → Type 0
  IsIsolated o s s' =
      (x : String)
      → x ≢ o
      → (P.find_many (λ (i : OrgInvite). i.org_id == x) s'.invites
          ≡ P.find_many (λ (i : OrgInvite). i.org_id == x) s.invites)
        × (P.find_many (λ (i : OrgScenario). i.org_id == x) s'.scenarios
            ≡ P.find_many (λ (i : OrgScenario). i.org_id == x) s.scenarios)
        × (P.find_many (λ (a : PathAssignment). a.org_id == x) s'.assignments
            ≡ P.find_many (λ (a : PathAssignment). a.org_id == x) s.assignments)
        × (s'.members ≡ s.members)
        × (s'.users ≡ s.users)

  same-IsIsolated : (o : String) (s : OrgState P) → IsIsolated o s s
  same-IsIsolated o s x ne = (refl, refl, refl, refl, refl)

  differs : (x o : String) → x ≢ o → (o == x) ≡ false
  differs x o ne = elim (Bool-cases (o == x)) [
    | inl e ↦ absurd (ne (sym (eq_of_beq o x e)))
    | inr e ↦ e
  ]

  invite_to-IsIsolated :
      (q : Invite) (s : OrgState P) (o : String) → IsIsolated o s (invite_to P q s o).0
  unfolding invite_to
  invite_to-IsIsolated q s o x ne =
      let made =
        find_many-create P (λ (i : OrgInvite). i.org_id == x) (new_invite q o) s.invites
          (differs x o ne) in
      ground (arith, made)

  scenario_in-IsIsolated :
      (q : CreateScenario) (c : OrgCaller) (s : OrgState P) (o : String)
      → IsIsolated o s (scenario_in P q c s o).0
  unfolding scenario_in
  scenario_in-IsIsolated q c s o x ne = elim (Option-cases c.id) [
    | inl e ↦ ground (arith, e)
    | inr (u, e) ↦
        let made =
          find_many-create P (λ (i : OrgScenario). i.org_id == x) (new_scenario q u o) s.scenarios
            (differs x o ne) in
        ground (arith, e, made)
  ]

  upsert_assignment-find_many :
      (q : Assign) (u o x : String) (t : P.Table PathAssignment)
      → x ≢ o
      → P.find_many (λ (a : PathAssignment). a.org_id == x) (upsert_assignment P q u o t)
        ≡ P.find_many (λ (a : PathAssignment). a.org_id == x) t
  upsert_assignment-find_many q u o x t ne =
      let p : PathAssignment → Bool = λ (a : PathAssignment). a.org_id == x in
      if_either (λ t'. P.find_many p t' ≡ P.find_many p t) _ _ _
        (find_many-update P p (same_assignment o q)
          (λ (a : PathAssignment). record a { assigned_at = q.now }) t
          (λ r hit. (other r hit, other r hit)))
        (find_many-create P p _ t (differs x o ne))
    where
      other : (r : PathAssignment) → same_assignment o q r ≡ true → (r.org_id == x) ≡ false
      other r hit =
          let same : (r.org_id == o) ≡ true = ground (arith, hit) in
          rw (eq_of_beq r.org_id o same) (differs x o ne)

  assign_in-IsIsolated :
      (q : Assign) (c : OrgCaller) (s : OrgState P) (o : String)
      → IsIsolated o s (assign_in P q c s o).0
  unfolding assign_in
  assign_in-IsIsolated q c s o x ne = elim (Option-cases (user_id_of c)) [
    | inl e ↦ ground (arith, e)
    | inr (u, e) ↦ ground (arith, e, upsert_assignment-find_many q u o x s.assignments ne)
  ]

  entered_lem :
      {Reply : Type 0} (org_id : String) (c : OrgCaller) (s : OrgState P) (handle : String → Reply)
      (state : Reply → OrgState P) (fails : OrgError → Reply)
      → ((e : OrgError) → state (fails e) ≡ s)
      → ((o : String) → IsIsolated o s (state (handle o)))
      → let r = resolve P (user_id_of c) org_id s in
        let s' = state (entered P fails at_least_admin c s handle r) in
        (s' ≡ s) ⊎ ((o : String) × (r ≡ known o) × IsAdmin P c o s × IsIsolated o s s')
  entered_lem org_id c s handle state fails hf isolated =
      elim (entered-IsAdmin P state fails c s handle (resolve P (user_id_of c) org_id s) hf) [
        | inl e ↦ inl e
        | inr (o, e, a, h) ↦ inr (o, e, a, subst (IsIsolated o s) (sym h) (isolated o))
      ]

  -- Inviting, adding a scenario and assigning a path change nothing, or the caller is an owner or
  -- an administrator of the organisation that the route resolved, and the invitations, scenarios
  -- and assignments of every other organisation, the members and the users stay as they were.
  pub written_by-IsAdmin :
      (w : Write) (c : OrgCaller) (org_id : String) (s : OrgState P)
      → (written_by w c org_id s ≡ s)
        ⊎ ((o : String) × (resolve P (user_id_of c) org_id s ≡ known o)
            × IsAdmin P c o s
            × IsIsolated o s (written_by w c org_id s))
  unfolding written_by invite create_scenario assign
  written_by-IsAdmin (inviting q) c org_id s =
      entered_lem org_id c s (invite_to P q s) (λ r. r.0) (λ e. (s, Seats.refused e)) (λ e. refl)
        (invite_to-IsIsolated q s)
  written_by-IsAdmin (adding_scenario q) c org_id s =
      entered_lem org_id c s (scenario_in P q c s) (λ r. r.0) (λ e. (s, Work.refused e)) (λ e. refl)
        (scenario_in-IsIsolated q c s)
  written_by-IsAdmin (assigning q) c org_id s =
      entered_lem org_id c s (assign_in P q c s) (λ r. r.0) (λ e. (s, Work.refused e)) (λ e. refl)
        (assign_in-IsIsolated q c s)

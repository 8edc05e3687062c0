-- ===== src/Org/Access/Guard.antt =====
-- services/core/src/modules/org/org.routes.ts: what the guard lets through.
use devops_lab.Prelude.{◌≡◌, refl, Option, none, some, String, inl, inr, ◌⊎◌, Option-cases, arith}
use devops_lab.Services.{Prisma}
use devops_lab.Org.State.{
  OrgState, OrgError, OrgCaller, OrgMember, OrgRole, owner, admin, member, user_id_of,
}
use devops_lab.Org.Access.{
  MinRole, at_least_admin, Access, granted, denied, Resolved, stops, known, IsAdmin,
  check_org_access, check_user, access_of, admitted, entered, is_membership,
}

Access-cases :
    (a : Access) → ((e : OrgError) × (a ≡ denied e)) ⊎ ((m : OrgMember) × (a ≡ granted m))
Access-cases (denied e) = inl (e, refl)
Access-cases (granted m) = inr (m, refl)

module _ (P : Prisma) where
  admitted-all {ℓ κ} :
      {Reply : Type ℓ} (Q : Reply → Type κ) (fails : OrgError → Reply) (handled : Reply)
      (a : Access)
      → ((e : OrgError) → Q (fails e))
      → ((m : OrgMember) → a ≡ granted m → Q handled)
      → Q (admitted P fails handled a)
  admitted-all Q fails handled (denied e) hf hh = hf e
  admitted-all Q fails handled (granted m) hf hh = hh m refl

  -- A property of the refusals, and of the handler for a caller with access, is one of the route.
  pub entered-all {ℓ κ} :
      {Reply : Type ℓ} (Q : Reply → Type κ) (fails : OrgError → Reply) (min : MinRole)
      (c : OrgCaller) (s : OrgState P) (handle : String → Reply)
      → ((e : OrgError) → Q (fails e))
      → ((o : String) (m : OrgMember) → check_org_access P min c o s ≡ granted m → Q (handle o))
      → (r : Resolved) → Q (entered P fails min c s handle r)
  entered-all Q fails min c s handle hf hh (stops e) = hf e
  entered-all Q fails min c s handle hf hh (known o) =
      admitted-all Q fails (handle o) (check_org_access P min c o s) hf (hh o)

  admin_role :
      (m m' : OrgMember) (r : OrgRole)
      → access_of at_least_admin m r ≡ granted m'
      → (r ≡ owner) ⊎ (r ≡ admin)
  admin_role m m' owner e = inl refl
  admin_role m m' admin e = inr refl
  admin_role m m' member e = cc

  granted-IsAdmin :
      (u : Option String) (c : OrgCaller) (o : String) (s : OrgState P) (m : OrgMember)
      → user_id_of c ≡ u
      → check_user P at_least_admin u o s ≡ granted m
      → IsAdmin P c o s
  granted-IsAdmin none c o s m caller e = cc
  granted-IsAdmin (some u) c o s m caller e =
      elim (Option-cases (P.find_first (is_membership u o) s.members)) [
        | inl h ↦ absurd (ground (arith, rw h at e))
        | inr (x, h) ↦ (u, x, caller, h, admin_role x m x.org_role (rw h at e))
      ]

  pub check_org_access-IsAdmin :
      (c : OrgCaller) (o : String) (s : OrgState P) (m : OrgMember)
      → check_org_access P at_least_admin c o s ≡ granted m
      → IsAdmin P c o s
  unfolding check_org_access
  check_org_access-IsAdmin c o s m e = granted-IsAdmin (user_id_of c) c o s m refl e

  -- What a route of an administrator leaves behind: nothing, or it ran for an administrator.
  pub entered-IsAdmin {ℓ} :
      {Reply : Type ℓ} (state : Reply → OrgState P) (fails : OrgError → Reply) (c : OrgCaller)
      (s : OrgState P) (handle : String → Reply) (r : Resolved)
      → ((e : OrgError) → state (fails e) ≡ s)
      → (state (entered P fails at_least_admin c s handle r) ≡ s)
        ⊎ ((o : String) × (r ≡ known o)
            × IsAdmin P c o s
            × (state (entered P fails at_least_admin c s handle r) ≡ state (handle o)))
  entered-IsAdmin state fails c s handle (stops e) hf = inl (hf e)
  entered-IsAdmin state fails c s handle (known o) hf =
      elim (Access-cases (check_org_access P at_least_admin c o s)) [
        | inl (e, h) ↦ inl (rw h (hf e))
        | inr (m, h) ↦ inr (o, refl, check_org_access-IsAdmin c o s m h, rw h refl)
      ]

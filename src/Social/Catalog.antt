-- ===== src/Social/Catalog.antt =====
-- services/core/src/modules/challenge/challenge.routes.ts: the list of challenges, a challenge, its
-- editorial, the results of its checks, and the state of the onboarding.
pub mod Listed
use devops_lab.Prelude.{
  ℕ, zero, suc, Bool, true, false, not, ◌&&◌, ◌||◌, Option, none, some, String, string_eq, nat_eq,
  ◌==◌, List, map, is_some, if◌then◌else◌,
}
use devops_lab.Services.{Prisma}
use devops_lab.Core.Rows.{LabSession, is_completed}
use devops_lab.Progress.State.{Completion, CheckResult, is_completion}
use devops_lab.Social.State.{
  Social, SocialUser, ChallengePage, OnboardingState, tour_completed, fresh_user, Role, admin,
  contributor, is_page, is_social_user,
}

pub data CatalogError : Type 0 where
  challenge_missing other_organization editorial_locked no_editorial session_missing update_failed :
      CatalogError

pub data CatalogReply : Type 0 where
  catalog_refused : CatalogError → CatalogReply
  challenge_view : ChallengePage → CatalogReply
  editorial_view : ChallengePage → String → CatalogReply
  results_view : ℕ → List CheckResult → CatalogReply
  onboarding_view : OnboardingState → CatalogReply

-- An organisation's challenge is for its own users: `contributedByOrgId && … !== userOrgId`.
abbrev pub is_foreign : Option ℕ → ChallengePage → Bool
is_foreign org c = elim c.contributed_by_org_id [
  | none ↦ false
  | some owner ↦ elim org [ none ↦ true | some o ↦ not (owner == o) ]
]

-- `OR: [{ contributedByOrgId: null }, …(userOrgId ? [{ contributedByOrgId: userOrgId }] : [])]`
abbrev pub is_listed : Option ℕ → ChallengePage → Bool
is_listed org c = elim c.contributed_by_org_id [
  | none ↦ true
  | some owner ↦ elim org [ none ↦ false | some o ↦ owner == o ]
]

abbrev pub is_privileged : Option SocialUser → Bool
is_privileged none = false
is_privileged (some u) = elim u.role [ admin ↦ true | contributor ↦ true | _ ↦ false ]

abbrev pub is_solving : String → ℕ → LabSession → Bool
is_solving user_id id x = x.user_id == user_id && (x.challenge_id == id && is_completed x.status)

module _ (P : Prisma) where
  -- The organisation of the caller, if the token is valid and the user is there.
  abbrev pub viewer_org : Option String → Social P → Option ℕ
  viewer_org none s = none
  viewer_org (some user_id) s = elim (P.find_first (is_social_user user_id) s.users) [
    | none ↦ none
    | some u ↦ u.org_id
  ]

  -- GET /challenges; `by_age` is the database's order by the time of creation.
  unfoldable pub list_challenges :
      (List ChallengePage → List ChallengePage) → Option String → Social P → List ChallengePage
  list_challenges by_age viewer s =
      by_age (P.find_many (is_listed (viewer_org viewer s)) s.challenges)

  -- GET /challenges/:id
  unfoldable pub get_challenge : ℕ → Option String → Social P → CatalogReply
  get_challenge id viewer s = elim (P.find_first (is_page id) s.challenges) [
    | none ↦ catalog_refused challenge_missing
    | some c ↦
        if is_foreign (viewer_org viewer s) c
        then catalog_refused other_organization
        else challenge_view c
  ]

  -- A completed session, or a completion if there is none.
  abbrev pub has_solved : String → ℕ → Social P → Bool
  has_solved user_id id s =
      is_some (P.find_first (is_solving user_id id) s.sessions)
      || is_some (P.find_first (is_completion user_id id) s.completions)

  -- `!challenge.editorial` also when it is empty.
  abbrev pub editorial_of : ChallengePage → CatalogReply
  editorial_of c = elim c.editorial [
    | none ↦ catalog_refused no_editorial
    | some e ↦ if e == "" then catalog_refused no_editorial else editorial_view c e
  ]

  -- GET /challenges/:id/editorial
  unfoldable pub get_editorial : ℕ → String → Social P → CatalogReply
  get_editorial id user_id s = elim (P.find_first (is_page id) s.challenges) [
    | none ↦ catalog_refused challenge_missing
    | some c ↦
        if is_privileged (P.find_first (is_social_user user_id) s.users)
        then editorial_of c
        else (if has_solved user_id id s then editorial_of c else catalog_refused editorial_locked)
  ]

  -- GET /session/:id/check-results
  unfoldable pub check_results_of : ℕ → Social P → CatalogReply
  check_results_of session_id s =
      elim (P.find_first (λ (x : LabSession). x.id == session_id) s.sessions) [
        | none ↦ catalog_refused session_missing
        | some x ↦ results_view session_id (
            P.find_many
              (λ (r : CheckResult). r.user_id == x.user_id && r.challenge_id == x.challenge_id)
              s.check_results)
      ]

  -- GET /challenges/onboarding-status
  unfoldable pub onboarding_status : String → Social P → CatalogReply
  onboarding_status user_id s = elim (P.find_first (is_social_user user_id) s.users) [
    | none ↦ onboarding_view fresh_user
    | some u ↦ onboarding_view u.onboarding_state
  ]

  -- POST /challenges/onboarding-status/complete; the update of an unknown user throws.
  unfoldable pub complete_onboarding : String → Social P → Social P × CatalogReply
  complete_onboarding user_id s =
      if is_some (P.find_first (is_social_user user_id) s.users)
      then (
        record s {
          users =
              P.update_many (is_social_user user_id)
                (λ u. record u { onboarding_state = tour_completed }) s.users;
        },
        onboarding_view tour_completed,
      )
      else (s, catalog_refused update_failed)

-- ===== src/Tests/OrgTests.antt =====
-- services/core/src/modules/org/org.routes.ts at concrete states.
use devops_lab.Prelude.{◌≡◌, ◌<◌, ◌⊎◌, refl, true, false, none, some, String, [], ◌∷◌, arith}
use devops_lab.Services.{lists, find}
use devops_lab.Core.Rows.{pro}
use devops_lab.Org.State.{
  OrgState, Organisation, OrgUser, OrgInvite, OrgCaller, user_id_of, owner, member, pending,
  invite_used, is_org, is_member_of,
}
use devops_lab.Org.Access.{resolve, known, IsAdmin}
use devops_lab.Org.Seats.{
  Invite, Join, join, join_with, accept_invite, joined, refused, has_token, is_known_user,
  is_joined,
}
use devops_lab.Org.Seats.Joining.{join-once, join-over}
use devops_lab.Org.Matrix.{matrix}
use devops_lab.Org.Matrix.Progress.{AllTrue, matrix-AllTrue}
use devops_lab.Org.Writes.{inviting, written_by, IsIsolated, written_by-IsAdmin}

abbrev acme : Organisation
acme = record { id = "acme"; name = "Acme"; slug = "acme"; plan_tier = pro; seats_purchased = 1 }

abbrev user_named : String → OrgUser
user_named id = record {
  id = id;
  org_id = none;
  name = none;
  email = id;
  job_title = none;
  xp = 10;
}

abbrev open_invite : OrgInvite
open_invite = record {
  id = "i";
  org_id = "acme";
  email = "bob";
  token = "t";
  org_role = member;
  status = pending;
  expires_at = 1000;
}

-- An organisation whose one seat its owner has, with an invitation.
abbrev company : OrgState lists
company = record {
  orgs = acme ∷ [];
  users = user_named "ada" ∷ user_named "bob" ∷ [];
  members = record { user_id = "ada"; org_id = "acme"; org_role = owner; joined_at = 0 } ∷ [];
  invites = open_invite ∷ [];
  scenarios = [];
  assignments =
      record {
        org_id = "acme";
        learning_path_id = "p";
        user_id = none;
        assigned_by_user_id = "ada";
        assigned_at = 0;
      }
      ∷ [];
  sessions = [];
  completions = record { user_id = "ada"; node_id = "n"; created_at = 0 } ∷ [];
  paths = record { id = "p"; title = "P"; modules = ("n" ∷ []) ∷ ("m" ∷ []) ∷ [] } ∷ [];
  events = [];
}

abbrev caller_of : String → OrgCaller
caller_of id = record { id = none; sub = some id }

abbrev invitation : Invite
invitation = record {
  email = "eve";
  org_role = none;
  new_id = "j";
  new_token = "u";
  now = 5;
  invite_written = true;
  event_written = true;
}

abbrev joining : Join
joining = record { token = "t"; now = 5; writes = 4 }

written_by-IsAdmin_example :
    (written_by lists (inviting invitation) (caller_of "bob") "acme" company ≡ company)
    ⊎ ((o : String) × (resolve lists (user_id_of (caller_of "bob")) "acme" company ≡ known o)
        × IsAdmin lists (caller_of "bob") o company
        × IsIsolated lists o company
            (written_by lists (inviting invitation) (caller_of "bob") "acme" company))
written_by-IsAdmin_example =
    written_by-IsAdmin lists (inviting invitation) (caller_of "bob") "acme" company

invite_found : lists.find_first (has_token "t") company.invites ≡ some open_invite
unfolding find
invite_found = refl

acme_found : lists.find_first (is_org "acme") company.orgs ≡ some acme
unfolding find
acme_found = refl

bob_known : is_known_user lists "bob" company ≡ true
unfolding find
bob_known = refl

bob_is_new : is_joined lists "bob" "acme" company ≡ false
unfolding find
bob_is_new = refl

bob_joined : (join lists joining (caller_of "bob") company).1 ≡ joined
unfolding join join_with accept_invite find
bob_joined = refl

join-once_example :
    let s' = (join lists joining (caller_of "bob") company).0 in
    join lists joining (caller_of "ada") s' ≡ (s', refused invite_used)
join-once_example =
    join-once lists joining joining (caller_of "bob") (caller_of "ada") open_invite company
      invite_found (λ e. refl, tt) bob_joined refl

join-over_example :
    let r = join lists joining (caller_of "bob") company in
    (r.1 ≡ joined)
    × (lists.find_first (is_org "acme") r.0.orgs ≡ some acme)
    × (1 < lists.count_rows (is_member_of "acme") r.0.members)
join-over_example =
    join-over lists joining (caller_of "bob") open_invite "bob" acme company invite_found refl
      (ground arith) (omega arith) refl bob_known bob_is_new acme_found (ground arith)

matrix-AllTrue_example : AllTrue (matrix lists (caller_of "ada") "acme" company)
matrix-AllTrue_example = matrix-AllTrue lists (caller_of "ada") "acme" company

-- ===== src/Tests/ListTests.antt =====
-- services/core/src/modules/content/list.routes.ts at a concrete state.
use devops_lab.Prelude.{◌≡◌, ◌⊎◌, true, false, some, [], ◌∷◌}
use devops_lab.Services.{lists}
use devops_lab.ChallengeLists.{ListState}
use devops_lab.ChallengeLists.Owned.{removing, changed_by, IsOwner, IsApart, changed_by-IsOwner}

-- Two users with a list each.
abbrev shelf : ListState lists
shelf = record {
  lists =
      record { id = "l"; user_id = "ada"; name = "Pods"; is_public = false }
      ∷ record { id = "m"; user_id = "bob"; name = "Nets"; is_public = true }
      ∷ [];
  items =
      record { list_id = "l"; challenge_id = 4; order = 0 }
      ∷ record { list_id = "m"; challenge_id = 4; order = 0 }
      ∷ [];
  challenges = [];
}

changed_by-IsOwner_example :
    let s' = changed_by lists (removing 4 true) (some "ada") "l" shelf in
    (s' ≡ shelf) ⊎ (IsOwner lists (some "ada") "l" shelf × IsApart lists "l" shelf s')
changed_by-IsOwner_example = changed_by-IsOwner lists (removing 4 true) (some "ada") "l" shelf

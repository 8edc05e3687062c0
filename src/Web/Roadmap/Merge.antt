-- ===== src/Web/Roadmap/Merge.antt =====
-- What the merge of a guest's progress into an account keeps.
use devops_lab.Prelude.{
  ◌≤◌, ◌≡◌, not, ◌&&◌, ◌||◌, Option, some, String, [], ◌++◌, string_eq, ◌==◌, any-append, or_else,
  arith, ◌∙◌,
}
use devops_lab.Web.Roadmap.{
  RoadmapProgress, GuestProgress, merge_progress, account_completed, account_in_progress, includes,
  unique,
}
use devops_lab.Web.Roadmap.Unique.{
  copies, copies-where, copies-unique, includes-where, includes-unique, unique-absorbs,
  unique-IsUnique,
}

module _ (a : Option RoadmapProgress) (g : GuestProgress) where
  -- The merge is the union: a node is completed just if either side has completed it, and in
  -- progress just if either side has it in progress and it is not completed; no node stands twice
  -- in either list.
  pub merge_progress-members :
      (n : String)
      → let m = merge_progress a g in
        (includes m.completed_nodes n
          ≡ (includes (account_completed a) n || includes g.completed_nodes n))
        × (includes m.in_progress_nodes n ≡ (
            (includes (account_in_progress a) n || includes (or_else g.in_progress_nodes []) n)
            && not (includes m.completed_nodes n)))
        × (copies n m.completed_nodes ≤ 1)
        × (copies n m.in_progress_nodes ≤ 1)
  unfolding merge_progress
  merge_progress-members n =
      let done = account_completed a ++ g.completed_nodes in
      let begun = account_in_progress a ++ or_else g.in_progress_nodes [] in
      let is_open = λ (x : String). not (includes (unique done) x) in
      (
        includes-unique n done ∙ any-append (λ y. y == n) (account_completed a) g.completed_nodes,
        includes-where is_open n (unique begun)
            ∙ ground (
              arith,
              includes-unique n begun,
              any-append (λ y. y == n) (account_in_progress a) (or_else g.in_progress_nodes []),
            ),
        copies-unique n done,
        omega (arith, copies-where is_open n (unique begun), copies-unique n begun),
      )

  -- Merging the same guest's progress a second time leaves the completed nodes as they are, in
  -- their order.
  merge_progress-again :
      (merge_progress (some (merge_progress a g)) g).completed_nodes
      ≡ (merge_progress a g).completed_nodes
  unfolding merge_progress
  merge_progress-again =
      let done = account_completed a ++ g.completed_nodes in
      unique-absorbs (unique done) g.completed_nodes (unique-IsUnique done) (λ n h. ground (
        arith,
        h,
        includes-unique n done,
        any-append (λ y. y == n) (account_completed a) g.completed_nodes,
      ))

-- ===== src/Org/Matrix/Progress.antt =====
-- services/core/src/modules/org/org.routes.ts: the figures of the matrix of progress.
use devops_lab.Prelude.{
  ℕ, ◌≡◌, ◌≤◌, ◌<◌, ◌+◌, ◌*◌, ◌↔◌, ◌⊎◌, refl, Bool, List, [], ◌∷◌, count, length, ltb, arith,
  nat_eq, Bool-cases, ltb→lt, leb→le, leb, inl, inr, All, map, String,
}
use native.Mathlib.Nat.{le-div_iff_mul-le, div-lt_iff_lt-mul}
use devops_lab.Services.{Prisma}
use devops_lab.Org.State.{NodeCompletion, LearningPath, OrgState, OrgCaller, user_id_of}
use devops_lab.Org.Access.{at_least_admin, resolve}
use devops_lab.Org.Access.Guard.{entered-all}
use devops_lab.Org.Matrix.{
  org_members, completions_of, PathProgress, completed, not_started, path_progress, flatten,
  done_by, percentage_of, path_status_of, round_quotient, matrix, matrix_in, matrix_row, MatrixRow,
  ReportReply, matrix_is, refused,
}

count-length-le : {A : Type 0} (p : A → Bool) (xs : List A) → count p xs ≤ length xs
count-length-le p [] = omega arith
count-length-le p (x ∷ xs) = ground (arith, count-length-le p xs)

-- What an entry of the matrix tells of a path.
abbrev pub IsTrue : PathProgress → Type 0
IsTrue e =
    (e.completed_challenges ≤ e.total_challenges)
    × (e.percentage ≤ 100)
    × ((e.status ≡ completed)
        ↔ (0 < e.total_challenges) × (199 * e.total_challenges ≤ 200 * e.completed_challenges))
    × ((e.status ≡ not_started)
        ↔ (e.total_challenges ≡ 0) ⊎ (200 * e.completed_challenges < e.total_challenges))

status_completed : (p : ℕ) → (path_status_of p ≡ completed) ↔ (p ≡ 100)
status_completed p = ground arith

status_not_started : (p : ℕ) → (path_status_of p ≡ not_started) ↔ (p ≡ 0)
status_not_started p = ground arith

module _ (total done : ℕ) (pos : 0 < total) where
  round_quotient-bounds :
      ((100 ≤ round_quotient (100 * done) total) ↔ 199 * total ≤ 200 * done)
      × ((1 ≤ round_quotient (100 * done) total) ↔ total ≤ 200 * done)
      × (done ≤ total → round_quotient (100 * done) total < 101)
  round_quotient-bounds =
      let twice : 0 < 2 * total = omega (arith, pos) in
      let hundred =
        le-div_iff_mul-le {k = 2 * total} {x = 100} {y = 2 * (100 * done) + total} twice in
      let one = le-div_iff_mul-le {k = 2 * total} {x = 1} {y = 2 * (100 * done) + total} twice in
      let top = div-lt_iff_lt-mul {k = 2 * total} {x = 2 * (100 * done) + total} {y = 101} twice in
      (
        (λ h. omega (arith, hundred.0 h), λ h. hundred.1 (omega (arith, h))),
        (λ h. omega (arith, one.0 h), λ h. one.1 (omega (arith, h))),
        λ h. top.1 (omega (arith, h, pos)),
      )

path_progress-IsTrue :
    (cs : List NodeCompletion) (path : LearningPath) → IsTrue (path_progress cs path)
unfolding path_progress
path_progress-IsTrue cs path =
    let challenges = flatten path.modules in
    let few = count-length-le (done_by cs) challenges in
    figures (length challenges) (count (done_by cs) challenges) few
  where
    figures :
        (total done : ℕ)
        → done ≤ total
        → let p = percentage_of total done in
          (done ≤ total)
          × (p ≤ 100)
          × ((path_status_of p ≡ completed) ↔ (0 < total) × (199 * total ≤ 200 * done))
          × ((path_status_of p ≡ not_started) ↔ (total ≡ 0) ⊎ (200 * done < total))
    figures total done few = elim (Bool-cases (ltb 0 total)) [
      | inl e ↦
          let b = round_quotient-bounds total done (ltb→lt 0 total e) in
          let p = percentage_of total done in
          let c = status_completed p in
          let n = status_not_started p in
          let same : p ≡ round_quotient (100 * done) total = rw e refl in
          (
            few,
            omega (arith, same, b.2 few),
            (
              λ h. (ltb→lt 0 total e, b.0.0 (omega (arith, same, c.0 h))),
              λ h. c.1 (omega (arith, same, b.0.1 h.1, b.2 few)),
            ),
            (
              λ h. inr (elim (Bool-cases (leb total (200 * done))) [
                | inl k ↦ absurd (omega (arith, same, n.0 h, b.1.1 (leb→le total (200 * done) k)))
                | inr k ↦ ground (arith, k)
              ]),
              λ h. elim h [
                | inl z ↦ absurd (omega (arith, ltb→lt 0 total e, z))
                | inr k ↦ n.1 (elim (Bool-cases (ltb 0 p)) [
                  | inl m ↦ absurd (omega (arith, k, b.1.0 (omega (arith, same, ltb→lt 0 p m))))
                  | inr m ↦ ground (arith, m)
                ])
              ],
            ),
          )
      | inr e ↦
          let zero_total : total ≡ 0 = ground (arith, e) in
          rw e (
            few,
            omega arith,
            (λ h. cc, λ h. absurd (omega (arith, h.0, zero_total))),
            (λ h. inl zero_total, λ h. refl),
          )
    ]

All-map :
    {A B : Type 0} (Q : B → Type 0) (f : A → B) (xs : List A)
    → ((x : A) → Q (f x))
    → All Q (map f xs)
All-map Q f [] h = tt
All-map Q f (x ∷ xs) h = (h x, All-map Q f xs h)

-- The entries of a reply.
abbrev pub AllTrue : ReportReply → Type 0
AllTrue (matrix_is rows) = All (λ (row : MatrixRow). All IsTrue row.assignments) rows
AllTrue _ = Unit

module _ (P : Prisma) where
  -- In every entry of a reply of the matrix, the completed challenges are at most the path's, the
  -- percentage is at most 100, the status is COMPLETED just if the path has challenges and at
  -- least 99.5 percent of them are completed, and NOT_STARTED just if it has none or less than
  -- half a percent are.
  pub matrix-AllTrue :
      (c : OrgCaller) (org_id : String) (s : OrgState P) → AllTrue (matrix P c org_id s)
  unfolding matrix
  matrix-AllTrue c org_id s =
      entered-all P AllTrue refused at_least_admin c s (λ o. matrix_is (matrix_in P s o)) (λ e. tt)
        (λ o m ok.
          All-map (λ (row : MatrixRow). All IsTrue row.assignments) (matrix_row P s _)
            (org_members P o s)
            (λ x.
              All-map IsTrue (path_progress (completions_of P x.1 s)) _
                (path_progress-IsTrue (completions_of P x.1 s))))
        (resolve P (user_id_of c) org_id s)

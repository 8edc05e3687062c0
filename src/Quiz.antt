-- ===== src/Quiz.antt =====
-- services/core/src/modules/content/quiz.routes.ts: quizzes, their grading, and the attempts.
pub mod Revealed
use devops_lab.Prelude.{
  ℕ, ◌*◌, Bool, true, false, ◌&&◌, ◌||◌, Option, none, some, String, List, [], ◌∷◌, map, string_eq,
  nat_eq, ◌==◌, ltb, leb, is_some, any, count, length, take, if◌then◌else◌,
}
use devops_lab.Services.{Prisma}
use devops_lab.Org.State.{NodeCompletion, given, either, same_option}

pub record Question : Type 0 where
  pub id : String
  pub text : String
  pub correct_index : ℕ
  pub explanation : Option String

-- A node of type QUIZ; its questions are missing if the metadata is malformed.
pub record QuizNode : Type 0 where
  pub id : String
  pub slug : Option String
  pub title : String
  pub questions : Option (List Question)

pub record QuizAttempt : Type 0 where
  pub user_id : String
  pub node_id : String
  pub score : ℕ
  pub total : ℕ
  pub passed : Bool

pub record QuizState (P : Prisma) : Type 0 where
  pub nodes : P.Table QuizNode
  pub attempts : P.Table QuizAttempt
  pub completions : P.Table NodeCompletion

-- What a client sees of a question.
pub record QuestionView : Type 0 where
  pub id : String
  pub text : String
  pub explanation : Option String

pub record QuestionResult : Type 0 where
  pub question_id : String
  pub correct : Bool
  pub correct_index : ℕ
  pub explanation : Option String

pub data QuizError : Type 0 where
  missing_fields quiz_not_found malformed_quiz unauthorized server_error : QuizError

pub data QuizReply : Type 0 where
  refused : QuizError → QuizReply
  graded : Bool → ℕ → ℕ → List QuestionResult → QuizReply
  quiz_view : Option (List QuestionView) → QuizReply
  history : List QuizAttempt → QuizReply

-- The user of the token, if it verifies, and the body's; whether the two writes succeed.
pub record Submit : Type 0 where
  pub quiz : String
  pub token_user : Option String
  pub body_user : Option String
  pub answers : Option (List (String × ℕ))
  pub now : ℕ
  pub attempt_written : Bool
  pub completion_written : Bool

abbrev pub view_of : Question → QuestionView
view_of q = record { id = q.id; text = q.text; explanation = q.explanation }

abbrev pub strip_answers : Option (List Question) → Option (List QuestionView)
strip_answers none = none
strip_answers (some qs) = some (map view_of qs)

-- `answers[q.id]`
abbrev pub answer_to : List (String × ℕ) → String → Option ℕ
answer_to [] id = none
answer_to ((k, n) ∷ answers) id = if k == id then some n else answer_to answers id

abbrev pub is_right : Option ℕ → ℕ → Bool
is_right none n = false
is_right (some m) n = m == n

abbrev pub grade : List (String × ℕ) → Question → QuestionResult
grade answers q = record {
  question_id = q.id;
  correct = is_right (answer_to answers q.id) q.correct_index;
  correct_index = q.correct_index;
  explanation = q.explanation;
}

abbrev pub score_of : List QuestionResult → ℕ
score_of rs = count (λ (r : QuestionResult). r.correct) rs

-- `total > 0 && correctCount / total >= 0.7`
abbrev pub has_passed : ℕ → ℕ → Bool
has_passed total score = ltb 0 total && leb (7 * total) (10 * score)

-- `OR: [{ id }, { metadata: slug }]`
abbrev pub is_quiz : String → QuizNode → Bool
is_quiz id n = n.id == id || same_option n.slug (some id)

abbrev pub is_done : String → String → NodeCompletion → Bool
is_done user_id node_id c = c.user_id == user_id && c.node_id == node_id

abbrev pub submitter : Submit → Option String
submitter q = either (given q.token_user) (given q.body_user)

module _ (P : Prisma) where
  abbrev pub record_attempt : Bool → QuizAttempt → P.Table QuizAttempt → P.Table QuizAttempt
  record_attempt written a t = if written then P.create a t else t

  abbrev pub complete : ℕ → String → String → P.Table NodeCompletion → P.Table NodeCompletion
  complete now user_id node_id t =
      if is_some (P.find_first (is_done user_id node_id) t)
      then t
      else P.create (record { user_id = user_id; node_id = node_id; created_at = now }) t

  unfoldable pub grade_quiz :
      Submit
      → String
      → List (String × ℕ)
      → String
      → List Question
      → QuizState P
      → QuizState P × QuizReply
  grade_quiz q user_id answers node_id qs s =
      let results = map (grade answers) qs in
      let total = length qs in
      let passed = has_passed total (score_of results) in
      let tried = record s {
        attempts =
            record_attempt q.attempt_written
              (record {
                user_id = user_id;
                node_id = node_id;
                score = score_of results;
                total = total;
                passed = passed;
              })
              s.attempts;
      } in
      let reply = graded passed (score_of results) total results in
      if passed
      then (if q.completion_written
          then (record tried { completions = complete q.now user_id node_id s.completions }, reply)
          else (tried, refused server_error))
      else (tried, reply)

  abbrev pub submit_to :
      Submit → String → List (String × ℕ) → Option QuizNode → QuizState P → QuizState P × QuizReply
  submit_to q user_id answers none s = (s, refused quiz_not_found)
  submit_to q user_id answers (some n) s = elim n.questions [
    | none ↦ (s, refused malformed_quiz)
    | some qs ↦ grade_quiz q user_id answers n.id qs s
  ]

  -- POST /quizzes/:id/submit
  unfoldable pub submit : Submit → QuizState P → QuizState P × QuizReply
  unfolding grade_quiz
  submit q s = elim (submitter q) [
    | none ↦ (s, refused missing_fields)
    | some user_id ↦ elim q.answers [
      | none ↦ (s, refused missing_fields)
      | some answers ↦ submit_to q user_id answers (P.find_first (is_quiz q.quiz) s.nodes) s
    ]
  ]

  -- GET /quizzes/:id
  unfoldable pub get_quiz : String → QuizState P → QuizReply
  get_quiz id s = elim (P.find_first (λ (n : QuizNode). n.id == id) s.nodes) [
    | none ↦ refused quiz_not_found
    | some n ↦ quiz_view (strip_answers n.questions)
  ]

  -- GET /quizzes/history, over rows that the query orders.
  unfoldable pub quiz_history : Option String → QuizState P → QuizReply
  quiz_history user s = elim (given user) [
    | none ↦ refused unauthorized
    | some u ↦ history (take 20 (P.find_many (λ (a : QuizAttempt). a.user_id == u) s.attempts))
  ]

  -- GET /quizzes/:id/history
  unfoldable pub history_of : String → Option String → QuizState P → QuizReply
  history_of id user s = elim (given user) [
    | none ↦ refused unauthorized
    | some u ↦ elim (P.find_first (is_quiz id) s.nodes) [
      | none ↦ refused quiz_not_found
      | some n ↦
          history
            (P.find_many (λ (a : QuizAttempt). a.user_id == u && a.node_id == n.id) s.attempts)
    ]
  ]

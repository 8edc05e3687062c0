-- ===== src/Tests/QuizTests.antt =====
-- services/core/src/modules/content/quiz.routes.ts at concrete states.
use devops_lab.Prelude.{◌≡◌, refl, true, none, some, List, [], ◌∷◌, arith, map, any}
use devops_lab.Services.{lists, find}
use devops_lab.Quiz.{
  Question, QuizNode, QuizState, graded, Submit, submit, grade_quiz, is_quiz, is_done, grade,
}
use devops_lab.Quiz.Revealed.{revealed, submit-revealed}

abbrev questions : List Question
questions =
    record { id = "a"; text = "A"; correct_index = 2; explanation = none }
    ∷ record { id = "b"; text = "B"; correct_index = 0; explanation = none }
    ∷ []

abbrev quiz : QuizNode
quiz = record { id = "q"; slug = some "pods"; title = "Pods"; questions = some questions }

abbrev school : QuizState lists
school = record { nodes = quiz ∷ []; attempts = []; completions = [] }

-- A guess without a token, in the name of a user.
abbrev guess : Submit
guess = record {
  quiz = "pods";
  token_user = none;
  body_user = some "ada";
  answers = some (("a", 1) ∷ []);
  now = 1;
  attempt_written = true;
  completion_written = true;
}

abbrev copied : Submit
copied = record guess { answers = some (("a", 2) ∷ ("b", 0) ∷ []); now = 2 }

quiz_found : lists.find_first (is_quiz "pods") school.nodes ≡ some quiz
unfolding find
quiz_found = refl

copied_answers : copied.answers ≡ some (revealed (submit lists guess school).1)
unfolding submit grade_quiz find
copied_answers = refl

submit-revealed_example :
    let first = submit lists guess school in
    let second = submit lists copied first.0 in
    (second.1 ≡ graded true 2 2 (map (grade (revealed first.1)) questions))
    × (any (is_done "ada" "q") second.0.completions ≡ true)
submit-revealed_example =
    submit-revealed lists guess copied "ada" "ada" (("a", 1) ∷ []) quiz questions school refl refl
      refl refl refl refl quiz_found refl (ground arith) ((refl, tt), (tt, tt)) copied_answers

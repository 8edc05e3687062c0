-- ===== src/Tests.antt =====
-- The samples of the tests, and the theorems at concrete inputs.
mod AuthTests
mod CoreTests
mod ListTests
mod MessagingTests
mod OrgTests
mod ProgressTests
mod QuizTests
mod SessionTests
mod SocialTests
mod WebTests

-- ===== src/Grading.antt =====
-- internal/grading/score.go, the score of internal/session/evidence.go, and internal/grading/rubric.go.
pub mod Hints
pub mod Score
pub mod Rubric
mod Tests

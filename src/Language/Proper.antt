-- ===== src/Language/Proper.antt =====
-- The language checks report lines of the file, known categories and confidences of at most 5.
pub mod Rules
pub mod Casts
pub mod Functions
pub mod Line

-- ===== src/LineChecks/Proper/Style.antt =====
-- The events of `CheckStyle`.
use netier.Base.{Option}

-- ===== src/Common.antt =====
-- src/Common: what all parts of the library use.
pub mod Log

-- ===== src/Saytts.antt =====
-- internal/saytts.
pub mod Wav

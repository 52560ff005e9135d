-- ===== src/Minarch.antt =====
-- workspace/all/minarch/minarch.c: the emulator frontend. The configuration is in Values (what a
-- text holds), Options (lists of options) and Config; the files a game saves are in Saves.
pub mod Values
pub mod Options
pub mod Controls
pub mod Config
pub mod Saves
pub mod Input
pub mod Menu
pub mod Slots
mod Tests

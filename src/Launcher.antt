-- ===== src/Launcher.antt =====
-- The launcher, workspace/all/minui/minui.c: the shell commands that it queues, the list of
-- recently played games, its directories and their index, and the movement of the selection.
pub mod Files
pub mod Command
pub mod Recents
pub mod Selection
pub mod Entries
pub mod Index
pub mod Root
pub mod Games
pub mod Stack
pub mod Last
pub mod Input
mod Tests

-- ===== src/Lib.antt =====
-- darkui is a launcher and emulator frontend for small handhelds, in C. This library models its
-- core logic and proves it correct.
--
-- The parts and how they interact. The launcher (workspace/all/minui/minui.c) lists folders,
-- collections and recently played games of the SD card, and queues a shell command for the game
-- that is chosen. It keeps its lists in the containers of workspace/all/minui/collections.c, and
-- takes names, tags and lines apart with the text functions of workspace/all/common/utils.c.
-- Both it and the emulator frontend (workspace/all/minarch/minarch.c and menu.c) read the buttons
-- that workspace/all/common/pad.c polls, and call workspace/all/common/pwr.c on every frame, which
-- puts the device to sleep. The frontend keeps the options of a core and the bindings of the
-- buttons in text files, saves the memory and the states of a game, and plays its sound through the
-- ring of workspace/all/common/snd.c. The clock tool (workspace/all/clock/clock.c) sets the date. The
-- processes share one block of settings by workspace/all/common/msettings_core.c.
--
-- Which file models which part:
--   Base          Boolean tests and lists over the native numbers, and their lemmas
--   CString       the functions of the C library on texts; a text is the list of the bytes
--                 before its NUL, a pointer into it is an index
--   Names         utils.c: prefixMatch, suffixMatch, exactMatch, hide, getDisplayName, getEmuName,
--                 getEmuPath, normalizeNewline, trimTrailingNewlines, trimSortingMeta
--   Collections   collections.c: Array, Hash, IntArray and their operations
--   Launcher      minui.c; Launcher.Files the line loop and the paths of paks and playlists,
--                 Launcher.Command escapeSingleQuotes and the queued commands, Launcher.Recents
--                 Recent, addRecent, saveRecents and hasRecents, Launcher.Entries Entry and the
--                 readers of lists of entries, Launcher.Index Directory_index, Launcher.Selection
--                 the movement of the selection in Menu_handleInput, Launcher.Root getRoot,
--                 Launcher.Games the state of the menu with readyResume, autoResume, openRom and
--                 openPak, Launcher.Stack Directory_new, openDirectory, closeDirectory and
--                 Entry_open, Launcher.Last loadLast and Menu_init, Launcher.Input the acting
--                 buttons of Menu_handleInput and Menu_deleteSelectedCollection
--   Sound         snd.c: SND_audioCallback, SND_resizeBuffer, both resamplers, SND_batchSamples
--   Pad           pad.c: PAD_setAnalog and PLAT_pollInput on any sequence of events, with
--                 PAD_tappedMenu in its Tapped and the motor's thread in its Vibration
--   Power         pwr.c: PWR_update, PWR_waitForWake and PWR_preventAutosleep
--   Minarch       minarch.c; Minarch.Values Config_getValue and the lines of a configuration,
--                 Minarch.Options the Option and OptionList functions, Minarch.Controls the
--                 bindings of buttons with Config_init, Minarch.Config Config_readOptions and
--                 Config_readControls, with Config_syncFrontend in its Frontend and Config_load,
--                 Config_write and Config_restore in its Files, Minarch.Saves the files of SRAM,
--                 RTC and states, Minarch.Input input_poll_callback, setFastForward and the toggle
--                 of the thread in main, Minarch.Menu of menu.c Menu_selectNext, Menu_selectPrev,
--                 the values of an item and Menu_toggleCollection, Minarch.Slots the slots of its states
--   Settings      msettings_core.c: InitSettingsCore, QuitSettingsCore and SaveSettingsCore, the
--                 start and the end of processes in any order in its Shares
--   Clock         clock.c: validate, the fields and the cursor
--
-- A function of the source is a function here, with its name in lower case and underscores. State
-- that the source changes is passed in and returned. What a `malloc` or `realloc` may refuse is a
-- Boolean argument, `granted`; the file system is the argument `Files` or a test `exists`. Where
-- the frontend changes files, the card is a function from paths to texts, `Disk`, that is passed
-- through, and a function that makes several calls gives the card after each of them; what `fopen`,
-- `fwrite`, `fclose` and `rename` answer is in the arguments. What a core gives (its options, its
-- memory, its serialised state) and what it is told is an argument or a part of the result. SAMPLES
-- of a platform is an argument too.
--
-- The C library is modelled as far as it is used: `qsort` as a sorting that leaves equal items in
-- their order, `strcasecmp` on bytes.
--
-- Loops are structural, or run on fuel. The loops of getDisplayName get the length of the text as
-- fuel, which is enough since each round cuts the text; the inner loop of SND_batchSamples gets a
-- step for each free place and each frame asked for, and loadLast a step for each byte of the path.
-- The loop in which a client waits for the host has 200 rounds, as the source.
-- The loop of Config_init gets the length of the text, of which every round takes some bytes.
-- The outer loop of SND_batchSamples ends only if the device goes on asking for frames, so its fuel
-- is an argument and running out of it is `none`.
--
-- Times of the device are numbers of 32 bits, and their differences wrap around (`sub_u32`).
--
-- Not modelled: drawing, scalers, zip files, device drivers, the SDL and libretro calls, which are
-- input and output; the lengths of path buffers (MAX_PATH), except where the source cuts at them; the
-- overflow of an `int` count, which no device's memory reaches. Bytes above 127 are numbers from
-- 128 to 255, where a `char` of the source may be negative.
pub mod Base
pub mod CString
pub mod Names
pub mod Collections
pub mod Launcher
pub mod Sound
pub mod Pad
pub mod Power
pub mod Settings
pub mod Minarch
pub mod Clock

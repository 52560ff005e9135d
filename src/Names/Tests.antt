-- ===== src/Names/Tests.antt =====
-- Runs of the text functions on paths as the SD card has them.
use darkui.Base.{◌≡◌, refl, Bool, []}
use darkui.CString.{Bytes, bytes, equal}
use darkui.Names.{Platform, get_display_name, system_pak}
use darkui.Names.Display.{DisplayName, get_display_name_shape}

abbrev sd_card : Platform
sd_card = record { sdcard_path = bytes "/mnt/SDCARD"; platform = bytes "rg35xx" }

display_name_run :
    get_display_name (bytes "rg35xx") (bytes "/mnt/SDCARD/Roms/Game (USA) [!].p8.png")
    ≡ bytes "Game"
unfolding get_display_name
display_name_run = refl

extension_only_run : get_display_name (bytes "rg35xx") (bytes ".png") ≡ []
unfolding get_display_name
extension_only_run = refl

get_display_name_shape_example :
    DisplayName
      (bytes "rg35xx")
      (bytes "Tools/Clock.pak/rg35xx")
      (get_display_name (bytes "rg35xx") (bytes "Tools/Clock.pak/rg35xx"))
get_display_name_shape_example =
    get_display_name_shape (bytes "rg35xx") (bytes "Tools/Clock.pak/rg35xx")

abbrev system_only : Bytes → Bool
unfolding equal
system_only path = equal path (system_pak sd_card (bytes "GB"))

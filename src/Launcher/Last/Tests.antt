-- ===== src/Launcher/Last/Tests.antt =====
-- Runs of the way back to the last game.
use darkui.Base.{◌≡◌, [], ◌∷◌, refl}
use darkui.CString.{bytes, before_last}
use darkui.Names.{exact_match}
use darkui.Launcher.Last.{ancestors}

ancestors_run :
    ancestors 20 (bytes "/mnt") (bytes "/mnt/Roms/GB/a.gb") []
    ≡ bytes "/mnt/Roms" ∷ bytes "/mnt/Roms/GB" ∷ bytes "/mnt/Roms/GB/a.gb" ∷ []
unfolding ancestors exact_match before_last
ancestors_run = refl

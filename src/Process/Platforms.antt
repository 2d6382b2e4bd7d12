-- ===== src/Process/Platforms.antt =====
-- Which platforms' games the process manager can run, and with which launcher.
use drop_app.Prelude.{String, ◌≡◌, Bool, ◌&&◌, ◌||◌, is_some, arith}
use drop_app.Database.Metadata.{Platform, windows, linux, platform_eq}
use drop_app.Database.Models.{DatabaseApplications}
use drop_app.Process.Compat.{Host, create_new_compat_info, get_umu_executable}
use drop_app.Process.Handlers.{native_game_launcher, umu_launcher, asahi_muvm_launcher, asahi_valid}
use drop_app.Process.Manager.{new, valid_platform, fetch_process_handler, find_launcher}

-- A game can be run on the platform it is made for, and a Windows game on Linux where umu is found.
abbrev pub can_run : Host → Platform → Bool
can_run h target =
    platform_eq h.os target
    || platform_eq h.os linux && platform_eq target windows && is_some (get_umu_executable h)

-- A new process manager says a platform is valid exactly if it is the host's own, or it is Windows
-- and the host is Linux with umu.
pub valid_platform-new :
    (Child : Type 0) (h : Host) (dir : String) (db : DatabaseApplications) (target : Platform)
    → valid_platform (new {Child = Child} h dir) db target ≡ can_run h target
unfolding valid_platform new fetch_process_handler find_launcher platform_eq umu_launcher
    asahi_muvm_launcher native_game_launcher create_new_compat_info asahi_valid
valid_platform-new Child h dir db target = ground arith

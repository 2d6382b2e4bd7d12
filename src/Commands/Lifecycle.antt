-- ===== src/Commands/Lifecycle.antt =====
-- How the client is hidden and ended: the tray and the window in `run` of src-tauri/src/lib.rs, and
-- `quit` of src-tauri/src/client.rs. The window system's events, in any order, are an argument.
pub mod Tray
use text.Mathlib.Text.{◌==◌ as str_eq}
use drop_app.Prelude.{
  ℕ, String, Bool, true, false, not, ◌&&◌, Option, none, some, List, [], ◌∷◌, ◌++◌, is_some,
  if◌then◌else◌,
}
use drop_app.Prelude.Panics.{◌>>=◌}

-- What joining the manager's thread gives.
pub data ThreadEnd : Type 0 where
  succeeded failed panicked : ThreadEnd

-- The manager's thread: it receives signals, and ends like this once it is told to finish; it died;
-- or it was joined.
pub data Terminator : Type 0 where
  receiving : ThreadEnd → Terminator
  died joined : Terminator

-- `asked`: the codes that `exit` was called with.
pub record App : Type 0 where
  pub shown : Bool
  pub closed : Bool
  pub ended : Bool
  pub asked : List ℕ
  pub terminator : Terminator

pub data Event : Type 0 where
  close_requested : Event
  menu_event : String → Event
  quit_called : Event
  exit_requested : Option ℕ → Event

-- `NO_TRAY_ICON`, and the lower case of a text.
abbrev pub run_on_tray : (String → String) → Option String → Bool
run_on_tray lowercase none = true
run_on_tray lowercase (some s) = not (str_eq (lowercase s) "true")

-- Sending to a thread that is gone panics, and so does joining it twice.
abbrev pub terminate : Terminator → Option ThreadEnd
terminate (receiving end) = some end
terminate died = none
terminate joined = none

abbrev exit_after : App → ThreadEnd → Option App
exit_after app succeeded = some (record app { terminator = joined; asked = app.asked ++ 0 ∷ [] })
exit_after app failed = some (record app { terminator = joined; asked = app.asked ++ 0 ∷ [] })
exit_after app panicked = none

unfoldable pub cleanup_and_exit : App → Option App
cleanup_and_exit app = terminate app.terminator >>= exit_after app

-- Errors of showing and of hiding the window, or none.
pub record WindowSystem : Type 0 where
  pub show : Option String
  pub hide : Option String

-- The window is looked up by its label, under which there is none once it is closed.
abbrev get_window : App → Option (Unit {0})
get_window app = if app.closed then none else some tt

abbrev expect_done : Option String → Option (Unit {0})
expect_done none = some tt
expect_done (some e) = none

module _ (window : WindowSystem) where
  abbrev pub on_menu_event : String → App → Option App
  on_menu_event id app =
      let quitting = cleanup_and_exit app in
      if str_eq id "open"
      then (do _ ← get_window app; _ ← expect_done window.show; some (record app { shown = true }))
      else if str_eq id "quit"
      then quitting
      else some app

  -- With the tray, closing hides the window, and only an exit with a code is let through.
  abbrev pub on_window_event : Bool → App → Option App
  on_window_event tray app =
      if tray
      then (do _ ← expect_done window.hide; some (record app { shown = false }))
      else some (record app { shown = false; closed = true })

  abbrev pub on_run_event : Bool → Option ℕ → App → App
  on_run_event tray code app =
      if tray && not (is_some code) then app else record app { ended = true }

  abbrev pub step : Bool → Event → App → Option App
  step tray close_requested app = on_window_event tray app
  step tray (menu_event id) app = on_menu_event id app
  step tray quit_called app = cleanup_and_exit app
  step tray (exit_requested code) app = some (on_run_event tray code app)

  unfoldable pub run : Bool → List Event → App → Option App
  run tray [] app = some app
  run tray (e ∷ es) app = step tray e app >>= run tray es

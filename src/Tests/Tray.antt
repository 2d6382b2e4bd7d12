-- ===== src/Tests/Tray.antt =====
-- The window, the tray and quitting.
use drop_app.Prelude.{◌≡◌, refl, true, false, none, some, List, [], ◌∷◌}
use drop_app.Commands.Lifecycle.{
  WindowSystem, App, Event, close_requested, menu_event, quit_called, exit_requested, receiving,
  joined, succeeded, run, step, cleanup_and_exit,
}
use drop_app.Commands.Lifecycle.Tray.{SameBut, outlives_window}

abbrev started : App
started = record {
  shown = true;
  closed = false;
  ended = false;
  asked = [];
  terminator = receiving succeeded;
}

abbrev fine : WindowSystem
fine = record { show = none; hide = none }

abbrev closed_twice : List Event
closed_twice =
    close_requested
    ∷ exit_requested none
    ∷ menu_event "open"
    ∷ menu_event "other"
    ∷ close_requested
    ∷ exit_requested none
    ∷ []

outlives_window_example :
    (app : App) × (run fine true closed_twice started ≡ some app)
    × SameBut started app
    × (step fine true (menu_event "open") app ≡ some (record app { shown = true }))
outlives_window_example =
    outlives_window fine refl refl closed_twice started refl
      (tt, (refl, (refl, (refl, (tt, (refl, tt))))))

hidden : run fine true closed_twice started ≡ some (record started { shown = false })
unfolding run
hidden = refl

-- Without the tray closing the window lets the client end.
gone :
    run fine false (close_requested ∷ exit_requested none ∷ []) started
    ≡ some (record started { shown = false; closed = true; ended = true })
unfolding run
gone = refl

quits :
    run fine true (quit_called ∷ exit_requested (some 0) ∷ []) started
    ≡ some (record started { ended = true; asked = 0 ∷ []; terminator = joined })
unfolding run cleanup_and_exit
quits = refl

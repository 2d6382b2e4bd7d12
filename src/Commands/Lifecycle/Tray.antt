-- ===== src/Commands/Lifecycle/Tray.antt =====
-- src-tauri/src/lib.rs, `run`: what ends the client, and what does not.
use text.Mathlib.Text.{◌==◌ as str_eq}
use drop_app.Prelude.{
  ◌≡◌, refl, ◌∙◌, Bool, true, false, none, some, List, [], ◌∷◌, ◌++◌, Bool-cases, Option-cases, inl,
  inr, All, ◌⊎◌, sym, subst,
}
use drop_app.Prelude.Panics.{◌>>=◌}
use drop_app.Commands.Lifecycle.{
  WindowSystem, succeeded, failed, panicked, Terminator, receiving, died, joined, App, Event,
  close_requested, menu_event, quit_called, exit_requested, cleanup_and_exit, step, run, terminate,
  exit_after,
}

-- Nobody asks to quit, and no exit has a code.
abbrev pub Quiet : Event → Type 0
Quiet close_requested = Unit
Quiet (menu_event id) = str_eq id "quit" ≡ false
Quiet quit_called = ⊥
Quiet (exit_requested code) = code ≡ none

abbrev pub SameBut : App → App → Type 0
SameBut app app' =
    (app'.ended ≡ app.ended)
    × (app'.closed ≡ app.closed)
    × (app'.asked ≡ app.asked)
    × (app'.terminator ≡ app.terminator)

module _ (window : WindowSystem) (shows : window.show ≡ none) (hides : window.hide ≡ none) where
  step-SameBut :
      (e : Event) (app : App)
      → app.closed ≡ false
      → Quiet e
      → (app' : App) × (step window true e app ≡ some app') × SameBut app app'
  step-SameBut close_requested app c q =
      (record app { shown = false }, rw hides refl, (refl, refl, refl, refl))
  step-SameBut (menu_event id) app c q = elim (Bool-cases (str_eq id "open")) [
    | inl opened ↦
        (record app { shown = true }, rw (opened, c, shows) refl, (refl, refl, refl, refl))
    | inr other ↦ (app, rw (other, q) refl, (refl, refl, refl, refl))
  ]
  step-SameBut quit_called app c q = elim q [ ]
  step-SameBut (exit_requested none) app c q = (app, refl, (refl, refl, refl, refl))
  step-SameBut (exit_requested (some code)) app c q = cc

  -- With the tray icon the client outlives its window, where showing and hiding it succeed and it is
  -- not closed at first. Whatever events come, in whatever order, unless the menu or a command quits or
  -- an exit has a code: none of them panics, the window is never closed, the client does not end, and
  -- the menu's `open` then shows the window.
  pub outlives_window :
      (es : List Event) (app : App)
      → app.closed ≡ false
      → All Quiet es
      → (app' : App) × (run window true es app ≡ some app')
        × SameBut app app'
        × (step window true (menu_event "open") app' ≡ some (record app' { shown = true }))
  unfolding run
  outlives_window [] app c q = (app, refl, (refl, refl, refl, refl), rw (c, shows) refl)
  outlives_window (e ∷ es) app c (q, qs) =
      let (next, stepped, same) = step-SameBut e app c q in
      let (last, ran, same', opens) = outlives_window es next (same.1 ∙ c) qs in
      (
        last,
        rw stepped ran,
        (same'.0 ∙ same.0, same'.1 ∙ same.1, same'.2 ∙ same.2, same'.3 ∙ same.3),
        opens,
      )

-- Without the tray the window is gone once it is closed, and the menu's `open` panics.
pub closed_then_open :
    (window : WindowSystem) (app : App)
    → run window false (close_requested ∷ menu_event "open" ∷ []) app ≡ none
unfolding run
closed_then_open window app = refl

-- A thread that receives no more signals.
abbrev Gone : Terminator → Type 0
Gone (receiving end) = ⊥
Gone died = Unit
Gone joined = Unit

terminate-Gone : (t : Terminator) → Gone t → terminate t ≡ none
terminate-Gone (receiving end) g = elim g [ ]
terminate-Gone died g = refl
terminate-Gone joined g = refl

cleanup_and_exit-Gone : (app : App) → Gone app.terminator → cleanup_and_exit app ≡ none
unfolding cleanup_and_exit
cleanup_and_exit-Gone app g = rw (terminate-Gone app.terminator g) refl

-- What keeps or loses the thread for good.
step-Gone :
    (window : WindowSystem) (tray : Bool) (e : Event) (app : App)
    → Gone app.terminator
    → (step window tray e app ≡ none)
      ⊎ ((app' : App) × (step window tray e app ≡ some app') × (app'.terminator ≡ app.terminator))
step-Gone window true close_requested app g = elim (Option-cases window.hide) [
  | inl hides ↦ inr (record app { shown = false }, rw hides refl, refl)
  | inr (e, fails) ↦ inl (rw fails refl)
]
step-Gone window false close_requested app g = inr (_, refl, refl)
step-Gone window tray (menu_event id) app g = elim (Bool-cases (str_eq id "open")) [
  | inl opened ↦ elim (Bool-cases app.closed) [
    | inl closed ↦ inl (rw (opened, closed) refl)
    | inr there ↦ elim (Option-cases window.show) [
      | inl shows ↦ inr (record app { shown = true }, rw (opened, there, shows) refl, refl)
      | inr (e, fails) ↦ inl (rw (opened, there, fails) refl)
    ]
  ]
  | inr other ↦ elim (Bool-cases (str_eq id "quit")) [
    | inl quits ↦ inl (rw (other, quits, cleanup_and_exit-Gone app g) refl)
    | inr ignored ↦ inr (app, rw (other, ignored) refl, refl)
  ]
]
step-Gone window tray quit_called app g = inl (cleanup_and_exit-Gone app g)
step-Gone window true (exit_requested none) app g = inr (app, refl, refl)
step-Gone window true (exit_requested (some code)) app g = inr (_, refl, refl)
step-Gone window false (exit_requested code) app g = inr (_, refl, refl)

module _ (window : WindowSystem) (tray : Bool) where
  run-Gone :
      (es rest : List Event) (app : App)
      → Gone app.terminator
      → run window tray (es ++ quit_called ∷ rest) app ≡ none
  unfolding run
  run-Gone [] rest app g = rw (cleanup_and_exit-Gone app g) refl
  run-Gone (e ∷ es) rest app g = elim (step-Gone window tray e app g) [
    | inl panics ↦ rw panics refl
    | inr (next, stepped, same) ↦ rw stepped (run-Gone es rest next (subst Gone (sym same) g))
  ]

  join_then :
      (es rest : List Event) (app : App) (t : Terminator)
      → (terminate t >>= exit_after app) >>= run window tray (es ++ quit_called ∷ rest) ≡ none
  join_then es rest app (receiving succeeded) = run-Gone es rest _ tt
  join_then es rest app (receiving failed) = run-Gone es rest _ tt
  join_then es rest app (receiving panicked) = refl
  join_then es rest app died = refl
  join_then es rest app joined = refl

  -- The manager's thread can be joined once only: a second `quit` panics, whatever happens in between,
  -- and so does the first one if the thread has died.
  pub quit_twice :
      (es rest : List Event) (app : App)
      → run window tray (quit_called ∷ es ++ quit_called ∷ rest) app ≡ none
  unfolding run cleanup_and_exit
  quit_twice es rest app = join_then es rest app app.terminator

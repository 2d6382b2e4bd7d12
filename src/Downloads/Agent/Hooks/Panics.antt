-- ===== src/Downloads/Agent/Hooks/Panics.antt =====
-- src-tauri/games/src/downloads/download_agent.rs: which of the manager's calls of an agent can panic.
use mathlib.Core.Logic.{◌↔◌}
use drop_app.Prelude.{
  ◌≡◌, refl, Bool, true, none, some, get, string_key, get-remove, get-insert_self, arith, is_some,
  Bool-cases, inl, inr, if◌then◌else◌,
}
use drop_app.Database.Metadata.{game, metadata_key, metadata_eq_any_version}
use drop_app.Database.Models.{queued, partially_installed}
use drop_app.Manager.Signals.{DownloadStatus}
use drop_app.Games.State.{fetch_state, unversioned}
use drop_app.Games.Library.{Client, push_game_update, needs_version, emit, set_partially_installed}
use drop_app.Games.Library
use drop_app.Games.Library.Transitions.{set_partially_installed_lem}
use drop_app.Downloads.DropData.{write}
use drop_app.Downloads.Agent.{GameDownloadAgent, Env, metadata, announce}
use drop_app.Downloads.Agent.Hooks.{on_queued, on_error, on_cancelled, forget_transient, set_status}

forgotten_state :
    (a : GameDownloadAgent) (c : Client)
    → fetch_state a.id (forget_transient a c).db ≡ (get a.id c.db.game_statuses, none)
unfolding fetch_state metadata
forgotten_state a c = ground (
  arith,
  get-remove (metadata a) (unversioned a.id) c.db.transient_statuses,
  metadata_eq_any_version a.id (some a.version) none game,
)

-- Putting an agent into the queue does not panic: it waits then, and the database says so under its
-- key.
pub on_queued_lem :
    (a : GameDownloadAgent) (env : Env)
    → (env' : Env) × (on_queued a env ≡ some (set_status DownloadStatus.queued a, env'))
      × (get (metadata a) env'.client.db.transient_statuses ≡ some (queued a.version))
unfolding on_queued announce push_game_update emit
on_queued_lem a env =
    (_, refl, get-insert_self (metadata a) (queued a.version) env.client.db.transient_statuses)

-- Telling an agent of an error panics exactly if the game's stored status is one that needs version
-- information, that of an installed game or of one whose setup is to run.
pub on_error-none :
    (a : GameDownloadAgent) (env : Env)
    → (on_error a env ≡ none) ↔ (needs_version (get a.id env.client.db.game_statuses) ≡ true)
unfolding on_error push_game_update emit
on_error-none a env =
    let known = forgotten_state a (emit Library.download_error env.client) in
    elim (Bool-cases (needs_version (get a.id env.client.db.game_statuses))) [
      | inl needs ↦
          let panics : on_error a env ≡ none = rw (known, needs) in (λ e. needs, λ h. panics)
      | inr fine ↦
          let returns : is_some (on_error a env) ≡ true = rw (known, fine) in
          (λ e. ground (arith, e, returns), λ h. ground (arith, h, fine))
    ]

-- Cancelling an agent does not panic: the game is partially installed then, in the agent's directory
-- and version, with no transient status on top, and if the write succeeds the file holds what is
-- done.
pub on_cancelled_lem :
    (written : Bool) (a : GameDownloadAgent) (env : Env)
    → (env' : Env) × (on_cancelled written a env ≡ some env')
      × (fetch_state a.id env'.client.db
          ≡ (some (partially_installed a.version a.dropdata.base_path), none))
      × (env'.file ≡ (if written then some a.dropdata else env.file))
unfolding on_cancelled metadata write
on_cancelled_lem written a env =
    let (c, run, state, version, elsewhere) =
      set_partially_installed_lem (metadata a) a.version a.dropdata.base_path true env.client refl
        refl in
    (
      record env { client = c; file = write written a.dropdata env.file },
      rw run,
      state,
      ground arith,
    )

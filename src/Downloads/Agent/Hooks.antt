-- ===== src/Downloads/Agent/Hooks.antt =====
-- The implementation of `Downloadable` in src-tauri/games/src/downloads/download_agent.rs: what the
-- manager calls an agent for. The stages that fetch are in Run and Validate.
pub mod Panics
pub mod Shared
use drop_app.Prelude.{Bool, true, Option, none, some, List, [], ◌∷◌, ◌++◌, remove}
use drop_app.Prelude.Panics.{◌>>=◌}
use drop_app.Database.Metadata.{metadata_key}
use drop_app.Database.Models.{queued}
use drop_app.Remote.Error.{RemoteAccessError}
use drop_app.Manager.Signals.{DownloadManagerSignal, error, download_error, DownloadStatus}
use drop_app.Games.State.{fetch_state}
use drop_app.Games.Library.{
  Client, Answer, emit, push_game_update, set_partially_installed, on_game_complete,
}
use drop_app.Games.Library
use drop_app.Downloads.DropData.{write}
use drop_app.Downloads.Agent.{GameDownloadAgent, Env, metadata, announce}

abbrev pub with_client : Env → Option Client → Option Env
with_client env none = none
with_client env (some c) = some (record env { client = c })

abbrev pub set_status : DownloadStatus → GameDownloadAgent → GameDownloadAgent
set_status status a = record a { status = status }

unfoldable pub on_queued : GameDownloadAgent → Env → Option (GameDownloadAgent × Env)
on_queued a env = do
  env' ← with_client env (announce a (queued a.version) env.client)
  some (set_status DownloadStatus.queued a, env')

abbrev pub forget_transient : GameDownloadAgent → Client → Client
forget_transient a c = record c {
  db = record c.db { transient_statuses = remove (metadata a) c.db.transient_statuses };
}

-- The error is shown, and the interface told the state of the game without version information.
unfoldable pub on_error : GameDownloadAgent → Env → Option (GameDownloadAgent × Env)
on_error a env = do
  let forgotten = forget_transient a (emit Library.download_error env.client)
  env' ← with_client env (push_game_update a.id none (fetch_state a.id forgotten.db) forgotten)
  some (set_status DownloadStatus.failed a, env')

abbrev pub completion_signals : Option RemoteAccessError → List DownloadManagerSignal
completion_signals none = []
completion_signals (some e) = error (download_error e) ∷ []

unfoldable pub on_complete : GameDownloadAgent → Answer → Env → Env
on_complete a answer env =
    let (failure, c) = on_game_complete (metadata a) a.dropdata.base_path answer env.client in
    record env { client = c; sent = env.sent ++ completion_signals failure }

unfoldable pub on_cancelled : Bool → GameDownloadAgent → Env → Option Env
on_cancelled written a env = do
  env' ← with_client env (set_partially_installed (metadata a) a.dropdata.base_path true env.client)
  some (record env' { file = write written a.dropdata env'.file })

-- ===== src/Process/Ends.antt =====
-- What the end of a process does to the state of its game.
use drop_app.Prelude.{
  String, ◌≡◌, refl, Bool, true, false, ℕ, List, [], ◌∷◌, ◌++◌, inl, inr, Option, none, some, get,
  remove, same, string_key, arith, if◌then◌else◌, get-insert, get-remove, get-insert_self,
  get-remove_self, get-congr, Bool-cases, Map,
}
use mathlib.Core.List.{append-nil}
use drop_app.Database.Metadata.{DownloadableMetadata, game, metadata_key}
use drop_app.Database.Models.{
  GameVersion, GameDownloadStatus, installed, setup_required, remote, partially_installed,
}
use drop_app.Games.State.{fetch_state, unversioned, merge_states}
use drop_app.Games.Library.{Client, push_game_update, emit, update_game, UiEvent}
use drop_app.Games.Library.Transitions.{same-unversioned, SameElsewhere, metadata_eq_other}
use drop_app.Process.{ProcessError, failed_launch}
use drop_app.Process.Manager.{ProcessManager, RunningProcess, kill_game, KillAnswers, mark_killed}
use drop_app.Process.Finish.{
  WaitResult, succeeded, on_process_finish, release, looks_failed, installed_version_data,
  finish_setup,
}

-- The database knows which version of the game is installed, and has that version's data `g`.
abbrev pub Consistent : String → DownloadableMetadata → GameVersion → Client → Type 0
Consistent id meta g c =
    (meta.id ≡ id)
    × (meta.download_type ≡ game)
    × (get id c.db.installed_game_version ≡ some meta)
    × (installed_version_data c.db id meta ≡ some g)

-- The status that the end of a process leaves: a setup that succeeded makes the game installed.
abbrev pub finished_status : Option GameDownloadStatus → Bool → Option GameDownloadStatus
finished_status (some (setup_required v d)) true = some (installed v d)
finished_status status success = status

finish_setup-lookup :
    (id other : String) (success : Bool) (status : Option GameDownloadStatus)
    (m : Map String GameDownloadStatus)
    → get id m ≡ status
    → get other (finish_setup status success id m)
      ≡ (if same id other then finished_status status success else get other m)
finish_setup-lookup id other true (some (setup_required v d)) m h =
    get-insert id other (installed v d) m
finish_setup-lookup id other false (some (setup_required v d)) m h =
    ground (arith, get-congr id other m)
finish_setup-lookup id other success (some (installed v d)) m h =
    ground (arith, get-congr id other m)
finish_setup-lookup id other success (some (partially_installed v d)) m h =
    ground (arith, get-congr id other m)
finish_setup-lookup id other success (some remote) m h = ground (arith, get-congr id other m)
finish_setup-lookup id other success none m h = ground (arith, get-congr id other m)

release-fetch_state :
    (id : String) (meta : DownloadableMetadata) (result : WaitResult) (c : Client)
    → meta.id ≡ id
    → meta.download_type ≡ game
    → fetch_state id (release id meta result c).db
      ≡ merge_states none (finished_status (get id c.db.game_statuses) (succeeded result))
unfolding release fetch_state
release-fetch_state id meta result c i t =
    let status = get id c.db.game_statuses in
    ground (
      arith,
      get-remove meta (unversioned id) c.db.transient_statuses,
      same-unversioned meta t,
      finish_setup-lookup id id (succeeded result) status c.db.game_statuses refl,
      string_key.eq-refl id,
    )

release-elsewhere :
    (id : String) (meta : DownloadableMetadata) (result : WaitResult) (c : Client)
    → meta.id ≡ id
    → SameElsewhere id c (release id meta result c)
unfolding release fetch_state
release-elsewhere id meta result c i other h =
    let status = get id c.db.game_statuses in
    ground (
      arith,
      get-remove meta (unversioned other) c.db.transient_statuses,
      metadata_eq_other meta other,
      finish_setup-lookup id other (succeeded result) status c.db.game_statuses refl,
    )

-- What the program shows of a game whose process has ended.
abbrev pub state_after : String → WaitResult → Client → Option GameDownloadStatus
state_after id result c = finished_status (get id c.db.game_statuses) (succeeded result)

abbrev pub finish_error : Bool → String → Option ProcessError
finish_error true id = some (failed_launch id)
finish_error false id = none

abbrev pub finish_events : Bool → String → Option GameDownloadStatus → GameVersion → List UiEvent
finish_events true id status g = []
finish_events false id status g = update_game id (merge_states none status) (some g) ∷ []

module _ {Child : Type 0} where
  -- The end of a running process, in a database that is consistent for its game, does not panic. The
  -- process is forgotten, the game is no longer running and shows its stored status, a setup that
  -- succeeded having made it installed, and other games are as before. A failed launch is reported
  -- exactly if the game was not killed and ended at once or without success; only otherwise is the
  -- interface told of the new state.
  pub on_process_finish_lem :
      (id : String) (result : WaitResult) (now : ℕ) (m : ProcessManager Child) (c : Client)
      (p : RunningProcess Child) (meta : DownloadableMetadata) (g : GameVersion)
      → get id m.processes ≡ some p
      → Consistent id meta g c
      → (m' : ProcessManager Child) × (c' : Client) × (on_process_finish id result now (m, c)
          ≡ some (finish_error (looks_failed p now result) id, m', c'))
        × (m'.processes ≡ remove id m.processes)
        × (fetch_state id c'.db ≡ merge_states none (state_after id result c))
        × (c'.events
            ≡ c.events ++ finish_events (looks_failed p now result) id (state_after id result c) g)
        × SameElsewhere id c c'
  unfolding on_process_finish push_game_update emit release installed_version_data
  on_process_finish_lem id result now m c p meta g h (i, t, known, entry) =
      let m' = record m { processes = remove id m.processes } in
      let c₀ = release id meta result c in
      let shown = release-fetch_state id meta result c i t in
      elim (Bool-cases (looks_failed p now result)) [
        | inl failed ↦ (
          m',
          c₀,
          ground arith,
          refl,
          shown,
          ground (arith, append-nil c.events),
          release-elsewhere id meta result c i,
        )
        | inr fine ↦ (
          m',
          emit (update_game id (fetch_state id c₀.db) (some g)) c₀,
          ground (arith, shown),
          refl,
          shown,
          ground (arith, shown),
          release-elsewhere id meta result c i,
        )
      ]

  -- A running game that the player kills, in a database that is consistent for it, is not reported as
  -- a failed launch when its process ends, however soon and however it ends, and whatever the
  -- operating system answered to the kill: the interface is told of its state.
  pub kill_then_finish :
      (id : String) (answers : KillAnswers) (m : ProcessManager Child) (c : Client)
      (p : RunningProcess Child) (meta : DownloadableMetadata) (g : GameVersion)
      (result : WaitResult) (end : ℕ)
      → get id m.processes ≡ some p
      → Consistent id meta g c
      → let status = state_after id result c in
        let killed = (kill_game id answers m).1 in
        (m' : ProcessManager Child) × (c' : Client) × (on_process_finish id result end (killed, c)
          ≡ some (none, m', c'))
        × (get id m'.processes ≡ none)
        × (fetch_state id c'.db ≡ merge_states none status)
        × (c'.events ≡ c.events ++ update_game id (merge_states none status) (some g) ∷ [])
  unfolding kill_game
  kill_then_finish id answers m c p meta g result end h k =
      let killed = (kill_game id answers m).1 in
      let here : get id killed.processes ≡ some (mark_killed p) =
        rw h (get-insert_self id (mark_killed p) m.processes) in
      let (m', c', ended, removed, shown, told, _) =
        on_process_finish_lem id result end killed c (mark_killed p) meta g here k in
      (m', c', ended, rw removed (get-remove_self id killed.processes), shown, told)

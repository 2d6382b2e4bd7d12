-- ===== src/Commands/Downloads/Resume.antt =====
-- A download that is cancelled and resumed.
use text.Mathlib.Text.{◌==◌ as str_eq}
use drop_app.Prelude.{
  String, ◌≡◌, ◌∙◌, true, false, ℕ, Option, some, get, string_key, get-insert_self, arith,
}
use drop_app.Prelude.Outcomes.{Outcome, ok, >>=-eq-ok}
use drop_app.Prelude.Texts.{join_path, ends_with}
use drop_app.Prelude.Paths.{no_slash, parent-join_path}
use drop_app.Database.Models.{partially_installed}
use drop_app.Games.Library.{
  set_partially_installed, mark_partially_installed, push_game_update, emit,
}
use drop_app.Manager.Signals.{ApplicationDownloadError}
use drop_app.Downloads.Manifest.{DropManifest}
use drop_app.Downloads.DropData.{DropData, generate, write}
use drop_app.Downloads.Agent.{GameDownloadAgent, Env, metadata}
use drop_app.Downloads.Agent.Space.{new, new_agent, required_space}
use drop_app.Downloads.Agent.Hooks.{on_cancelled}
use drop_app.Commands.Downloads.{DownloadState, new_in, enqueue, resume_download}

abbrev pub Resumes : GameDownloadAgent → GameDownloadAgent → Type 0
Resumes a b = (b.id ≡ a.id) × (b.version ≡ a.version) × (b.dropdata ≡ a.dropdata)

-- A cancelled download is a partial install of its version, and its data are on the disk.
on_cancelled_status :
    (a : GameDownloadAgent) (env env' : Env)
    → on_cancelled true a env ≡ some env'
    → (get a.id env'.client.db.game_statuses
        ≡ some (partially_installed a.version a.dropdata.base_path))
      × (env'.file ≡ some a.dropdata)
unfolding on_cancelled metadata set_partially_installed mark_partially_installed push_game_update
    emit write
on_cancelled_status a env env' h = ground (
  arith,
  get-insert_self a.id (partially_installed a.version a.dropdata.base_path)
      env.client.db.game_statuses,
)

-- An agent that is made from the data on the disk has these data.
new-Resumes :
    (d : DropData) (id version dir : String)
    (manifest : Outcome ApplicationDownloadError DropManifest)
    (available : Outcome ApplicationDownloadError ℕ) (b : GameDownloadAgent)
    → new (some d) id version dir manifest available ≡ ok b
    → (b.id ≡ id) × (b.version ≡ version) × (b.dropdata ≡ d)
unfolding new new_agent generate
new-Resumes d id version dir manifest available b h =
    let (m, _, h') = >>=-eq-ok manifest _ h in
    let (required, _, h'') = >>=-eq-ok (required_space d.contexts m) _ h' in
    let (space, _, h''') = >>=-eq-ok available _ h'' in ground (arith, h''')

module _ (disk : String → Option DropData)
    (manifest : String → String → Outcome ApplicationDownloadError DropManifest)
    (available : String → Outcome ApplicationDownloadError ℕ) where
  -- Let an agent keep its data in the directory of its game below `base`, a path that is not empty and
  -- does not end in a slash, let the game's id be a name, and let the data be written and found again
  -- after the agent is cancelled. Resuming the game then, if it succeeds, adds one agent at the end
  -- and tells the manager of it: an agent for the same game and version with the same data, so with
  -- the same chunks done.
  pub on_cancelled-resume_download :
      (a : GameDownloadAgent) (env env' : Env) (base : String) (s s' : DownloadState)
      → str_eq base "" ≡ false
      → ends_with base "/" ≡ false
      → str_eq a.id "" ≡ false
      → no_slash a.id ≡ true
      → a.dropdata.base_path ≡ join_path base a.id
      → on_cancelled true a env ≡ some env'
      → disk (join_path base a.id) ≡ env'.file
      → resume_download disk manifest available a.id env'.client.db s ≡ ok s'
      → (b : GameDownloadAgent) × (s' ≡ enqueue b s) × Resumes a b
  unfolding resume_download
  on_cancelled-resume_download a env env' base s s' b e n h placed cancelled found resumed =
      let (status, file) = on_cancelled_status a env env' cancelled in
      let (b', made, eq) =
        >>=-eq-ok (new_in disk manifest available a.id a.version base) _
          (rw (status, placed, parent-join_path base a.id b e n h) at resumed) in
      (
        b',
        ground (arith, eq),
        new-Resumes a.dropdata a.id a.version (join_path base a.id) _ _ b'
            (rw (found ∙ file) at made),
      )

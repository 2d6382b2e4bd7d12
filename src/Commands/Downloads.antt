-- ===== src/Commands/Downloads.antt =====
-- src-tauri/src/downloads.rs, with `GameDownloadAgent::new_from_index` and `download_manifest` of
-- src-tauri/games/src/downloads/download_agent.rs: the commands that start and resume a download. What
-- the disk has, and what the server answers, are arguments.
pub mod Resume
use drop_app.Prelude.{
  String, ℕ, ◌==◌, List, [], ◌∷◌, ◌++◌, Option, none, some, get, string_key, get_elem?, length,
  if◌then◌else◌,
}
use drop_app.Prelude.Outcomes.{Outcome, ok, err, panic, unwrap, ◌>>=◌}
use drop_app.Prelude.Texts.{join_path}
use drop_app.Prelude.Paths.{parent}
use drop_app.Database.Models.{
  DatabaseApplications, GameDownloadStatus, remote, setup_required, installed, partially_installed,
}
use drop_app.Remote.Error.{RemoteAccessError, fetch_error, manifest_download_failed}
use drop_app.Remote.Requests.{UrlLibrary, HttpRequest, generate_url, make_authenticated_get}
use drop_app.Manager.Signals.{ApplicationDownloadError, communication}
use drop_app.Manager.Frontend.{DownloadManager, queue_download}
use drop_app.Downloads.Manifest.{DropManifest}
use drop_app.Downloads.DropData.{DropData}
use drop_app.Downloads.Agent.{GameDownloadAgent}
use drop_app.Downloads.Agent.Space.{new}

-- The agents there are, which the manager's signals name by their position, and the manager.
pub record DownloadState : Type 0 where
  pub agents : List GameDownloadAgent
  pub manager : DownloadManager

-- A reply to the request for a manifest: its status, its text, and what its JSON reads as.
pub data ManifestReply : Type 0 where
  no_reply : String → ManifestReply
  reply : ℕ → Option String → Outcome String DropManifest → ManifestReply

abbrev pub communication_error {ℓ} :
    {A : Type ℓ} → Outcome RemoteAccessError A → Outcome ApplicationDownloadError A
communication_error (ok a) = ok a
communication_error (err e) = err (communication e)
communication_error panic = panic

-- A text that cannot be read is a panic.
abbrev refused_manifest : ℕ → Option String → Outcome RemoteAccessError DropManifest
refused_manifest status none = panic
refused_manifest status (some body) = err (manifest_download_failed status body)

abbrev json_manifest : Outcome String DropManifest → Outcome RemoteAccessError DropManifest
json_manifest (ok m) = ok m
json_manifest (err e) = err (fetch_error e)
json_manifest panic = panic

abbrev pub read_manifest : ManifestReply → Outcome RemoteAccessError DropManifest
read_manifest (no_reply e) = err (fetch_error e)
read_manifest (reply status body manifest) =
    if status == 200 then json_manifest manifest else refused_manifest status body

-- The request, and its reply by the server.
unfoldable pub download_manifest :
    {Url : Type 0}
    → UrlLibrary Url
    → String
    → Outcome RemoteAccessError String
    → (HttpRequest Url → ManifestReply)
    → String
    → String
    → Outcome ApplicationDownloadError DropManifest
download_manifest library base_url header server id version = communication_error (
    make_authenticated_get
      (generate_url library base_url ("/api/v1/client/game/manifest" ∷ [])
        (("id", id) ∷ ("version", version) ∷ []))
      header
    >>= λ sent. read_manifest (server sent))

-- The version and the directory of a partial install; any other status is a panic.
abbrev pub partial_install : GameDownloadStatus → Outcome ApplicationDownloadError (String × String)
partial_install remote = panic
partial_install (setup_required v dir) = panic
partial_install (installed v dir) = panic
partial_install (partially_installed v dir) = ok (v, dir)

abbrev pub enqueue : GameDownloadAgent → DownloadState → DownloadState
enqueue agent s = record s {
  agents = s.agents ++ agent ∷ [];
  manager = queue_download (length s.agents) s.manager;
}

-- `disk` is the drop data in a directory, if it can be read, `manifest` what the server gives for a
-- game and a version, and `available` the space of the disk of a directory.
module _ (disk : String → Option DropData)
    (manifest : String → String → Outcome ApplicationDownloadError DropManifest)
    (available : String → Outcome ApplicationDownloadError ℕ) where
  -- `GameDownloadAgent::new` with its directory.
  abbrev pub new_in : String → String → String → Outcome ApplicationDownloadError GameDownloadAgent
  new_in id version base_dir =
      let dir = join_path base_dir id in
      new (disk dir) id version dir (manifest id version) (available dir)

  unfoldable pub new_from_index :
      String
      → String
      → ℕ
      → DatabaseApplications
      → Outcome ApplicationDownloadError GameDownloadAgent
  new_from_index id version target_download_dir applications = do
    base_dir ← unwrap (get_elem? applications.install_dirs target_download_dir)
    new_in id version base_dir

  unfoldable pub download_game :
      String
      → String
      → ℕ
      → DatabaseApplications
      → DownloadState
      → Outcome ApplicationDownloadError DownloadState
  download_game game_id game_version install_dir applications s = do
    agent ← new_from_index game_id game_version install_dir applications
    ok (enqueue agent s)

  unfoldable pub resume_download :
      String → DatabaseApplications → DownloadState → Outcome ApplicationDownloadError DownloadState
  resume_download game_id applications s = do
    status ← unwrap (get game_id applications.game_statuses)
    (version_name, install_dir) ← partial_install status
    parent_dir ← unwrap (parent install_dir)
    agent ← new_in game_id version_name parent_dir
    ok (enqueue agent s)

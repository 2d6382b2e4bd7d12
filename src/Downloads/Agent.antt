-- ===== src/Downloads/Agent.antt =====
-- src-tauri/games/src/downloads/download_agent.rs: the agent of one game's download. An agent is a
-- record that each operation returns anew, beside what it shares with the rest of the program.
pub mod Space
pub mod Run
pub mod Validate
pub mod Hooks
pub mod Disk
use drop_app.Prelude.{
  ℕ, Bool, true, false, String, Option, none, some, List, [], ◌∷◌, ◌++◌, Map, map, insert, length,
  sum_by, if◌then◌else◌, is_some,
}
use drop_app.Prelude.Outcomes.{Outcome, ok, err, panic, ◌>>=◌, ok_or, unwrap}
use drop_app.Database.Metadata.{DownloadableMetadata, game, metadata_key}
use drop_app.Database.Models.{ApplicationTransientStatus, downloading}
use drop_app.Manager.Flag
use drop_app.Manager.Flag.{DownloadThreadControl}
use drop_app.Manager.Progress
use drop_app.Manager.Progress.{ProgressObject}
use drop_app.Manager.Signals.{
  ApplicationDownloadError, not_initialized, io_error, DownloadManagerSignal, DownloadStatus,
}
use drop_app.Games.Library.{Client, push_game_update}
use drop_app.Downloads.Manifest.{DropManifest, DownloadDrop, DownloadBucket}
use drop_app.Downloads.DropData.{DropData, set_contexts, states}
use drop_app.Downloads.Buckets.{plan_buckets, is_empty}

pub record GameDownloadAgent : Type 0 where
  pub id : String
  pub version : String
  pub control_flag : DownloadThreadControl
  pub buckets : List DownloadBucket
  pub context_map : Map String Bool
  pub manifest : Option DropManifest
  pub progress : ProgressObject
  pub dropdata : DropData
  pub status : DownloadStatus

-- What an agent works on beside itself: the database and the interface, the file of its DropData, and
-- the signals it has sent to the manager.
pub record Env : Type 0 where
  pub client : Client
  pub file : Option DropData
  pub sent : List DownloadManagerSignal

unfoldable pub metadata : GameDownloadAgent → DownloadableMetadata
metadata a = record { id = a.id; version = some a.version; download_type = game }

-- `transient_statuses.insert(self.metadata(), status)`
abbrev pub set_transient : DownloadableMetadata → ApplicationTransientStatus → Client → Client
set_transient meta status c = record c {
  db = record c.db { transient_statuses = insert meta status c.db.transient_statuses };
}

-- The transient status is stored, and the interface told.
unfoldable pub announce : GameDownloadAgent → ApplicationTransientStatus → Client → Option Client
announce a status c =
    push_game_update a.id none (none, some status) (set_transient (metadata a) status c)

-- The checksums of all planned drops, in order.
abbrev pub checksums_of : List DownloadDrop → List String
checksums_of = map (λ d. d.checksum)

unfoldable pub all_checksums : List DownloadBucket → List String
all_checksums [] = []
all_checksums (b ∷ bs) = checksums_of b.drops ++ all_checksums bs

abbrev pub chunk_count : List DownloadBucket → ℕ
chunk_count = sum_by (λ b. length b.drops)

abbrev pub total_length : List DownloadBucket → ℕ
total_length = sum_by (λ b. sum_by (λ d. d.size) b.drops)

unfoldable pub setup_progress : GameDownloadAgent → GameDownloadAgent
setup_progress a = record a {
  progress = Progress.reset (
      Progress.set_size (chunk_count a.buckets)
        (Progress.set_max (total_length a.buckets) a.progress));
}

abbrev pub Place : Type 0
Place = String → Outcome ApplicationDownloadError String

-- The buckets planned, with what was known of their chunks.
abbrev pub with_buckets : GameDownloadAgent → List DownloadBucket → GameDownloadAgent
with_buckets a buckets = record a {
  buckets = buckets;
  dropdata = set_contexts (states a.dropdata.contexts (all_checksums buckets)) a.dropdata;
}

-- `base` is the creation of the base directory, `locate` that of each file in it.
unfoldable pub generate_buckets :
    Outcome ApplicationDownloadError (Unit {0})
    → Place
    → GameDownloadAgent
    → Outcome ApplicationDownloadError GameDownloadAgent
generate_buckets base locate a = do
  manifest ← ok_or a.manifest not_initialized
  created ← base
  buckets ← plan_buckets a.id locate manifest
  ok (with_buckets a buckets)

abbrev pub load_contexts : GameDownloadAgent → GameDownloadAgent
load_contexts a = record a { context_map = a.dropdata.contexts }

unfoldable pub ensure_buckets :
    Outcome ApplicationDownloadError (Unit {0})
    → Place
    → GameDownloadAgent
    → Outcome ApplicationDownloadError GameDownloadAgent
ensure_buckets base locate a = do
  planned ← if is_empty a.buckets then generate_buckets base locate a else ok a
  ok (load_contexts planned)

abbrev pub check_manifest_exists : GameDownloadAgent → Bool
check_manifest_exists a = is_some a.manifest

abbrev pub let_go : GameDownloadAgent → GameDownloadAgent
let_go a = record a { control_flag = Flag.set_flag Flag.go a.control_flag }

-- The status is announced before the manifest is looked for.
unfoldable pub setup_download :
    Outcome ApplicationDownloadError (Unit {0})
    → Place
    → GameDownloadAgent
    → Client
    → Outcome ApplicationDownloadError GameDownloadAgent × Option Client
setup_download base locate a c = (
  (if check_manifest_exists a
      then ensure_buckets base locate a >>= (λ planned. ok (let_go planned))
      else err not_initialized),
  announce a (downloading a.version) c,
)

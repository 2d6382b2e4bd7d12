-- ===== src/Tests/Downloads.antt =====
-- A game of one file and two chunks: its plan, its space and its run.
use mathlib.Core.Logic.{◌↔◌}
use drop_app.Prelude.{
  ℕ, zero, suc, ◌≡◌, refl, true, ◌&&◌, ◌||◌, String, string_key, none, some, List, [], ◌∷◌,
  contains, sum_by, All, arith,
}
use drop_app.Prelude.Outcomes.{Outcome, ok}
use drop_app.Database.Models.{DatabaseApplications}
use drop_app.Manager.Signals.{ApplicationDownloadError, lock}
use drop_app.Games.Library.{Client}
use drop_app.Downloads.Manifest.{DropChunk, DropManifest, DownloadDrop, DownloadBucket}
use drop_app.Downloads.DropData.{is_done}
use drop_app.Downloads.Buckets.{empty_plan, add_chunks, plan_buckets, finish}
use drop_app.Downloads.Buckets.Reference.{add_all, tag, manifest_drops}
use drop_app.Downloads.Buckets.Conserve.{bucket_weight, tagged_weight, plan_buckets_weight}
use drop_app.Downloads.Buckets.Bounds.{IsFit, plan_buckets-IsFit}
use drop_app.Downloads.Buckets.Layout.{LaidOut, add_chunks-LaidOut, plan_buckets_total}
use drop_app.Downloads.Agent.{GameDownloadAgent, Env, all_checksums}
use drop_app.Downloads.Agent.Space.{new, new_agent, new_any_space}
use drop_app.Downloads.Agent.Run.{Attempt, finished, failed, run_task, finish_run}
use drop_app.Downloads.Agent.Run.Attempts.{Decides, end_of, run_task_decided}
use drop_app.Downloads.Agent.Run.Resume.{finish_run_lem}

abbrev file_chunks : DropChunk
file_chunks = record {
  permissions = 420;
  ids = "i" ∷ "j" ∷ [];
  checksums = "aa" ∷ "bb" ∷ [];
  lengths = 10 ∷ 20 ∷ [];
  version_name = "v1";
}

abbrev manifest_one : DropManifest
manifest_one = ("data.bin", file_chunks) ∷ []

abbrev place : String → Outcome ApplicationDownloadError String
place raw_path = ok raw_path

abbrev planned_one : List DownloadBucket
planned_one = finish (add_all "g" (manifest_drops place manifest_one) empty_plan)

plan_returns : plan_buckets "g" place manifest_one ≡ ok planned_one
plan_returns = plan_buckets_total "g" place manifest_one ((("data.bin", refl), omega arith, tt))

abbrev bytes_of : String → DownloadDrop → ℕ
bytes_of version d = d.size

plan_buckets_weight_example :
    sum_by (bucket_weight bytes_of) planned_one
    ≡ tagged_weight bytes_of (manifest_drops place manifest_one)
plan_buckets_weight_example =
    plan_buckets_weight bytes_of "g" place manifest_one planned_one plan_returns

plan_buckets-IsFit_example : All IsFit planned_one
plan_buckets-IsFit_example = plan_buckets-IsFit "g" place manifest_one planned_one plan_returns

add_chunks-LaidOut_example :
    (ds : List DownloadDrop) × (add_chunks {E = ApplicationDownloadError} "g" "data.bin"
        "/g/data.bin" file_chunks
        (10 ∷ 20 ∷ [])
        0
        0
        empty_plan
      ≡ ok (add_all "g" (tag "v1" ds) empty_plan))
    × LaidOut file_chunks (10 ∷ 20 ∷ []) 0 0 ds
add_chunks-LaidOut_example =
    add_chunks-LaidOut "g" "data.bin" "/g/data.bin" file_chunks empty_plan (omega arith)
      (omega arith)

new_any_space_example :
    new none "g" "v1" "/games" (ok manifest_one) (ok 5)
    ≡ ok (record (new_agent none "g" "v1" "/games") { manifest = some manifest_one })
new_any_space_example = new_any_space "g" "v1" "/games" manifest_one 5 (omega arith, tt)

abbrev pub drop_one : DownloadDrop
drop_one = record {
  index = 0;
  filename = "data.bin";
  path = "/games/data.bin";
  start = 0;
  size = 10;
  checksum = "aa";
  permissions = 420;
}

abbrev pub bucket_one : DownloadBucket
bucket_one = record {
  game_id = "g";
  version = "v1";
  drops = drop_one ∷ record drop_one { index = 1; start = 10; size = 20; checksum = "bb" } ∷ [];
}

abbrev pub no_games : DatabaseApplications
no_games = record {
  install_dirs = [];
  game_statuses = [];
  game_versions = [];
  installed_game_version = [];
  transient_statuses = [];
}

abbrev pub client_one : Client
client_one = record { db = no_games; events = [] }

abbrev pub env_one : Env
env_one = record { client = client_one; file = none; sent = [] }

-- The first chunk was fetched before.
abbrev pub agent_one : GameDownloadAgent
agent_one = record (new_agent none "g" "v1" "/games") {
  buckets = bucket_one ∷ [];
  context_map = ("aa", true) ∷ [];
}

finish_run_lem_example :
    let (complete, a', env') = finish_run true ("bb" ∷ []) agent_one env_one in
    let planned = all_checksums (bucket_one ∷ []) in
    ((x : String)
      → is_done a'.dropdata.contexts x
        ≡ (contains planned x && (contains ("bb" ∷ []) x || is_done (("aa", true) ∷ []) x)))
    × (complete ≡ true ↔ (
        (x : String)
        → contains planned x ≡ true
        → (contains ("bb" ∷ []) x || is_done (("aa", true) ∷ []) x) ≡ true))
    × (env'.file ≡ some a'.dropdata)
finish_run_lem_example = finish_run_lem true ("bb" ∷ []) agent_one env_one

-- The first attempt fails in a way that is retried, the second succeeds.
abbrev flaky : ℕ → Attempt
flaky zero = failed lock
flaky (suc k) = finished

run_task_decided_example : (k : ℕ) × Decides flaky k × (run_task flaky ≡ end_of (flaky k))
run_task_decided_example = run_task_decided flaky

-- ===== src/Downloads/Agent/Validate.antt =====
-- `validate` of src-tauri/games/src/downloads/download_agent.rs: every chunk is read back by a task of
-- its own. What becomes of the tasks is a table: for each chunk the result of `validate_game_chunk`.
pub mod Marks
use drop_app.Prelude.{
  ℕ, zero, suc, ◌+◌, Bool, true, false, String, Option, none, some, List, [], ◌∷◌, ◌++◌,
}
use drop_app.Database.Models.{validating}
use drop_app.Manager.Flag
use drop_app.Manager.Progress
use drop_app.Manager.Progress.{ProgressObject}
use drop_app.Manager.Signals.{ApplicationDownloadError, DownloadManagerSignal, error}
use drop_app.Games.Library.{Client}
use drop_app.Downloads.Manifest.{DownloadBucket, DropValidateContext, validate_contexts}
use drop_app.Downloads.DropData.{DropData, set_context, write}
use drop_app.Downloads.Agent.{GameDownloadAgent, Env, setup_progress, announce, let_go}

-- One call of `validate_game_chunk`.
pub data Verdict : Type 0 where
  valid : Verdict
  invalid : Verdict
  failed : ApplicationDownloadError → Verdict

unfoldable pub all_contexts : List DownloadBucket → List DropValidateContext
all_contexts [] = []
all_contexts (b ∷ bs) = validate_contexts b ++ all_contexts bs

-- The checksums of the chunks that are not valid, from the `i`th on.
unfoldable pub invalid_chunks : (ℕ → Verdict) → ℕ → List DropValidateContext → List String
invalid_chunks verdict i [] = []
invalid_chunks verdict i (c ∷ cs) =
    let rest = invalid_chunks verdict (suc i) cs in
    elim (verdict i) [ valid ↦ rest | invalid ↦ c.checksum ∷ rest | failed e ↦ rest ]

unfoldable pub verdict_errors :
    (ℕ → Verdict) → ℕ → List DropValidateContext → List DownloadManagerSignal
verdict_errors verdict i [] = []
verdict_errors verdict i (c ∷ cs) =
    let rest = verdict_errors verdict (suc i) cs in
    elim (verdict i) [ valid ↦ rest | invalid ↦ rest | failed e ↦ error e ∷ rest ]

-- Each task takes the counter of its chunk: out of range that panics.
unfoldable pub has_counters : ℕ → List DropValidateContext → ProgressObject → Option (Unit {0})
has_counters i [] p = some tt
has_counters i (c ∷ cs) p =
    let rest = has_counters (suc i) cs p in
    elim (Progress.handle i p) [ none ↦ none | some handle ↦ rest ]

unfoldable pub mark_invalid : List String → DropData → DropData
mark_invalid [] d = d
mark_invalid (x ∷ xs) d = mark_invalid xs (set_context x false d)

unfoldable pub setup_validate : GameDownloadAgent → Client → GameDownloadAgent × Option Client
setup_validate a c = (let_go (setup_progress a), announce a (validating a.version) c)

abbrev pub record_invalid :
    Bool → List String → GameDownloadAgent → Env → Bool × GameDownloadAgent × Env
record_invalid written [] a env = (true, a, env)
record_invalid written (x ∷ xs) a env =
    let data_of = mark_invalid (x ∷ xs) a.dropdata in
    (false, record a { dropdata = data_of }, record env { file = write written data_of env.file })

-- `validate` once it is set up. None is a panic.
unfoldable pub validate :
    (ℕ → Verdict) → Bool → GameDownloadAgent → Env → Option (Bool × GameDownloadAgent × Env)
validate verdict written a env =
    let contexts = all_contexts a.buckets in
    elim (has_counters 0 contexts a.progress) [
      | none ↦ none
      | some counters ↦ some (
          record_invalid written (invalid_chunks verdict 0 contexts) a
            (record env { sent = env.sent ++ verdict_errors verdict 0 contexts }))
    ]

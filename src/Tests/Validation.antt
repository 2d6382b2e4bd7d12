-- ===== src/Tests/Validation.antt =====
-- Reading a chunk back, and what the agent does about it.
use text.Mathlib.Text.{◌==◌ as str_eq}
use drop_app.Prelude.{
  ℕ, zero, suc, ◌≤◌, ◌≡◌, Bool, true, String, none, some, List, [], ◌∷◌, length, take, drop, arith,
}
use drop_app.Manager.Flag.{go}
use drop_app.Manager.Signals.{io_error}
use drop_app.Downloads.Manifest.{DropValidateContext}
use drop_app.Downloads.Agent.{GameDownloadAgent, Env}
use drop_app.Downloads.Agent.Validate.{Verdict, valid, invalid, failed, setup_validate, validate}
use drop_app.Downloads.Agent.Validate.Marks.{Marked, all_drops, validate_lem}
use drop_app.Downloads.Validate.{Turn, answer, validate_copy, validate_game_chunk}
use drop_app.Downloads.Validate.Copy.{validate_copy-short}
use drop_app.Downloads.Validate.Chunk.{validate_game_chunk-valid, validate_game_chunk-judged}
use drop_app.Tests.Downloads.{agent_one, bucket_one, env_one}

abbrev chunk_two : DropValidateContext
chunk_two = record { index = 0; offset = 1; path = "/g/data.bin"; checksum = "ok"; size = 2 }

-- A digest that knows one chunk.
abbrev digest : List ℕ → String
digest bytes = "ok"

abbrev file_bytes : List ℕ
file_bytes = 7 ∷ 8 ∷ 9 ∷ []

abbrev three_reads : List Turn
three_reads = (go, some 1) ∷ (go, some 1) ∷ (go, some 1) ∷ []

judged_valid :
    validate_game_chunk digest (some file_bytes) chunk_two go three_reads ≡ some (answer true)
judged_valid =
    validate_game_chunk-judged digest file_bytes chunk_two three_reads (omega arith) (omega arith)
      (omega arith, (omega arith, (omega arith, tt)))

validate_game_chunk-valid_example :
    (bytes : List ℕ) × (some file_bytes ≡ some bytes)
    × (2 ≤ length (drop 1 bytes))
    × (str_eq (digest (take 2 (drop 1 bytes))) "ok" ≡ true)
validate_game_chunk-valid_example =
    validate_game_chunk-valid digest (some file_bytes) chunk_two go three_reads judged_valid

validate_copy-short_example : validate_copy 5 0 file_bytes [] 0 three_reads ≡ none
validate_copy-short_example =
    validate_copy-short 5 file_bytes three_reads (omega arith)
      (omega arith, (omega arith, (omega arith, tt)))

abbrev verdicts : ℕ → Verdict
verdicts zero = valid
verdicts (suc i) = invalid

validate_lem_example :
    let ready = (setup_validate agent_one env_one.client).0 in
    (r : Bool × GameDownloadAgent × Env) × (validate verdicts true ready env_one ≡ some r)
    × Marked verdicts true (all_drops (bucket_one ∷ [])) agent_one env_one r
validate_lem_example = validate_lem verdicts true agent_one env_one

abbrev unreadable : ℕ → Verdict
unreadable i = failed (io_error "gone")

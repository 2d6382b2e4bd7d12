-- ===== src/Tests/Pipeline.antt =====
-- Two drops cut out of one stream.
use drop_app.Prelude.{
  ℕ, ◌≡◌, refl, String, Option, none, true, some, List, [], ◌∷◌, length, arith, All, Map, get,
  insert, string_key, ◌==◌, if◌then◌else◌,
}
use drop_app.Manager.Flag.{DownloadThreadControlFlag, go}
use drop_app.Downloads.Manifest.{DownloadDrop}
use drop_app.Downloads.Validate.{Turn}
use drop_app.Downloads.Pipeline.{
  Write, copied, copy, copy_drop, streamed, answer, download_game_bucket, check_lengths,
}
use drop_app.Downloads.Pipeline.Files.{write_files, write_at}
use drop_app.Downloads.Pipeline.Stored.{Judged, download-validate}
use drop_app.Downloads.Pipeline.Writes.{slices}
use drop_app.Tests.Downloads.{drop_one}

abbrev two_and_one : List DownloadDrop
two_and_one = record drop_one { size = 2 } ∷ record drop_one { start = 2; size = 1 } ∷ []

abbrev stream : List ℕ
stream = 7 ∷ 8 ∷ 9 ∷ []

abbrev reads : List (List Turn × DownloadThreadControlFlag)
reads = ((go, some 1) ∷ (go, some 5) ∷ [], go) ∷ ((go, some 5) ∷ [], go) ∷ []

abbrev written : List Write
written =
    (record drop_one { size = 2 }, 7 ∷ 8 ∷ [])
    ∷ (record drop_one { start = 2; size = 1 }, 9 ∷ [])
    ∷ []

copy_runs : copy two_and_one stream reads ≡ some (copied written)
unfolding copy copy_drop
copy_runs = refl

abbrev closing_one : Option String
closing_one = none

bucket_runs :
    download_game_bucket go (streamed (2 ∷ 1 ∷ []) stream) two_and_one reads closing_one
    ≡ some (answer true)
unfolding download_game_bucket check_lengths copy copy_drop
bucket_runs = refl

-- A digest that tells only how many bytes there are.
abbrev digest : List ℕ → String
digest bytes = if length bytes == 2 then "ok" else "short"

-- The file held a byte before.
abbrev files_before : Map String (List ℕ)
files_before = (drop_one.path, 1 ∷ []) ∷ []

abbrev four_turns : List Turn
four_turns = (go, some 1) ∷ (go, some 1) ∷ (go, some 1) ∷ (go, some 1) ∷ []

download-validate_example :
    (copy two_and_one stream reads ≡ some (copied (slices two_and_one stream)))
    × All
        (λ w.
          Judged digest (write_files (slices two_and_one stream) files_before) four_turns w.0 w.1)
        (slices two_and_one stream)
download-validate_example =
    download-validate digest go (2 ∷ 1 ∷ []) stream two_and_one reads closing_one files_before
      four_turns bucket_runs ((refl, tt), (tt, tt)) (omega arith)
      (omega arith, (omega arith, (omega arith, (omega arith, tt))))

both_drops :
    get drop_one.path (write_files (slices two_and_one stream) files_before) ≡ some (7 ∷ 8 ∷ 9 ∷ [])
unfolding write_files slices write_at get insert
both_drops = refl

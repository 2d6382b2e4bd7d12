-- ===== src/Downloads/Pipeline.antt =====
-- src-tauri/games/src/downloads/download_logic.rs, `DropDownloadPipeline::copy` and
-- `download_game_bucket`: the answer of the server is one stream of bytes, which is cut up into the
-- drops of a bucket and written to their files. What each turn of a loop finds, the flag and the
-- answer of the read, is an argument.
pub mod Writes
pub mod Bucket
pub mod Files
pub mod Stored
use drop_app.Prelude.{
  ℕ, ◌+◌, ◌-◌, ◌*◌, min, String, Bool, true, false, ◌&&◌, Option, none, some, List, [], ◌∷◌, ◌++◌,
  length, take, drop, ltb, ◌==◌, if◌then◌else◌,
}
use drop_app.Remote.Error.{invalid_response}
use drop_app.Manager.Signals.{ApplicationDownloadError, download_error, io_error}
use drop_app.Manager.Flag.{DownloadThreadControlFlag, stop, go}
use drop_app.Manager.Thread.{is_stop}
use drop_app.Downloads.Manifest.{DownloadDrop}
use drop_app.Downloads.Validate.{Turn}

abbrev pub max_packet_length : ℕ
max_packet_length = 4096 * 4

abbrev pub bump_size : ℕ
bump_size = 4096 * 16

-- `finished`: the bytes written, and the rest of the source.
pub data DropEnd : Type 0 where
  stopped : DropEnd
  io_failed : DropEnd
  finished : List ℕ → List ℕ → DropEnd

abbrev pub after_bump : ℕ → ℕ
after_bump last_bump = if ltb bump_size last_bump then last_bump - bump_size else last_bump

-- The loop over one drop; `none`: it is still running after these turns.
unfoldable pub copy_drop : ℕ → ℕ → List ℕ → List ℕ → List Turn → Option DropEnd
copy_drop remaining last_bump source out [] = none
copy_drop remaining last_bump source out ((flag, none) ∷ ts) = some io_failed
copy_drop remaining last_bump source out ((flag, some n) ∷ ts) =
    let m = min (min max_packet_length remaining) n in
    let bytes = take m source in
    let left = remaining - length bytes in
    let bumped = last_bump + length bytes in
    let rest = copy_drop left (after_bump bumped) (drop m source) (out ++ bytes) ts in
    if ltb bump_size bumped && is_stop flag
    then some stopped
    else if left == 0
    then some (finished (out ++ bytes) (drop m source))
    else rest

-- A drop with the bytes that are written from its start on.
abbrev pub Write : Type 0
Write = DownloadDrop × List ℕ

pub data PipelineEnd : Type 0 where
  stopped : PipelineEnd
  io_failed : PipelineEnd
  copied : List Write → PipelineEnd

abbrev pub with_write : Write → Option PipelineEnd → Option PipelineEnd
with_write w none = none
with_write w (some stopped) = some stopped
with_write w (some io_failed) = some io_failed
with_write w (some (copied ws)) = some (copied (w ∷ ws))

-- The outer loop: for each drop the turns of its loop, and the flag as it is read after it.
unfoldable pub copy :
    List DownloadDrop → List ℕ → List (List Turn × DownloadThreadControlFlag) → Option PipelineEnd
copy [] source plan = some (copied [])
copy (d ∷ ds) source [] = none
copy (d ∷ ds) source ((ts, flag) ∷ plan) = elim (copy_drop d.size 0 source [] ts) [
  | none ↦ none
  | some stopped ↦ some PipelineEnd.stopped
  | some io_failed ↦ some PipelineEnd.io_failed
  | some (finished bytes rest) ↦
      if is_stop flag then some PipelineEnd.stopped else with_write (d, bytes) (copy ds rest plan)
]

-- The lengths that the server announces, against the drops asked for. A server may announce fewer.
unfoldable pub check_lengths : List ℕ → List DownloadDrop → Bool
check_lengths [] ds = true
check_lengths (announced ∷ lengths) [] = false
check_lengths (announced ∷ lengths) (d ∷ ds) = (d.size == announced) && check_lengths lengths ds

-- What the request for a bucket comes to: an error, or the announced lengths and the stream.
pub data Response : Type 0 where
  refused : ApplicationDownloadError → Response
  streamed : List ℕ → List ℕ → Response

pub data BucketEnd : Type 0 where
  answer : Bool → BucketEnd
  error : ApplicationDownloadError → BucketEnd

abbrev pub bad_lengths : ApplicationDownloadError
bad_lengths =
    download_error
      (invalid_response (record { status_code = 400; status_message = "Content-Lengths" }))

-- `closing` is the error, if any, of setting the permissions and of flushing the files. The checksums
-- are compared after that, and nothing follows from the comparison.
abbrev pub close_files : Option String → Option PipelineEnd → Option BucketEnd
close_files closing none = none
close_files closing (some stopped) = some (answer false)
close_files closing (some io_failed) = some (error (io_error "copy"))
close_files none (some (copied ws)) = some (answer true)
close_files (some e) (some (copied ws)) = some (error (io_error e))

unfoldable pub download_game_bucket :
    DownloadThreadControlFlag
    → Response
    → List DownloadDrop
    → List (List Turn × DownloadThreadControlFlag)
    → Option String
    → Option BucketEnd
download_game_bucket stop response drops plan closing = some (answer false)
download_game_bucket go (refused e) drops plan closing = some (error e)
download_game_bucket go (streamed lengths source) drops plan closing =
    if check_lengths lengths drops
    then close_files closing (copy drops source plan)
    else some (error bad_lengths)

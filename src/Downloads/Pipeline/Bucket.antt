-- ===== src/Downloads/Pipeline/Bucket.antt =====
-- src-tauri/games/src/downloads/download_logic.rs, `download_game_bucket`: when a bucket counts as
-- fetched.
use drop_app.Prelude.{
  ℕ, ◌≤◌, ◌≡◌, refl, ◌∙◌, ap, true, String, Option, none, some, List, length, sum_by, arith,
  Bool-cases, inl, inr,
}
use drop_app.Manager.Flag.{DownloadThreadControlFlag, stop, go}
use drop_app.Downloads.Manifest.{DownloadDrop}
use drop_app.Downloads.Validate.{Turn}
use drop_app.Downloads.Pipeline.{
  Write, PipelineEnd, copied, copy, check_lengths, Response, refused, streamed, answer, close_files,
  download_game_bucket,
}
use drop_app.Downloads.Pipeline.Writes.{slices, copy-slices}

close_files-true :
    (closing : Option String) (o : Option PipelineEnd)
    → close_files closing o ≡ some (answer true)
    → (ws : List Write) × (o ≡ some (copied ws)) × (closing ≡ none)
close_files-true closing none h = cc
close_files-true closing (some PipelineEnd.stopped) h = cc
close_files-true closing (some PipelineEnd.io_failed) h = cc
close_files-true none (some (copied ws)) h = (ws, refl, refl)
close_files-true (some e) (some (copied ws)) h = cc

-- A bucket counts as fetched only if the flag said `Go`, the announced lengths were the drops' as far
-- as they went, the files could be closed, and each drop's bytes were written from the stream, in the
-- order of the drops, which held them all.
pub download_game_bucket-true :
    (flag : DownloadThreadControlFlag) (response : Response) (ds : List DownloadDrop)
    (plan : List (List Turn × DownloadThreadControlFlag)) (closing : Option String)
    → download_game_bucket flag response ds plan closing ≡ some (answer true)
    → (lengths : List ℕ) × (source : List ℕ) × (flag ≡ go)
      × (response ≡ streamed lengths source)
      × (check_lengths lengths ds ≡ true)
      × (closing ≡ none)
      × (copy ds source plan ≡ some (copied (slices ds source)))
      × (sum_by (λ d. d.size) ds ≤ length source)
unfolding download_game_bucket
download_game_bucket-true stop response ds plan closing h = cc
download_game_bucket-true go (refused e) ds plan closing h = cc
download_game_bucket-true go (streamed lengths source) ds plan closing h =
    elim (Bool-cases (check_lengths lengths ds)) [
      | inl fits ↦
          let (ws, run, closed) = close_files-true closing (copy ds source plan) (rw fits at h) in
          let cut = copy-slices ds source plan ws run in
          (lengths, source, refl, refl, fits, closed, run ∙ ap (λ x. some (copied x)) cut.0, cut.1)
      | inr wrong ↦ ground (arith, h, wrong)
    ]

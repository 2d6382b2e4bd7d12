-- ===== src/Downloads/Validate/Chunk.antt =====
-- src-tauri/games/src/downloads/validate.rs, `validate_game_chunk`: when a chunk is said to be valid.
use text.Mathlib.Text.{◌==◌ as str_eq}
use drop_app.Prelude.{
  ℕ, ◌≤◌, ◌<◌, ◌≡◌, refl, ap, subst, String, true, Option, none, some, List, length, take, drop,
}
use drop_app.Manager.Flag.{DownloadThreadControlFlag, stop, go}
use drop_app.Downloads.Manifest.{DropValidateContext}
use drop_app.Downloads.Validate.{
  Turn, CopyEnd, stopped, io_failed, copied, answer, conclude, validate_game_chunk,
}
use drop_app.Downloads.Validate.Copy.{Reads, validate_copy-copied, validate_copy-ends}

conclude_valid :
    (digest : List ℕ → String) (checksum : String) (o : Option CopyEnd)
    → conclude digest checksum o ≡ some (answer true)
    → (w : List ℕ) × (p : ℕ) × (o ≡ some (copied w p)) × (str_eq (digest w) checksum ≡ true)
conclude_valid digest checksum none h = cc
conclude_valid digest checksum (some (stopped p)) h = cc
conclude_valid digest checksum (some io_failed) h = cc
conclude_valid digest checksum (some (copied w p)) h = (w, p, refl, cc)

-- A chunk that is said to be valid is there: its file opens and holds all of it, and the digest of the
-- chunk's bytes is its checksum.
pub validate_game_chunk-valid :
    (digest : List ℕ → String) (file : Option (List ℕ)) (ctx : DropValidateContext)
    (flag : DownloadThreadControlFlag) (ts : List Turn)
    → validate_game_chunk digest file ctx flag ts ≡ some (answer true)
    → (bytes : List ℕ) × (file ≡ some bytes)
      × (ctx.size ≤ length (drop ctx.offset bytes))
      × (str_eq (digest (take ctx.size (drop ctx.offset bytes))) ctx.checksum ≡ true)
unfolding validate_game_chunk
validate_game_chunk-valid digest file ctx stop ts h = cc
validate_game_chunk-valid digest none ctx go ts h = cc
validate_game_chunk-valid digest (some bytes) ctx go ts h =
    let (w, p, run, matches) = conclude_valid digest ctx.checksum _ h in
    let (hashed, fits, counted) =
      validate_copy-copied ctx.size (drop ctx.offset bytes) ts w p run in
    (bytes, refl, fits, subst (λ r. str_eq (digest r) ctx.checksum ≡ true) hashed matches)

-- A chunk whose file holds all of it is judged by its digest, when it is neither stopped nor a read
-- fails and the turns are more than its bytes.
pub validate_game_chunk-judged :
    (digest : List ℕ → String) (bytes : List ℕ) (ctx : DropValidateContext) (ts : List Turn)
    → ctx.size ≤ length (drop ctx.offset bytes)
    → ctx.size < length ts
    → Reads ts
    → validate_game_chunk digest (some bytes) ctx go ts
      ≡ some (answer (str_eq (digest (take ctx.size (drop ctx.offset bytes))) ctx.checksum))
unfolding validate_game_chunk
validate_game_chunk-judged digest bytes ctx ts h g r =
    ap (conclude digest ctx.checksum) (validate_copy-ends ctx.size (drop ctx.offset bytes) ts h g r)

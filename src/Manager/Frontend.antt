-- ===== src/Manager/Frontend.antt =====
-- src-tauri/download_manager/src/download_manager_frontend.rs: what the rest of the program may do
-- to the manager: send a signal, or rearrange the queue, which it does without one.
pub mod Rearrange
use drop_app.Prelude.{
  ℕ, zero, suc, Bool, true, false, ◌||◌, Option, none, some, List, [], ◌∷◌, ◌++◌, ◌==◌,
  if◌then◌else◌, Key, get_elem?,
}
use drop_app.Prelude.Panics.{◌>>=◌}
use drop_app.Database.Metadata.{DownloadableMetadata, metadata_key}
use drop_app.Manager.Signals.{
  DownloadManagerSignal, go, stop, queue, finish, cancel, update_ui_queue,
}
use drop_app.Manager.Queue.{remove_at, get_by_meta}

-- The queue is shared with the manager; the sender is the other end of its channel.
pub record DownloadManager : Type 0 where
  pub download_queue : List DownloadableMetadata
  pub sent : List DownloadManagerSignal

abbrev pub send : DownloadManagerSignal → DownloadManager → DownloadManager
send s m = record m { sent = m.sent ++ s ∷ [] }

unfoldable pub queue_download : ℕ → DownloadManager → DownloadManager
queue_download i m = send go (send (queue i) m)

unfoldable pub cancel_download : DownloadableMetadata → DownloadManager → DownloadManager
cancel_download meta m = send (cancel meta) m

unfoldable pub pause_downloads : DownloadManager → DownloadManager
pause_downloads m = send stop m

unfoldable pub resume_downloads : DownloadManager → DownloadManager
resume_downloads m = send go m

-- What is sent; the joining of the manager's thread is in Commands.Lifecycle.
unfoldable pub ensure_terminated : DownloadManager → DownloadManager
ensure_terminated m = send finish m

-- `VecDeque::insert`, which panics beyond the end
unfoldable pub insert_at {ℓ} : {K : Type ℓ} → ℕ → K → List K → Option (List K)
insert_at zero k ks = some (k ∷ ks)
insert_at (suc i) k [] = none
insert_at (suc i) k (j ∷ js) = insert_at i k js >>= λ r. some (j ∷ r)

unfoldable pub move_to {ℓ} : {K : Type ℓ} → ℕ → ℕ → List K → Option (List K)
move_to current_index new_index ks = do
  to_move ← get_elem? ks current_index
  insert_at new_index to_move (remove_at current_index ks)

unfoldable pub rearrange_string :
    DownloadableMetadata → ℕ → DownloadManager → Option DownloadManager
rearrange_string meta new_index m = do
  current_index ← get_by_meta meta m.download_queue
  moved ← move_to current_index new_index m.download_queue
  some (send update_ui_queue (record m { download_queue = moved }))

abbrev pub send_if : Bool → DownloadManagerSignal → DownloadManager → DownloadManager
send_if b s m = if b then send s m else m

unfoldable pub rearrange : ℕ → ℕ → DownloadManager → Option DownloadManager
rearrange current_index new_index m =
    let needs_pause = (current_index == 0) || (new_index == 0) in
    if current_index == new_index
    then some m
    else (move_to current_index new_index m.download_queue >>= λ moved. some (
        send go (
          send update_ui_queue (
            send_if needs_pause go
              (record (send_if needs_pause stop m) { download_queue = moved })))))

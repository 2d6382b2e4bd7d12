-- ===== src/Manager/Thread.antt =====
-- src-tauri/download_manager/src/download_manager_builder.rs, the closure that `manage_go_signal`
-- spawns: the download and its validation, over and over until the validation finds nothing wrong.
-- What the agent answers in each round is an argument, with the flag read between the calls.
use drop_app.Prelude.{
  ◌≡◌, refl, ◌∙◌, Bool, true, false, not, ◌&&◌, Option, none, some, List, [], ◌∷◌, ◌++◌, arith,
  if◌then◌else◌, inl, inr, ◌↔◌, Option-cases, ap,
}
use drop_app.Database.Metadata.{DownloadableMetadata}
use drop_app.Manager.Flag.{DownloadThreadControlFlag, stop, go}
use drop_app.Manager.Signals.{
  DownloadManagerSignal, ApplicationDownloadError, completed, error, update_ui_queue,
}

pub data Answer : Type 0 where
  ok : Bool → Answer
  err : ApplicationDownloadError → Answer

pub record Round : Type 0 where
  pub download_result : Answer
  pub flag_after_download : DownloadThreadControlFlag
  pub validate_result : Answer
  pub flag_after_validate : DownloadThreadControlFlag

-- The hooks of the agent that the thread calls, and the signals that it sends, in their order.
pub data Act : Type 0 where
  call_on_error : ApplicationDownloadError → Act
  call_on_complete : Act
  send : DownloadManagerSignal → Act

abbrev pub is_stop : DownloadThreadControlFlag → Bool
is_stop stop = true
is_stop go = false

abbrev pub failed : ApplicationDownloadError → List Act
failed e = call_on_error e ∷ send (error e) ∷ []

abbrev pub finished : DownloadableMetadata → List Act
finished meta = call_on_complete ∷ send (completed meta) ∷ send update_ui_queue ∷ []

-- `none`: the next round follows.
abbrev pub after_validate :
    DownloadableMetadata → Answer → DownloadThreadControlFlag → Option (List Act)
after_validate meta (err e) f = some (failed e)
after_validate meta (ok valid) f =
    if is_stop f then some [] else (if valid then some (finished meta) else none)

unfoldable pub run_round : DownloadableMetadata → Round → Option (List Act)
run_round meta r = elim r.download_result [
  | err e ↦ some (failed e)
  | ok false ↦ some []
  | ok true ↦
      if is_stop r.flag_after_download
      then some []
      else after_validate meta r.validate_result r.flag_after_validate
]

-- `none`: the thread is still at it after these rounds.
unfoldable pub run_thread : DownloadableMetadata → List Round → Option (List Act)
run_thread meta [] = none
run_thread meta (r ∷ rs) =
    let rest = run_thread meta rs in elim (run_round meta r) [ none ↦ rest | some acts ↦ some acts ]

-- A round that ends the thread with the download complete.
abbrev pub succeeds : Round → Bool
succeeds r = elim r.download_result [
  | ok true ↦
      not (is_stop r.flag_after_download)
      && not (is_stop r.flag_after_validate)
      && elim r.validate_result [ ok b ↦ b | err e ↦ false ]
  | _ ↦ false
]

-- A round that lets the next follow: the download ran through and its validation found a fault.
abbrev pub repeats : Round → Bool
repeats r = elim r.download_result [
  | ok true ↦
      not (is_stop r.flag_after_download)
      && not (is_stop r.flag_after_validate)
      && elim r.validate_result [ ok b ↦ not b | err e ↦ false ]
  | _ ↦ false
]

run_round_success :
    (meta : DownloadableMetadata) (r : Round)
    → succeeds r ≡ true
    → run_round meta r ≡ some (finished meta)
unfolding run_round
run_round_success meta r h = ground arith

run_round_repeat :
    (meta : DownloadableMetadata) (r : Round) → repeats r ≡ true → run_round meta r ≡ none
unfolding run_round
run_round_repeat meta r h = ground arith

abbrev pub all_repeat : List Round → Bool
all_repeat [] = true
all_repeat (r ∷ rs) = repeats r && all_repeat rs

run_round_only :
    (meta : DownloadableMetadata) (r : Round)
    → run_round meta r ≡ some (finished meta)
    → succeeds r ≡ true
unfolding run_round
run_round_only meta r h = ground arith

run_round-none :
    (meta : DownloadableMetadata) (r : Round) → run_round meta r ≡ none → repeats r ≡ true
unfolding run_round
run_round-none meta r h = ground arith

-- Rounds that find a fault again and again, and then one in which all goes well.
abbrev pub EndsWell : List Round → Type 0
EndsWell rs =
    (before : List Round) × (r : Round) × (later : List Round) × (rs ≡ before ++ r ∷ later)
    × (all_repeat before ≡ true)
    × (succeeds r ≡ true)

completes :
    (meta : DownloadableMetadata) (before : List Round) (r : Round) (later : List Round)
    → all_repeat before ≡ true
    → succeeds r ≡ true
    → run_thread meta (before ++ r ∷ later) ≡ some (finished meta)
unfolding run_thread
completes meta [] r later h g = rw (run_thread, run_round_success meta r g)
completes meta (b ∷ before) r later h g = rw (
  run_thread,
  run_round_repeat meta b (ground arith),
  completes meta before r later (ground arith) g,
)

only_if :
    (meta : DownloadableMetadata) (rs : List Round)
    → run_thread meta rs ≡ some (finished meta)
    → EndsWell rs
unfolding run_thread
only_if meta [] h = cc
only_if meta (r ∷ rs) h = elim (Option-cases (run_round meta r)) [
  | inl again ↦
      let (before, q, later, split, repeated, well) =
        only_if meta rs (rw (run_thread, again) at h) in
      (r ∷ before, q, later, rw split, rw (run_round-none meta r again, repeated), well)
  | inr (acts, over) ↦
      let ends : run_round meta r ≡ some (finished meta) = over ∙ (rw (run_thread, over) at h) in
      ([], r, rs, refl, refl, run_round_only meta r ends)
]

-- The thread tells the manager that the download is complete exactly when some round downloads and
-- validates without a fault, an error or a stop, and every round before it downloaded without an error
-- or a stop and was found faulty.
pub run_thread_lem :
    (meta : DownloadableMetadata) (rs : List Round)
    → (run_thread meta rs ≡ some (finished meta)) ↔ EndsWell rs
run_thread_lem meta rs = (
  only_if meta rs,
  λ (before, r, later, split, repeated, well).
      ap (run_thread meta) split ∙ completes meta before r later repeated well,
)

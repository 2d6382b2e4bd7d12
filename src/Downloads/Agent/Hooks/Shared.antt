-- ===== src/Downloads/Agent/Hooks/Shared.antt =====
-- src-tauri/games/src/downloads/download_agent.rs, `impl Downloadable`: the agent of a game as the
-- manager sees it.
use drop_app.Prelude.{◌≡◌, refl, Bool, none, some, some-injective, ap, sym, ◌∙◌}
use drop_app.Prelude.Panics.{>>=-eq-some}
use drop_app.Database.Models.{queued}
use drop_app.Manager.Flag
use drop_app.Manager.Flag.{DownloadThreadControlFlag, get_flag, get_flag-set_flag}
use drop_app.Manager.Progress
use drop_app.Manager.Signals.{DownloadStatus}
use drop_app.Manager.Downloadable.{Downloadable}
use drop_app.Games.Library
use drop_app.Games.Library.{emit, push_game_update}
use drop_app.Games.State.{fetch_state}
use drop_app.Downloads.Agent.{GameDownloadAgent, Env, metadata, announce}
use drop_app.Downloads.Agent.Hooks.{
  on_queued, on_error, on_cancelled, set_status, with_client, forget_transient,
}

abbrev pub set_control_flag : DownloadThreadControlFlag → GameDownloadAgent → GameDownloadAgent
set_control_flag f a = record a { control_flag = Flag.set_flag f a.control_flag }

pub metadata-set_control_flag :
    (f : DownloadThreadControlFlag) (a : GameDownloadAgent)
    → metadata (set_control_flag f a) ≡ metadata a
unfolding metadata
metadata-set_control_flag f a = refl

pub metadata-set_status :
    (s : DownloadStatus) (a : GameDownloadAgent) → metadata (set_status s a) ≡ metadata a
unfolding metadata
metadata-set_status s a = refl

pub on_queued-agent :
    (a : GameDownloadAgent) (e : Env) (a' : GameDownloadAgent) (e' : Env)
    → on_queued a e ≡ some (a', e')
    → set_status DownloadStatus.queued a ≡ a'
unfolding on_queued
on_queued-agent a e a' e' h =
    let (env, called, done) =
      >>=-eq-some (with_client e (announce a (queued a.version) e.client)) _ h in
    ap (λ p. p.0) (some-injective done)

pub on_error-agent :
    (a : GameDownloadAgent) (e : Env) (a' : GameDownloadAgent) (e' : Env)
    → on_error a e ≡ some (a', e')
    → set_status DownloadStatus.failed a ≡ a'
unfolding on_error
on_error-agent a e a' e' h =
    let forgotten = forget_transient a (emit Library.download_error e.client) in
    let (env, called, done) =
      >>=-eq-some
        (with_client e (push_game_update a.id none (fetch_state a.id forgotten.db) forgotten)) _
        h in
    ap (λ p. p.0) (some-injective done)

-- Whether the agent's file is written when it is cancelled is an argument.
unfoldable pub game_agent : Bool → Downloadable GameDownloadAgent Env
game_agent written = record {
  metadata = metadata;
  status = λ a. a.status;
  progress_sum = λ a. Progress.sum a.progress;
  progress_max = λ a. Progress.get_max a.progress;
  control_flag = λ a. get_flag a.control_flag;
  set_control_flag = set_control_flag;
  on_queued = on_queued;
  on_error = on_error;
  on_cancelled = on_cancelled written;
  get_control_flag = λ f a. get_flag-set_flag f a.control_flag;
  metadata-set_control_flag = metadata-set_control_flag;
  status-set_control_flag = λ f a. refl;
  metadata-on_queued = λ a e a' e' h.
      ap metadata (sym (on_queued-agent a e a' e' h)) ∙ metadata-set_status DownloadStatus.queued a;
  status-on_queued = λ a e a' e' h. ap (λ x. x.status) (sym (on_queued-agent a e a' e' h));
  metadata-on_error = λ a e a' e' h.
      ap metadata (sym (on_error-agent a e a' e' h)) ∙ metadata-set_status DownloadStatus.failed a;
}

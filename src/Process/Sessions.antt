-- ===== src/Process/Sessions.antt =====
-- Launching a game, and what follows: a second launch, a kill, the end of the process.
use drop_app.Prelude.{
  String, ◌≡◌, refl, sym, ap, ◌∙◌, false, not, ◌||◌, ℕ, [], ◌∷◌, ◌++◌, Option, none, some, get,
  insert, string_key, arith, get-insert, get-insert_self, get-remove_self, leb,
}
use drop_app.Prelude.Outcomes.{Outcome, ok, err, panic, ok-injective, >>=-eq-ok, ok_or}
use drop_app.Database.Metadata.{DownloadableMetadata, metadata_key}
use drop_app.Database.Models.{GameVersion, running}
use drop_app.Games.State.{fetch_state, unversioned, merge_states}
use drop_app.Games.Library.{Client, push_game_update, emit, update_game}
use drop_app.Games.Library.Transitions.{same-unversioned, SameElsewhere, metadata_eq_other}
use drop_app.Process.{ProcessError, already_running, not_installed, io_error}
use drop_app.Process.Manager.{ProcessManager, RunningProcess}
use drop_app.Process.Launch.{
  DropFormatArgs, System, Command, launch_process, start_process, prepare, playable, game_meta,
  mark_running, add_process, map_err,
}
use drop_app.Process.Finish.{
  WaitResult, on_process_finish, looks_failed, elapsed_secs, succeeded, installed_version_data,
}
use drop_app.Process.Ends.{
  Consistent, finished_status, state_after, finish_error, finish_events, on_process_finish_lem,
}

map_err-ok :
    {A : Type 0} (f : String → ProcessError) (o : Outcome String A) (a : A)
    → map_err f o ≡ ok a
    → o ≡ ok a
map_err-ok f (ok b) a h = ground arith
map_err-ok f (err e) a h = cc
map_err-ok f panic a h = cc

ok_or-ok : {A : Type 0} (o : Option A) (e : ProcessError) (a : A) → ok_or o e ≡ ok a → o ≡ some a
ok_or-ok (some b) e a h = ground arith
ok_or-ok none e a h = cc

fetch_state-mark_running :
    (id v : String) (c : Client)
    → fetch_state id (mark_running (game_meta id v) c).db ≡ (none, some running)
unfolding fetch_state
fetch_state-mark_running id v c = ground (
  arith,
  get-insert (game_meta id v) (unversioned id) running c.db.transient_statuses,
  same-unversioned (game_meta id v) refl,
)

mark_running-elsewhere :
    (id v : String) (c : Client) → SameElsewhere id c (mark_running (game_meta id v) c)
unfolding fetch_state
mark_running-elsewhere id v c other h = ground (
  arith,
  get-insert (game_meta id v) (unversioned other) running c.db.transient_statuses,
  metadata_eq_other (game_meta id v) other h,
)

module _ {Child : Type 0} (format : String → DropFormatArgs → Outcome String String)
    (sys : System Child) where
  launch_process-starts :
      (id : String) (before : Client) (m : ProcessManager Child) (c : Client)
      (r : ProcessManager Child × Client)
      → launch_process format sys id before (m, c) ≡ ok r
      → (get id m.processes ≡ none) × (start_process format sys id before m c ≡ ok r)
  unfolding launch_process
  launch_process-starts id before m c r h = ground arith

  -- Everything that a launch without an error has done.
  launch_process-effect :
      (id : String) (before : Client) (m : ProcessManager Child) (c : Client)
      (r : ProcessManager Child × Client)
      → launch_process format sys id before (m, c) ≡ ok r
      → (v : String) × (dir : String) × (command : Command) × (child : Child) × (playable
            (get id before.db.game_statuses)
          ≡ some (v, dir))
        × (prepare format sys m c (game_meta id v) v ≡ ok command)
        × (sys.spawn command ≡ ok child)
        × (r.0 ≡ add_process format sys id child m)
        × (r.1 ≡ emit (update_game id (none, some running) none) (mark_running (game_meta id v) c))
  unfolding start_process push_game_update
  launch_process-effect id before m c r h =
      let found = playable (get id before.db.game_statuses) in
      let (first, readable, e₁) =
        >>=-eq-ok (ok_or found not_installed) _ (launch_process-starts id before m c r h).1 in
      let meta = game_meta id first.0 in
      let (command, prepared, e₂) = >>=-eq-ok (prepare format sys m c meta first.0) _ e₁ in
      let (child, spawned, e₃) = >>=-eq-ok (map_err io_error (sys.spawn command)) _ e₂ in
      let ended = sym (ok-injective e₃) in
      (
        first.0,
        first.1,
        command,
        child,
        ok_or-ok found not_installed first readable,
        prepared,
        map_err-ok io_error (sys.spawn command) child spawned,
        ap (λ x. x.0) ended,
        ap (λ x. x.1) ended,
      )

  -- A launch that returns without an error was of a game that had no process, that was playable when
  -- the database was read first, and whose command was prepared and spawned. Afterwards the child is
  -- the game's process, not killed, and no other process has changed; the game shows as running, which
  -- is all that the interface was told; the stored statuses and what other games show are as before.
  pub launch_process_lem :
      (id : String) (before : Client) (m : ProcessManager Child) (c : Client)
      (m' : ProcessManager Child) (c' : Client)
      → launch_process format sys id before (m, c) ≡ ok (m', c')
      → (v : String) × (dir : String) × (command : Command) × (child : Child) × (get id m.processes
          ≡ none)
        × (playable (get id before.db.game_statuses) ≡ some (v, dir))
        × (prepare format sys m c (game_meta id v) v ≡ ok command)
        × (sys.spawn command ≡ ok child)
        × (m'.processes
            ≡ insert id
                (record { handle = child; start = sys.now; manually_killed = false })
                m.processes)
        × (fetch_state id c'.db ≡ (none, some running))
        × (c'.db.game_statuses ≡ c.db.game_statuses)
        × (c'.events ≡ c.events ++ update_game id (none, some running) none ∷ [])
        × SameElsewhere id c c'
  unfolding emit
  launch_process_lem id before m c m' c' h =
      let (absent, _) = launch_process-starts id before m c (m', c') h in
      let (v, dir, command, child, readable, prepared, spawned, managed, launched) =
        launch_process-effect id before m c (m', c') h in
      (
        v,
        dir,
        command,
        child,
        absent,
        readable,
        prepared,
        spawned,
        ap (λ x. x.processes) managed,
        rw launched (fetch_state-mark_running id v c),
        rw launched refl,
        rw launched refl,
        rw launched (mark_running-elsewhere id v c),
      )

  -- A game that has just been launched is not launched again, whatever has become of the database.
  pub launch_process_twice :
      (other_system : System Child) (id : String) (before later : Client) (m : ProcessManager Child)
      (c : Client) (m' : ProcessManager Child) (c' c'' : Client)
      → launch_process format sys id before (m, c) ≡ ok (m', c')
      → launch_process format other_system id later (m', c'') ≡ err already_running
  unfolding launch_process
  launch_process_twice other_system id before later m c m' c' c'' h =
      let (_, _, _, child, _, _, _, managed, _) = launch_process-effect id before m c (m', c') h in
      rw managed (
        rw
          (get-insert_self id (record { handle = child; start = sys.now; manually_killed = false })
            m.processes)
          refl)

  launch_process-Consistent :
      (id : String) (before : Client) (m : ProcessManager Child) (c : Client)
      (m' : ProcessManager Child) (c' : Client) (meta : DownloadableMetadata) (g : GameVersion)
      → launch_process format sys id before (m, c) ≡ ok (m', c')
      → Consistent id meta g c
      → Consistent id meta g c'
  unfolding emit installed_version_data
  launch_process-Consistent id before m c m' c' meta g h (i, t, known, entry) =
      let (_, _, _, _, _, _, _, _, launched) = launch_process-effect id before m c (m', c') h in
      (i, t, rw launched known, rw launched entry)

  -- From the launch of a game, in a database that is consistent for it, to the end of its process: the
  -- interface is told first that it runs and then, unless it ended at once or without success, of its
  -- state, which is the stored one, a setup that succeeded having made the game installed. That is
  -- what the program shows in any case; a failed launch is an error of which the interface is not told.
  pub launch_then_finish :
      (id : String) (before : Client) (m : ProcessManager Child) (c : Client)
      (m' : ProcessManager Child) (c' : Client) (meta : DownloadableMetadata) (g : GameVersion)
      (result : WaitResult) (end : ℕ)
      → launch_process format sys id before (m, c) ≡ ok (m', c')
      → Consistent id meta g c
      → let failed = leb (elapsed_secs sys.now end) 2 || not (succeeded result) in
        let status = state_after id result c in
        (m'' : ProcessManager Child) × (c'' : Client) × (on_process_finish id result end (m', c')
          ≡ some (finish_error failed id, m'', c''))
        × (get id m''.processes ≡ none)
        × (fetch_state id c''.db ≡ merge_states none status)
        × (c''.events
            ≡ (c.events ++ update_game id (none, some running) none ∷ [])
              ++ finish_events failed id status g)
        × SameElsewhere id c c''
  launch_then_finish id before m c m' c' meta g result end h k =
      let (_, _, _, child, _, _, _, _, processes, _, statuses, events, elsewhere) =
        launch_process_lem id before m c m' c' h in
      let p : RunningProcess Child = record {
        handle = child;
        start = sys.now;
        manually_killed = false;
      } in
      let here = ap (get id) processes ∙ get-insert_self id p m.processes in
      let success = succeeded result in
      let status = ap (λ x. finished_status (get id x) success) statuses in
      let failed = looks_failed p end result in
      let (m'', c'', ended, removed, shown, told, others) =
        on_process_finish_lem id result end m' c' p meta g here
          (launch_process-Consistent id before m c m' c' meta g h k) in
      (
        m'',
        c'',
        ended,
        ap (get id) removed ∙ get-remove_self id m'.processes,
        shown ∙ ap (merge_states none) status,
        told
            ∙ ap (λ x. x ++ finish_events failed id (state_after id result c') g) events
            ∙ ap
                (λ x.
                  (c.events ++ update_game id (none, some running) none ∷ [])
                  ++ finish_events failed id x g)
                status,
        λ other away. others other away ∙ elsewhere other away,
      )

-- ===== src/Downloads/Agent/Run/Resume.antt =====
-- What a run fetches, what it records, and when it says that the download is complete.
use text.Mathlib.TextEquality.{eq_iff}
use drop_app.Prelude.{
  ◌≡◌, refl, ◌↔◌, inl, inr, Bool, true, ◌&&◌, ◌||◌, String, some, List, [], ◌∷◌, Map, insert,
  string_key, arith, contains, get-nil, get-insert, if◌then◌else◌, Bool-cases,
}
use drop_app.Downloads.DropData.{set_contexts, states, is_done, write, collect, get-collect}
use drop_app.Downloads.Agent.{GameDownloadAgent, Env, all_checksums}
use drop_app.Downloads.Agent.Run.{mark_done, all_done, finish_run}

is_done-mark_done :
    (xs : List String) (m : Map String Bool) (x : String)
    → is_done (mark_done xs m) x ≡ (contains xs x || is_done m x)
unfolding mark_done contains is_done
is_done-mark_done [] m x = refl
is_done-mark_done (y ∷ xs) m x =
    ground (arith, is_done-mark_done xs (insert y true m) x, get-insert y x true m)

is_done-collect :
    (m : Map String Bool) (xs : List String) (x : String)
    → is_done (collect [] (states m xs)) x ≡ (contains xs x && is_done m x)
unfolding is_done
is_done-collect m xs x = ground (arith, get-collect m [] xs x, get-nil {V = Bool} x)

all_done-states :
    (m : Map String Bool) (xs : List String)
    → all_done (states m xs) ≡ true ↔ ((x : String) → contains xs x ≡ true → is_done m x ≡ true)
unfolding all_done states contains
all_done-states m [] = (λ h x k. cc, λ h. refl)
all_done-states m (y ∷ xs) =
    let (forth, back) = all_done-states m xs in
    (
      λ h x k. elim (Bool-cases (string_key.eq y x)) [
        | inl same ↦ rw (← (eq_iff y x).0 same) (ground arith)
        | inr other ↦ forth (ground arith) x (ground arith)
      ],
      λ h.
          ground
            (arith, h y (ground (arith, string_key.eq-refl y)), back (λ x k. h x (ground arith))),
    )

-- After the tasks, a planned chunk is recorded as done exactly if it was done before or was fetched
-- now, and no other chunk is recorded; the run reports completion exactly if that covers every planned
-- chunk. If the write succeeds, the file holds that record.
pub finish_run_lem :
    (written : Bool) (newly : List String) (a : GameDownloadAgent) (env : Env)
    → let (complete, a', env') = finish_run written newly a env in
      let planned = all_checksums a.buckets in
      ((x : String)
        → is_done a'.dropdata.contexts x
          ≡ (contains planned x && (contains newly x || is_done a.context_map x)))
      × (complete ≡ true ↔ (
          (x : String)
          → contains planned x ≡ true
          → (contains newly x || is_done a.context_map x) ≡ true))
      × (env'.file ≡ (if written then some a'.dropdata else env.file))
unfolding finish_run set_contexts write
finish_run_lem written newly a env =
    let planned = all_checksums a.buckets in
    let now = mark_done newly a.context_map in
    let (forth, back) = all_done-states now planned in
    (
      λ x. ground (arith, is_done-collect now planned x, is_done-mark_done newly a.context_map x),
      (
        λ h x k. ground (arith, forth h x k, is_done-mark_done newly a.context_map x),
        λ h. back (λ x k. ground (arith, h x k, is_done-mark_done newly a.context_map x)),
      ),
      ground arith,
    )

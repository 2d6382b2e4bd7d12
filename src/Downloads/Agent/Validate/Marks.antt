-- ===== src/Downloads/Agent/Validate/Marks.antt =====
-- What a validation makes of the record of done chunks.
use drop_app.Prelude.{
  ℕ, suc, ◌+◌, ◌≤◌, ◌≡◌, refl, ◌≢◌, Bool, true, false, not, ◌&&◌, String, some, List, [], ◌∷◌, ◌++◌,
  string_key, arith, contains, get-insert, same, map, ◌||◌, sym, ap, ◌∙◌, subst, if◌then◌else◌,
  length, length-append, length-map, insert,
}
use drop_app.Manager.Progress.{ProgressObject}
use drop_app.Downloads.Manifest.{
  DownloadBucket, DownloadDrop, DropValidateContext, to_context, validate_contexts,
}
use drop_app.Downloads.Buckets.{is_empty}
use drop_app.Downloads.DropData.{DropData, is_done, set_context, write}
use drop_app.Downloads.Agent.{GameDownloadAgent, Env, setup_progress, chunk_count}
use drop_app.Downloads.Agent.Validate.{
  Verdict, valid, invalid, failed, all_contexts, invalid_chunks, verdict_errors, has_counters,
  mark_invalid, record_invalid, setup_validate, validate,
}
use drop_app.Downloads.Agent.Run.Tasks.{slots, handle_lem, slots-setup_progress}

is_done-mark_invalid :
    (xs : List String) (d : DropData) (x : String)
    → is_done (mark_invalid xs d).contexts x ≡ (not (contains xs x) && is_done d.contexts x)
unfolding mark_invalid set_context is_done contains
is_done-mark_invalid [] d x = refl
is_done-mark_invalid (y ∷ xs) d x = ground (
  arith,
  is_done-mark_invalid xs (record d { contexts = insert y false d.contexts }) x,
  get-insert y x false d.contexts,
)

-- The drops of all buckets, in their order.
abbrev pub all_drops : List DownloadBucket → List DownloadDrop
all_drops [] = []
all_drops (b ∷ bs) = b.drops ++ all_drops bs

abbrev pub is_invalid : Verdict → Bool
is_invalid valid = false
is_invalid invalid = true
is_invalid (failed e) = false

-- Whether some drop from the `i`th on is judged invalid, and whether one with this checksum is.
abbrev pub any_invalid : (ℕ → Verdict) → ℕ → List DownloadDrop → Bool
any_invalid verdict i [] = false
any_invalid verdict i (d ∷ ds) = is_invalid (verdict i) || any_invalid verdict (suc i) ds

abbrev pub found_invalid : (ℕ → Verdict) → ℕ → List DownloadDrop → String → Bool
found_invalid verdict i [] x = false
found_invalid verdict i (d ∷ ds) x =
    (is_invalid (verdict i) && same d.checksum x) || found_invalid verdict (suc i) ds x

-- What a validation is to leave of the record of done chunks.
abbrev pub Marked :
    (ℕ → Verdict)
    → Bool
    → List DownloadDrop
    → GameDownloadAgent
    → Env
    → Bool × GameDownloadAgent × Env
    → Type 0
Marked verdict written drops a env (complete, a', env') =
    (complete ≡ not (any_invalid verdict 0 drops))
    × ((x : String)
        → is_done a'.dropdata.contexts x
          ≡ (not (found_invalid verdict 0 drops x) && is_done a.dropdata.contexts x))
    × (env'.file ≡ (if written && not complete then some a'.dropdata else env.file))

contains-invalid_chunks :
    (verdict : ℕ → Verdict) (i : ℕ) (ds : List DownloadDrop) (x : String)
    → contains (invalid_chunks verdict i (map to_context ds)) x ≡ found_invalid verdict i ds x
unfolding invalid_chunks contains
contains-invalid_chunks verdict i [] x = refl
contains-invalid_chunks verdict i (d ∷ ds) x =
    ground (arith, contains-invalid_chunks verdict (suc i) ds x)

is_empty-invalid_chunks :
    (verdict : ℕ → Verdict) (i : ℕ) (ds : List DownloadDrop)
    → is_empty (invalid_chunks verdict i (map to_context ds)) ≡ not (any_invalid verdict i ds)
unfolding invalid_chunks
is_empty-invalid_chunks verdict i [] = refl
is_empty-invalid_chunks verdict i (d ∷ ds) =
    ground (arith, is_empty-invalid_chunks verdict (suc i) ds)

to_contexts-append :
    (ds es : List DownloadDrop) → map to_context (ds ++ es) ≡ map to_context ds ++ map to_context es
to_contexts-append [] es = refl
to_contexts-append (d ∷ ds) es = ap (λ r. to_context d ∷ r) (to_contexts-append ds es)

all_contexts-all_drops :
    (bs : List DownloadBucket) → all_contexts bs ≡ map to_context (all_drops bs)
unfolding all_contexts validate_contexts
all_contexts-all_drops [] = refl
all_contexts-all_drops (b ∷ bs) =
    ap (λ r. map to_context b.drops ++ r) (all_contexts-all_drops bs)
    ∙ sym (to_contexts-append b.drops (all_drops bs))

abbrev Recorded :
    Bool → List String → GameDownloadAgent → Env → Bool × GameDownloadAgent × Env → Type 0
Recorded written bad a env (complete, a', env') =
    (complete ≡ is_empty bad)
    × ((x : String)
        → is_done a'.dropdata.contexts x ≡ (not (contains bad x) && is_done a.dropdata.contexts x))
    × (env'.file ≡ (if written && not complete then some a'.dropdata else env.file))

record_invalid-Recorded :
    (written : Bool) (bad : List String) (a : GameDownloadAgent) (env : Env)
    → Recorded written bad a env (record_invalid written bad a env)
unfolding contains write
record_invalid-Recorded written [] a env = (refl, λ x. refl, ground arith)
record_invalid-Recorded written (y ∷ ys) a env =
    (refl, λ x. is_done-mark_invalid (y ∷ ys) a.dropdata x, ground arith)

Recorded-Marked :
    (verdict : ℕ → Verdict) (written : Bool) (ds : List DownloadDrop) (a : GameDownloadAgent)
    (env : Env) (r : Bool × GameDownloadAgent × Env)
    → Recorded written (invalid_chunks verdict 0 (map to_context ds)) a env r
    → Marked verdict written ds a env r
Recorded-Marked verdict written ds a env (complete, a', env') (all, marks, file) = (
  all ∙ is_empty-invalid_chunks verdict 0 ds,
  λ x.
      marks x
      ∙ ap (λ b. not b && is_done a.dropdata.contexts x) (contains-invalid_chunks verdict 0 ds x),
  file,
)

length-all_contexts : (bs : List DownloadBucket) → length (all_contexts bs) ≡ chunk_count bs
unfolding all_contexts validate_contexts
length-all_contexts [] = refl
length-all_contexts (b ∷ bs) = omega (
  arith,
  length-append (validate_contexts b) (all_contexts bs),
  length-map {B = DropValidateContext} b.drops to_context,
  length-all_contexts bs,
)

has_counters_lem :
    (i : ℕ) (cs : List DropValidateContext) (p : ProgressObject)
    → i + length cs ≤ slots p
    → has_counters i cs p ≡ some tt
unfolding has_counters
has_counters_lem i [] p h = refl
has_counters_lem i (c ∷ cs) p h =
    ground (arith, handle_lem i p (omega arith), has_counters_lem (suc i) cs p (omega arith))

-- A validation that was set up does not panic: there is a counter for each chunk. It fails exactly if
-- a chunk of some bucket is judged invalid; then the chunks judged invalid are no longer recorded as
-- done, and the others stay as they were; the file is written then and only then.
pub validate_lem :
    (verdict : ℕ → Verdict) (written : Bool) (a : GameDownloadAgent) (env : Env)
    → let ready = (setup_validate a env.client).0 in
      (r : Bool × GameDownloadAgent × Env) × (validate verdict written ready env ≡ some r)
      × Marked verdict written (all_drops a.buckets) a env r
unfolding validate setup_validate setup_progress
validate_lem verdict written a env =
    let ready = (setup_validate a env.client).0 in
    let contexts = all_contexts a.buckets in
    let bad = invalid_chunks verdict 0 contexts in
    let env' = record env { sent = env.sent ++ verdict_errors verdict 0 contexts } in
    let counted =
      has_counters_lem 0 contexts ready.progress
        (omega (arith, slots-setup_progress a, length-all_contexts a.buckets)) in
    let result = record_invalid written bad ready env' in
    let recorded : Recorded written bad a env result =
      record_invalid-Recorded written bad ready env' in
    let listed = ap (invalid_chunks verdict 0) (all_contexts-all_drops a.buckets) in
    (
      result,
      rw (counted, validate),
      Recorded-Marked verdict written (all_drops a.buckets) a env result
          (subst (λ xs. Recorded written xs a env result) listed recorded),
    )

no_invalid_chunks :
    (verdict : ℕ → Verdict) (i : ℕ) (cs : List DropValidateContext)
    → ((j : ℕ) → verdict j ≢ invalid)
    → invalid_chunks verdict i cs ≡ []
unfolding invalid_chunks
no_invalid_chunks verdict i [] h = refl
no_invalid_chunks verdict i (c ∷ cs) h = ground (arith, h i, no_invalid_chunks verdict (suc i) cs h)

-- Chunks that cannot be read count as valid: with no chunk found invalid, even if every one of them
-- failed, the validation reports completion and takes back no chunk; the errors are sent as signals.
pub validate_unreadable :
    (verdict : ℕ → Verdict) (written : Bool) (a : GameDownloadAgent) (env : Env)
    → ((j : ℕ) → verdict j ≢ invalid)
    → let ready = (setup_validate a env.client).0 in
      validate verdict written ready env
      ≡ some (
        true,
        ready,
        record env { sent = env.sent ++ verdict_errors verdict 0 (all_contexts a.buckets) },
      )
unfolding validate setup_validate setup_progress
validate_unreadable verdict written a env h =
    let ready = (setup_validate a env.client).0 in
    let contexts = all_contexts a.buckets in
    let counted =
      has_counters_lem 0 contexts ready.progress
        (omega (arith, slots-setup_progress a, length-all_contexts a.buckets)) in
    rw (counted, no_invalid_chunks verdict 0 contexts h, validate)

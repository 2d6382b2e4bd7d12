-- ===== src/Downloads/Buckets/Bounds.antt =====
-- How large the buckets get.
use drop_app.Prelude.{
  ℕ, ◌≤◌, ◌<◌, ◌≡◌, refl, ◌≢◌, ◌⊎◌, inl, inr, true, false, String, List, [], ◌∷◌, ◌++◌, Map, get,
  insert, string_key, arith, leb, length, length-append, sum_by, sum_by-append, All, All-append,
  Bool-cases, subst, sym,
}
use text.Mathlib.TextEquality.{eq_iff}
use drop_app.Prelude.Usize.{add_usize, add_usize_exact}
use drop_app.Prelude.Outcomes.{Outcome, ok, >>=-eq-ok}
use drop_app.Downloads.Manifest.{DropManifest, DownloadDrop, DownloadBucket}
use drop_app.Downloads.Buckets.{
  Plan, target_bucket_size, max_files_per_bucket, empty_plan, open_bucket, open_size, is_full,
  single, extend, add_small, add_drop, add_files, open_buckets, finish, plan_buckets,
}
use drop_app.Downloads.Buckets.Reference.{Tagged, manifest_drops, add_all, add_files_ref}

abbrev pub total_size : List DownloadDrop → ℕ
total_size = sum_by (λ d. d.size)

-- A bucket that is asked for: never empty, and either one chunk alone or a collection that stays
-- below the target size and within the limit of files.
abbrev pub IsFit : DownloadBucket → Type 0
IsFit b =
    (b.drops ≢ [])
    × ((length b.drops ≡ 1)
        ⊎ ((total_size b.drops < target_bucket_size) × (length b.drops ≤ max_files_per_bucket)))

-- An open bucket, with the size that is kept beside it.
abbrev pub IsOpen : DownloadBucket → ℕ → Type 0
IsOpen b size =
    (total_size b.drops ≡ size)
    × (size < target_bucket_size)
    × (length b.drops ≤ max_files_per_bucket)

-- The two maps have the same versions in the same order, and agree on sizes.
abbrev pub Agree : Map String DownloadBucket → Map String ℕ → Type 0
Agree [] [] = Unit
Agree [] (y ∷ n) = ⊥
Agree (x ∷ m) [] = ⊥
Agree ((v, b) ∷ m) ((u, size) ∷ n) = (v ≡ u) × IsOpen b size × Agree m n

insert-Agree :
    (v : String) (b : DownloadBucket) (size : ℕ) (m : Map String DownloadBucket) (n : Map String ℕ)
    → IsOpen b size
    → Agree m n
    → Agree (insert v b m) (insert v size n)
unfolding insert
insert-Agree v b size [] [] h k = (refl, h, tt)
insert-Agree v b size [] (y ∷ n) h k = absurd k
insert-Agree v b size (x ∷ m) [] h k = absurd k
insert-Agree v b size ((u, c) ∷ m) ((t, s) ∷ n) h k =
    ground (arith, insert-Agree v b size m n h k.2, eq_iff u v, eq_iff t v)

get-Agree :
    (game_id v : String) (m : Map String DownloadBucket) (n : Map String ℕ)
    → Agree m n
    → IsOpen (open_bucket game_id v (get v m)) (open_size (get v n))
unfolding get
get-Agree game_id v [] [] k = omega arith
get-Agree game_id v [] (y ∷ n) k = absurd k
get-Agree game_id v (x ∷ m) [] k = absurd k
get-Agree game_id v ((u, c) ∷ m) ((t, s) ∷ n) k =
    ground (arith, get-Agree game_id v m n k.2, eq_iff u v, eq_iff t v)

pub record IsBounded (p : Plan) : Type 0 where
  pub fit : All IsFit p.buckets
  pub agree : Agree p.current_buckets p.current_bucket_sizes

open-IsFit :
    (b : DownloadBucket) (size extra : ℕ) → IsOpen b size → is_full b size extra ≡ true → IsFit b
unfolding is_full
open-IsFit b size extra h e = ground arith

extend-IsOpen :
    (b : DownloadBucket) (d : DownloadDrop) (size : ℕ)
    → d.size < target_bucket_size
    → IsOpen b size
    → is_full b size d.size ≡ false
    → IsOpen (extend b d) (add_usize size d.size)
unfolding is_full
extend-IsOpen b d size small h e = ground (
  arith,
  add_usize_exact size d.size,
  sum_by-append (λ (x : DownloadDrop). x.size) b.drops (d ∷ []),
  length-append b.drops (d ∷ []),
)

single-IsOpen :
    (game_id version : String) (d : DownloadDrop)
    → d.size < target_bucket_size
    → IsOpen (single game_id version d) (add_usize 0 d.size)
single-IsOpen game_id version d h = omega (arith, add_usize_exact 0 d.size)

add_small-IsBounded :
    (game_id version : String) (d : DownloadDrop) (b : DownloadBucket) (size : ℕ) (p : Plan)
    → d.size < target_bucket_size
    → IsOpen b size
    → IsBounded p
    → IsBounded (add_small game_id version d b size p)
unfolding add_small
add_small-IsBounded game_id version d b size p small o h =
    elim (Bool-cases (is_full b size d.size)) [
      | inl full ↦ rw full (record {
        fit = All-append IsFit p.buckets (b ∷ []) h.fit (open-IsFit b size d.size o full, tt);
        agree =
            insert-Agree version (single game_id version d) (add_usize 0 d.size) _ _
              (single-IsOpen game_id version d small) h.agree;
      })
      | inr room ↦ rw room (record {
        fit = h.fit;
        agree =
            insert-Agree version (extend b d) (add_usize size d.size) _ _
              (extend-IsOpen b d size small o room) h.agree;
      })
    ]

add_drop-IsBounded :
    (game_id version : String) (d : DownloadDrop) (p : Plan)
    → IsBounded p
    → IsBounded (add_drop game_id version d p)
unfolding add_drop
add_drop-IsBounded game_id version d p h = elim (Bool-cases (leb target_bucket_size d.size)) [
  | inl large ↦ rw large (record {
    fit =
        All-append IsFit p.buckets (single game_id version d ∷ []) h.fit
          (((λ e. cc), inl refl), tt);
    agree = h.agree;
  })
  | inr small ↦ rw small (
      add_small-IsBounded game_id version d
        (open_bucket game_id version (get version p.current_buckets))
        (open_size (get version p.current_bucket_sizes)) p (ground arith)
        (get-Agree game_id version p.current_buckets p.current_bucket_sizes h.agree) h)
]

add_all-IsBounded :
    (game_id : String) (ds : List Tagged) (p : Plan)
    → IsBounded p
    → IsBounded (add_all game_id ds p)
unfolding add_all
add_all-IsBounded game_id [] p h = h
add_all-IsBounded game_id ((v, d) ∷ ds) p h =
    add_all-IsBounded game_id ds (add_drop game_id v d p) (add_drop-IsBounded game_id v d p h)

open_buckets-IsFit :
    (m : Map String DownloadBucket) (n : Map String ℕ) → Agree m n → All IsFit (open_buckets m)
unfolding open_buckets
open_buckets-IsFit [] n h = tt
open_buckets-IsFit (x ∷ m) [] h = absurd h
open_buckets-IsFit ((v, b) ∷ m) ((u, s) ∷ n) h = ground (arith, open_buckets-IsFit m n h.2)

-- Whenever planning returns, every bucket is fit to be asked for: none is empty, a chunk of the
-- target size or more has a bucket to itself, and any other bucket is below the target size and has
-- at most 255 chunks.
pub plan_buckets-IsFit :
    {E : Type 0} (game_id : String) (locate : String → Outcome E String) (m : DropManifest)
    (buckets : List DownloadBucket)
    → plan_buckets game_id locate m ≡ ok buckets
    → All IsFit buckets
unfolding plan_buckets finish
plan_buckets-IsFit {E} game_id locate m buckets e =
    let (p, planned, done) = >>=-eq-ok (add_files game_id locate m empty_plan) _ e in
    let bounded = subst IsBounded (sym (add_files_ref game_id locate m empty_plan p planned)) (
      add_all-IsBounded game_id (manifest_drops locate m) empty_plan
        (record { fit = tt; agree = tt })) in
    subst (All IsFit) (finished p buckets done) (
      All-append IsFit p.buckets (open_buckets p.current_buckets) bounded.fit
        (open_buckets-IsFit p.current_buckets p.current_bucket_sizes bounded.agree))
  where
    finished :
        (p : Plan) (bs : List DownloadBucket)
        → ◌≡◌ {A = Outcome E (List DownloadBucket)}
            (ok (p.buckets ++ open_buckets p.current_buckets))
            (ok bs)
        → p.buckets ++ open_buckets p.current_buckets ≡ bs
    finished p bs h = cc

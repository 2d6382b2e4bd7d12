-- ===== src/Downloads/Buckets/Conserve.antt =====
-- No chunk of the manifest is lost, and none is planned twice.
use drop_app.Prelude.{
  ℕ, ◌+◌, ◌≡◌, refl, String, none, some, List, [], ◌∷◌, ◌++◌, Map, get, insert, string_key, arith,
  sum_by, sum_by-append, Option, Option-cases, Bool-cases, inl, inr, ap, leb,
}
use text.Mathlib.TextEquality.{eq_iff}
use drop_app.Prelude.Outcomes.{Outcome, ok, >>=-eq-ok}
use drop_app.Downloads.Manifest.{DropManifest, DownloadDrop, DownloadBucket}
use drop_app.Downloads.Buckets.{
  Plan, target_bucket_size, empty_plan, open_bucket, open_size, is_full, single, extend, add_small,
  add_drop, add_files, open_buckets, finish, plan_buckets,
}
use drop_app.Downloads.Buckets.Reference.{Tagged, manifest_drops, add_all, add_files_ref}

-- A weight may look at a drop and at the version it is fetched with. Two collections in which every
-- weight adds up to the same hold the same drops, as often, at the same versions.
module _ (w : String → DownloadDrop → ℕ) where
  abbrev pub bucket_weight : DownloadBucket → ℕ
  bucket_weight b = sum_by (w b.version) b.drops

  abbrev pub map_weight : Map String DownloadBucket → ℕ
  map_weight = sum_by (λ (v, b). bucket_weight b)

  abbrev pub plan_weight : Plan → ℕ
  plan_weight p = sum_by bucket_weight p.buckets + map_weight p.current_buckets

  pub tagged_weight : List Tagged → ℕ
  tagged_weight [] = 0
  tagged_weight ((version, d) ∷ ds) = w version d + tagged_weight ds

  entry_weight : Option DownloadBucket → ℕ
  entry_weight none = 0
  entry_weight (some b) = bucket_weight b

  map_weight-insert :
      (v : String) (b : DownloadBucket) (m : Map String DownloadBucket)
      → map_weight (insert v b m) + entry_weight (get v m) ≡ map_weight m + bucket_weight b
  unfolding insert get entry_weight
  map_weight-insert v b [] = omega arith
  map_weight-insert v b ((u, c) ∷ m) = ground (arith, map_weight-insert v b m)

  -- Closing the open bucket of a version and opening another moves weight, and adds that of the drop.
  add_small_weight :
      (game_id version : String) (d : DownloadDrop) (b : DownloadBucket) (size : ℕ) (p : Plan)
      → b.version ≡ version
      → entry_weight (get version p.current_buckets) ≡ bucket_weight b
      → plan_weight (add_small game_id version d b size p) ≡ plan_weight p + w version d
  unfolding add_small
  add_small_weight game_id version d b size p hv hw = elim (Bool-cases (is_full b size d.size)) [
    | inl full ↦ rw full (
        omega (
          arith,
          map_weight-insert version (single game_id version d) p.current_buckets,
          sum_by-append bucket_weight p.buckets (b ∷ []),
        ))
    | inr room ↦ rw room (
        omega (
          arith,
          map_weight-insert version (extend b d) p.current_buckets,
          sum_by-append (w b.version) b.drops (d ∷ []),
          ap (λ v. w v d) hv,
        ))
  ]

-- Every open bucket stands under its version.
abbrev pub HasVersions : Map String DownloadBucket → Type 0
HasVersions [] = Unit
HasVersions ((v, b) ∷ m) = (b.version ≡ v) × HasVersions m

pub insert-HasVersions :
    (v : String) (b : DownloadBucket) (m : Map String DownloadBucket)
    → b.version ≡ v
    → HasVersions m
    → HasVersions (insert v b m)
unfolding insert
insert-HasVersions v b [] h k = (h, tt)
insert-HasVersions v b ((u, c) ∷ m) h k = ground (arith, insert-HasVersions v b m h k.1, eq_iff u v)

pub get-HasVersions :
    (v : String) (b : DownloadBucket) (m : Map String DownloadBucket)
    → HasVersions m
    → get v m ≡ some b
    → b.version ≡ v
unfolding get
get-HasVersions v b [] h k = cc
get-HasVersions v b ((u, c) ∷ m) h k = ground (arith, get-HasVersions v b m h.1, eq_iff u v)

pub open_bucket_version :
    (game_id v : String) (m : Map String DownloadBucket)
    → HasVersions m
    → (open_bucket game_id v (get v m)).version ≡ v
open_bucket_version game_id v m h = elim (Option-cases (get v m)) [
  | inl e ↦ rw e
  | inr (b, e) ↦ rw e (get-HasVersions v b m h e)
]

pub add_drop-HasVersions :
    (game_id version : String) (d : DownloadDrop) (p : Plan)
    → HasVersions p.current_buckets
    → HasVersions (add_drop game_id version d p).current_buckets
unfolding add_drop add_small
add_drop-HasVersions game_id version d p h =
    let b = open_bucket game_id version (get version p.current_buckets) in
    ground (
      arith,
      h,
      open_bucket_version game_id version p.current_buckets h,
      insert-HasVersions version (extend b d) p.current_buckets,
      insert-HasVersions version (single game_id version d) p.current_buckets,
    )

module _ (w : String → DownloadDrop → ℕ) where
  entry_weight-open_bucket :
      (game_id v : String) (o : Option DownloadBucket)
      → entry_weight w o ≡ bucket_weight w (open_bucket game_id v o)
  unfolding entry_weight
  entry_weight-open_bucket game_id v none = refl
  entry_weight-open_bucket game_id v (some b) = refl

  add_drop_weight :
      (game_id version : String) (d : DownloadDrop) (p : Plan)
      → HasVersions p.current_buckets
      → plan_weight w (add_drop game_id version d p) ≡ plan_weight w p + w version d
  unfolding add_drop
  add_drop_weight game_id version d p h = elim (Bool-cases (leb target_bucket_size d.size)) [
    | inl large ↦
        rw large
          (omega (arith, sum_by-append (bucket_weight w) p.buckets (single game_id version d ∷ [])))
    | inr small ↦ rw small (
        add_small_weight w game_id version d
          (open_bucket game_id version (get version p.current_buckets))
          (open_size (get version p.current_bucket_sizes)) p
          (open_bucket_version game_id version p.current_buckets h)
          (entry_weight-open_bucket game_id version (get version p.current_buckets)))
  ]

  add_all_weight :
      (game_id : String) (ds : List Tagged) (p : Plan)
      → HasVersions p.current_buckets
      → plan_weight w (add_all game_id ds p) ≡ plan_weight w p + tagged_weight w ds
  unfolding add_all tagged_weight
  add_all_weight game_id [] p h = omega arith
  add_all_weight game_id ((v, d) ∷ ds) p h = omega (
    arith,
    add_all_weight game_id ds (add_drop game_id v d p) (add_drop-HasVersions game_id v d p h),
    add_drop_weight game_id v d p h,
  )

  open_buckets_weight :
      (m : Map String DownloadBucket) → sum_by (bucket_weight w) (open_buckets m) ≡ map_weight w m
  unfolding open_buckets
  open_buckets_weight [] = refl
  open_buckets_weight ((v, b) ∷ m) = skip_empty b.drops refl (open_buckets_weight m)
    where
      skip_empty :
          (ds : List DownloadDrop)
          → b.drops ≡ ds
          → sum_by (bucket_weight w) (open_buckets m) ≡ map_weight w m
          → sum_by (bucket_weight w) (open_buckets ((v, b) ∷ m)) ≡ map_weight w ((v, b) ∷ m)
      skip_empty [] e ih = ground arith
      skip_empty (d ∷ ds) e ih = ground arith

  -- Whenever planning returns, the buckets hold the chunks of the manifest: however one counts drops
  -- by their fields and the version they are fetched with, the buckets and the manifest come to the
  -- same.
  pub plan_buckets_weight :
      {E : Type 0} (game_id : String) (locate : String → Outcome E String) (m : DropManifest)
      (buckets : List DownloadBucket)
      → plan_buckets game_id locate m ≡ ok buckets
      → sum_by (bucket_weight w) buckets ≡ tagged_weight w (manifest_drops locate m)
  unfolding plan_buckets finish
  plan_buckets_weight {E} game_id locate m buckets e =
      let (p, planned, done) = >>=-eq-ok (add_files game_id locate m empty_plan) _ e in
      omega (
        arith,
        ap (sum_by (bucket_weight w)) (finished p buckets done),
        sum_by-append (bucket_weight w) p.buckets (open_buckets p.current_buckets),
        open_buckets_weight p.current_buckets,
        ap (plan_weight w) (add_files_ref game_id locate m empty_plan p planned),
        add_all_weight game_id (manifest_drops locate m) empty_plan tt,
      )
    where
      finished :
          (p : Plan) (bs : List DownloadBucket)
          → ◌≡◌ {A = Outcome E (List DownloadBucket)}
              (ok (p.buckets ++ open_buckets p.current_buckets))
              (ok bs)
          → bs ≡ p.buckets ++ open_buckets p.current_buckets
      finished p bs h = cc

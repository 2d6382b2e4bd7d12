-- ===== src/Downloads/Agent/Disk.antt =====
-- src-tauri/games/src/downloads/utils.rs: the disk that a directory lies on.
use Prim.Native.String.{len}
use drop_app.Prelude.{
  String, ◌≡◌, refl, Bool, true, false, ℕ, ◌≤◌, leb, List, [], ◌∷◌, All, if◌then◌else◌, arith,
  Bool-cases, inl, inr, ◌⊎◌,
}
use drop_app.Prelude.Outcomes.{Outcome, ok, err}
use drop_app.Manager.Signals.{ApplicationDownloadError, io_error}

pub record Disk : Type 0 where
  pub mount_point : String
  pub available_space : ℕ

-- `sort_by`, stable, the longest mount point first.
unfoldable pub insert_disk : Disk → List Disk → List Disk
insert_disk d [] = d ∷ []
insert_disk d (e ∷ es) =
    if leb (len e.mount_point) (len d.mount_point) then d ∷ e ∷ es else e ∷ insert_disk d es

unfoldable pub sort_disks : List Disk → List Disk
sort_disks [] = []
sort_disks (d ∷ ds) = insert_disk d (sort_disks ds)

-- `within` is `Path::starts_with`: whether a path lies in a directory.
module _ (within : String → String → Bool) (mount_point : String) where
  unfoldable pub find_disk : List Disk → Outcome ApplicationDownloadError ℕ
  find_disk [] = err (io_error "could not find disk of path")
  find_disk (d ∷ ds) =
      let rest = find_disk ds in
      if within mount_point d.mount_point then ok d.available_space else rest

  unfoldable pub get_disk_available : List Disk → Outcome ApplicationDownloadError ℕ
  get_disk_available disks = find_disk (sort_disks disks)

  -- A disk that the directory lies on, none of which has a longer mount point among `ds`.
  abbrev pub IsLongest : List Disk → Disk → Type 0
  IsLongest ds d =
      (within mount_point d.mount_point ≡ true)
      × All (λ e. within mount_point e.mount_point ≡ true → len e.mount_point ≤ len d.mount_point)
          ds

abbrev pub IsIn : Disk → List Disk → Type 0
IsIn d [] = ⊥
IsIn d (e ∷ es) = (d ≡ e) ⊎ IsIn d es

abbrev NotBefore : Disk → List Disk → Type 0
NotBefore d = All (λ e. len e.mount_point ≤ len d.mount_point)

abbrev IsSorted : List Disk → Type 0
IsSorted [] = Unit
IsSorted (d ∷ ds) = NotBefore d ds × IsSorted ds

module _ (P : Disk → Type 0) where
  All-insert_disk : (d : Disk) (ds : List Disk) → P d → All P ds → All P (insert_disk d ds)
  unfolding insert_disk
  All-insert_disk d [] p h = (p, tt)
  All-insert_disk d (e ∷ es) p h = elim (Bool-cases (leb (len e.mount_point) (len d.mount_point))) [
    | inl longer ↦ rw longer (p, h)
    | inr shorter ↦ rw shorter (h.0, All-insert_disk d es p h.1)
  ]

  insert_disk-All : (d : Disk) (ds : List Disk) → All P (insert_disk d ds) → P d × All P ds
  unfolding insert_disk
  insert_disk-All d [] h = h
  insert_disk-All d (e ∷ es) h = elim (Bool-cases (leb (len e.mount_point) (len d.mount_point))) [
    | inl longer ↦ rw longer at h
    | inr shorter ↦
        let (q, hs) = rw shorter at h in let (p, qs) = insert_disk-All d es hs in (p, (q, qs))
  ]

  sort_disks-All : (ds : List Disk) → All P (sort_disks ds) → All P ds
  unfolding sort_disks
  sort_disks-All [] h = tt
  sort_disks-All (d ∷ ds) h =
      let (p, hs) = insert_disk-All d (sort_disks ds) h in (p, sort_disks-All ds hs)

NotBefore-trans :
    (d e : Disk) (es : List Disk)
    → len e.mount_point ≤ len d.mount_point
    → NotBefore e es
    → NotBefore d es
NotBefore-trans d e [] h hs = tt
NotBefore-trans d e (f ∷ es) h (k, hs) = (omega arith, NotBefore-trans d e es h hs)

insert_disk-IsSorted : (d : Disk) (ds : List Disk) → IsSorted ds → IsSorted (insert_disk d ds)
unfolding insert_disk
insert_disk-IsSorted d [] h = (tt, tt)
insert_disk-IsSorted d (e ∷ es) (h, hs) =
    elim (Bool-cases (leb (len e.mount_point) (len d.mount_point))) [
      | inl longer ↦
          let le : len e.mount_point ≤ len d.mount_point = ground arith in
          rw longer ((le, NotBefore-trans d e es le h), (h, hs))
      | inr shorter ↦ rw shorter (
        All-insert_disk (λ x. len x.mount_point ≤ len e.mount_point) d es (ground arith) h,
        insert_disk-IsSorted d es hs,
      )
    ]

sort_disks-IsSorted : (ds : List Disk) → IsSorted (sort_disks ds)
unfolding sort_disks
sort_disks-IsSorted [] = tt
sort_disks-IsSorted (d ∷ ds) = insert_disk-IsSorted d (sort_disks ds) (sort_disks-IsSorted ds)

insert_disk-IsIn : (x d : Disk) (ds : List Disk) → IsIn x (insert_disk d ds) → IsIn x (d ∷ ds)
unfolding insert_disk
insert_disk-IsIn x d [] h = h
insert_disk-IsIn x d (e ∷ es) h = elim (Bool-cases (leb (len e.mount_point) (len d.mount_point))) [
  | inl longer ↦ rw longer at h
  | inr shorter ↦ past x d e es (insert_disk-IsIn x d es) (rw shorter at h)
]
  where
    past :
        (x d e : Disk) (es : List Disk)
        → (IsIn x (insert_disk d es) → IsIn x (d ∷ es))
        → IsIn x (e ∷ insert_disk d es)
        → IsIn x (d ∷ e ∷ es)
    past x d e es back (inl same) = inr (inl same)
    past x d e es back (inr later) = elim (back later) [
      | inl same ↦ inl same
      | inr there ↦ inr (inr there)
    ]

sort_disks-IsIn : (x : Disk) (ds : List Disk) → IsIn x (sort_disks ds) → IsIn x ds
unfolding sort_disks
sort_disks-IsIn x [] h = h
sort_disks-IsIn x (d ∷ ds) h = elim (insert_disk-IsIn x d (sort_disks ds) h) [
  | inl same ↦ inl same
  | inr there ↦ inr (sort_disks-IsIn x ds there)
]

module _ (within : String → String → Bool) (mount_point : String) where
  abbrev Answers : List Disk → List Disk → Type 0
  Answers ds all =
      ((d : Disk) × IsIn d all
        × (find_disk within mount_point ds ≡ ok d.available_space)
        × IsLongest within mount_point all d)
      ⊎ ((find_disk within mount_point ds ≡ err (io_error "could not find disk of path"))
          × All (λ e. within mount_point e.mount_point ≡ false) all)

  NotBefore-All :
      (d : Disk) (ds : List Disk)
      → NotBefore d ds
      → All
          (λ e. within mount_point e.mount_point ≡ true → len e.mount_point ≤ len d.mount_point)
          ds
  NotBefore-All d [] h = tt
  NotBefore-All d (e ∷ es) (h, hs) = (λ _. h, NotBefore-All d es hs)

  find_disk_lem : (ds : List Disk) → IsSorted ds → Answers ds ds
  unfolding find_disk
  find_disk_lem [] h = inr (refl, tt)
  find_disk_lem (d ∷ ds) (h, hs) = elim (Bool-cases (within mount_point d.mount_point)) [
    | inl here ↦ inl (d, inl refl, rw here refl, (here, (λ _. omega arith, NotBefore-All d ds h)))
    | inr outside ↦ elim (find_disk_lem ds hs) [
      | inl (e, there, found, (longest, others)) ↦
          inl (e, inr there, rw outside found, (longest, (λ w. ground arith, others)))
      | inr (missing, others) ↦ inr (rw outside missing, (outside, others))
    ]
  ]

  -- The space is that of a disk on which the directory lies, the one with the longest mount point of
  -- these. If it lies on none of the disks, the answer is an error.
  pub get_disk_available_lem :
      (disks : List Disk)
      → ((d : Disk) × IsIn d disks
          × (get_disk_available within mount_point disks ≡ ok d.available_space)
          × IsLongest within mount_point disks d)
        ⊎ ((get_disk_available within mount_point disks
              ≡ err (io_error "could not find disk of path"))
            × All (λ e. within mount_point e.mount_point ≡ false) disks)
  unfolding get_disk_available
  get_disk_available_lem disks =
      elim (find_disk_lem (sort_disks disks) (sort_disks-IsSorted disks)) [
        | inl (d, there, found, (longest, others)) ↦
            inl (d, sort_disks-IsIn d disks there, found, (longest, sort_disks-All _ disks others))
        | inr (missing, others) ↦ inr (missing, sort_disks-All _ disks others)
      ]

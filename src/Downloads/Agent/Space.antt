-- ===== src/Downloads/Agent/Space.antt =====
-- `GameDownloadAgent::new` of src-tauri/games/src/downloads/download_agent.rs: a new agent, and the
-- check that the disk has room for it.
use drop_app.Prelude.{
  ℕ, suc, ◌+◌, ◌≤◌, ◌≡◌, refl, Bool, String, Option, none, some, List, [], ◌∷◌, Map, arith, ltb,
  if◌then◌else◌, get_elem?, length, All, get-nil, string_key,
}
use drop_app.Prelude.Usize.{add_usize}
use drop_app.Prelude.Outcomes.{Outcome, ok, err, unwrap, ◌>>=◌}
use drop_app.Manager.Flag
use drop_app.Manager.Progress
use drop_app.Manager.Signals.{ApplicationDownloadError, disk_full, DownloadStatus}
use drop_app.Downloads.Manifest.{DropManifest}
use drop_app.Downloads.DropData.{DropData, is_done, generate, new_drop_data}
use drop_app.Downloads.Buckets.Reference.{HasChecksums, get_elem?-lt}
use drop_app.Downloads.Agent.{GameDownloadAgent}

-- The lengths of a file's chunks for which the filter of the code holds: those that are done.
unfoldable pub file_space : {E : Type 0} → Map String Bool → List String → List ℕ → ℕ → Outcome E ℕ
file_space contexts checksums [] index = ok 0
file_space contexts checksums (size ∷ sizes) index = do
  x ← unwrap (get_elem? checksums index)
  rest ← file_space contexts checksums sizes (suc index)
  ok (if is_done contexts x then add_usize size rest else rest)

unfoldable pub required_space : {E : Type 0} → Map String Bool → DropManifest → Outcome E ℕ
required_space contexts [] = ok 0
required_space contexts ((raw_path, chunk) ∷ m) = do
  here ← file_space contexts chunk.checksums chunk.lengths 0
  rest ← required_space contexts m
  ok (add_usize here rest)

-- The agent before its manifest is there.
unfoldable pub new_agent : Option DropData → String → String → String → GameDownloadAgent
new_agent found id version base_path = record {
  id = id;
  version = version;
  control_flag = Flag.new Flag.stop;
  manifest = none;
  buckets = [];
  context_map = [];
  progress = Progress.new 0 0;
  dropdata = generate found id version base_path;
  status = DownloadStatus.queued;
}

abbrev pub check_space :
    ℕ → ℕ → GameDownloadAgent → Outcome ApplicationDownloadError GameDownloadAgent
check_space required available a =
    if ltb available required then err (disk_full required available) else ok a

-- `manifest` is the download of the manifest, `available` the space of the disk; each may fail.
-- `found` is the DropData that is on disk already, if any.
unfoldable pub new :
    Option DropData
    → String
    → String
    → String
    → Outcome ApplicationDownloadError DropManifest
    → Outcome ApplicationDownloadError ℕ
    → Outcome ApplicationDownloadError GameDownloadAgent
new found id version base_path manifest available = do
  let a = new_agent found id version base_path
  m ← manifest
  required ← required_space a.dropdata.contexts m
  space ← available
  check_space required space (record a { manifest = some m })

file_space_none_done :
    {E : Type 0} (checksums : List String) (sizes : List ℕ) (index : ℕ)
    → index + length sizes ≤ length checksums
    → file_space {E = E} [] checksums sizes index ≡ ok 0
unfolding file_space is_done
file_space_none_done checksums [] index h = refl
file_space_none_done {E} checksums (size ∷ sizes) index h =
    let (x, found) = get_elem?-lt checksums index (omega arith) in
    let rest = file_space_none_done {E = E} checksums sizes (suc index) (omega arith) in
    ground (arith, found, rest, get-nil {V = Bool} x)

abbrev pub AllHaveChecksums : DropManifest → Type 0
AllHaveChecksums = All (λ (raw_path, chunk). HasChecksums chunk)

required_space_none_done :
    {E : Type 0} (m : DropManifest) → AllHaveChecksums m → required_space {E = E} [] m ≡ ok 0
unfolding required_space add_usize
required_space_none_done [] h = refl
required_space_none_done {E} ((raw_path, chunk) ∷ m) h = ground (
  arith,
  file_space_none_done {E = E} chunk.checksums chunk.lengths 0 (omega arith),
  required_space_none_done {E = E} m h.1,
)

-- With a checksum for each chunk, a game of which nothing is on disk passes the check of space,
-- however large it is and however little space there is: only the chunks that are done are added up.
pub new_any_space :
    (id version base_path : String) (m : DropManifest) (space : ℕ)
    → AllHaveChecksums m
    → new none id version base_path (ok m) (ok space)
      ≡ ok (record (new_agent none id version base_path) { manifest = some m })
unfolding new new_agent generate new_drop_data
new_any_space id version base_path m space h =
    rw (required_space_none_done {E = ApplicationDownloadError} m h) (ground arith)

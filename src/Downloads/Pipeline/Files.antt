-- ===== src/Downloads/Pipeline/Files.antt =====
-- src-tauri/games/src/downloads/download_logic.rs, `DropWriter`: the files that the pipeline writes to,
-- as they are when all writers are flushed.
use drop_app.Prelude.{
  ℕ, zero, suc, ◌+◌, ◌≤◌, ◌≡◌, refl, ◌∙◌, sym, ap, String, Option, none, some, List, [], ◌∷◌, ◌++◌,
  length, take, drop, Map, get, insert, string_key, arith, ◌⊎◌, inl, inr,
}
use drop_app.Downloads.Pipeline.{Write}

-- Bytes are written from an offset on; a gap before them reads as zeros.
unfoldable pub write_at : ℕ → List ℕ → List ℕ → List ℕ
write_at zero bytes file = bytes ++ drop (length bytes) file
write_at (suc n) bytes [] = 0 ∷ write_at n bytes []
write_at (suc n) bytes (b ∷ file) = b ∷ write_at n bytes file

-- Where nothing is written, the file stays as it is.
abbrev pub write_bytes : ℕ → List ℕ → List ℕ → List ℕ
write_bytes start [] file = file
write_bytes start (b ∷ bytes) file = write_at start (b ∷ bytes) file

-- A writer opens its file, or creates it, and does not truncate it.
abbrev pub opened : Option (List ℕ) → List ℕ
opened none = []
opened (some file) = file

unfoldable pub write_files : List Write → Map String (List ℕ) → Map String (List ℕ)
write_files [] files = files
write_files ((d, bytes) ∷ ws) files =
    write_files ws (insert d.path (write_bytes d.start bytes (opened (get d.path files))) files)

-- A file has these bytes from its start on, or from an offset.
abbrev pub Starts : List ℕ → List ℕ → Type 0
Starts [] file = Unit
Starts (b ∷ bytes) [] = ⊥
Starts (b ∷ bytes) (c ∷ file) = (b ≡ c) × Starts bytes file

abbrev pub Holds : ℕ → List ℕ → List ℕ → Type 0
Holds zero bytes file = Starts bytes file
Holds (suc n) bytes [] = ⊥
Holds (suc n) bytes (c ∷ file) = Holds n bytes file

Starts-append : (bytes rest : List ℕ) → Starts bytes (bytes ++ rest)
Starts-append [] rest = tt
Starts-append (b ∷ bytes) rest = (refl, Starts-append bytes rest)

pub Holds-write_at : (n : ℕ) (bytes file : List ℕ) → Holds n bytes (write_at n bytes file)
unfolding write_at
Holds-write_at zero bytes file = Starts-append bytes (drop (length bytes) file)
Holds-write_at (suc n) bytes [] = Holds-write_at n bytes []
Holds-write_at (suc n) bytes (c ∷ file) = Holds-write_at n bytes file

Starts-before :
    (bytes file : List ℕ) (n : ℕ) (others : List ℕ)
    → length bytes ≤ n
    → Starts bytes file
    → Starts bytes (write_at n others file)
unfolding write_at
Starts-before [] file n others h s = tt
Starts-before (b ∷ bytes) [] n others h s = elim s [ ]
Starts-before (b ∷ bytes) (c ∷ file) zero others h s = absurd (omega arith)
Starts-before (b ∷ bytes) (c ∷ file) (suc n) others h (e, s) =
    (e, Starts-before bytes file n others (omega arith) s)

Holds-after :
    (n : ℕ) (bytes file others : List ℕ)
    → length others ≤ n
    → Holds n bytes file
    → Holds n bytes (others ++ drop (length others) file)
Holds-after n bytes file [] h s = s
Holds-after zero bytes file (o ∷ others) h s = absurd (omega arith)
Holds-after (suc n) bytes [] (o ∷ others) h s = elim s [ ]
Holds-after (suc n) bytes (c ∷ file) (o ∷ others) h s =
    Holds-after n bytes file others (omega arith) s

-- Bytes stay where nothing is written over them.
pub Holds-elsewhere :
    (n : ℕ) (bytes : List ℕ) (m : ℕ) (others file : List ℕ)
    → (n + length bytes ≤ m) ⊎ (m + length others ≤ n)
    → Holds n bytes file
    → Holds n bytes (write_at m others file)
unfolding write_at
Holds-elsewhere zero bytes m others file (inl before) s =
    Starts-before bytes file m others (omega arith) s
Holds-elsewhere n bytes zero others file (inr after) s =
    Holds-after n bytes file others (omega arith) s
Holds-elsewhere zero bytes (suc m) others file (inr after) s = absurd (omega arith)
Holds-elsewhere (suc n) bytes zero others file (inl before) s = absurd (omega arith)
Holds-elsewhere (suc n) bytes (suc m) others [] apart s = elim s [ ]
Holds-elsewhere (suc n) bytes (suc m) others (c ∷ file) (inl before) s =
    Holds-elsewhere n bytes m others file (inl (omega arith)) s
Holds-elsewhere (suc n) bytes (suc m) others (c ∷ file) (inr after) s =
    Holds-elsewhere n bytes m others file (inr (omega arith)) s

-- Reading them back.
abbrev pub ReadsBack : ℕ → List ℕ → List ℕ → Type 0
ReadsBack n bytes file =
    (length bytes ≤ length (drop n file)) × (take (length bytes) (drop n file) ≡ bytes)

pub Holds-ReadsBack : (n : ℕ) (bytes file : List ℕ) → Holds n bytes file → ReadsBack n bytes file
Holds-ReadsBack zero [] file s = (omega arith, refl)
Holds-ReadsBack zero (b ∷ bytes) [] s = elim s [ ]
Holds-ReadsBack zero (b ∷ bytes) (c ∷ file) (e, s) =
    let (fits, back) = Holds-ReadsBack zero bytes file s in
    (omega (arith, fits), ap (λ r. c ∷ r) back ∙ ap (λ x. x ∷ bytes) (sym e))
Holds-ReadsBack (suc n) bytes [] s = elim s [ ]
Holds-ReadsBack (suc n) bytes (c ∷ file) s = Holds-ReadsBack n bytes file s

-- ===== src/Downloads/Validate/Copy.antt =====
-- src-tauri/games/src/downloads/validate.rs, `validate_copy`: which bytes are hashed, and when the loop
-- ends.
use drop_app.Prelude.{
  ℕ, ◌+◌, ◌-◌, ◌≤◌, ◌<◌, min, ◌≡◌, refl, ◌∙◌, sym, ap, false, none, some, List, [], ◌∷◌, ◌++◌,
  length, take, drop, ltb, leb, arith, Bool-cases, inl, inr, some-injective, leb→le,
}
use mathlib.Core.List.{append_assoc}
use drop_app.Prelude.Slices.{
  take_all, take-take, take_split, length-take-drop, length-take_le, take_nonempty,
}
use drop_app.Manager.Flag.{stop, go}
use drop_app.Downloads.Validate.{Turn, copied, wanted, validate_copy, copy_buf_size}

-- The last read is cut to what is still missing, the bytes of the file that come next.
wanted_last :
    (size total m : ℕ) (source : List ℕ)
    → total ≤ size
    → size ≤ total + length (take m source)
    → wanted size (total + length (take m source)) (take m source) ≡ take (size - total) source
wanted_last size total m source h g =
    elim (Bool-cases (ltb size (total + length (take m source)))) [
      | inl over ↦ rw over (
          ap (λ n. take n (take m source)) (omega (arith, h, g))
          ∙ take-take (size - total) m source (omega (arith, h, g)))
      | inr exact ↦ rw exact (
          sym (take_all (take m source))
          ∙ take-take (length (take m source)) m source (omega arith)
          ∙ ap (λ n. take n source) (ground (arith, g, h)))
    ]

wanted_more : (size total : ℕ) (bytes : List ℕ) → total < size → wanted size total bytes ≡ bytes
wanted_more size total bytes h = ground (arith, h)

-- What a copy that ends with success hashed: what it had, and then the file's next bytes.
abbrev pub Hashes : ℕ → ℕ → List ℕ → List ℕ → ℕ → List ℕ → ℕ → Type 0
Hashes size total source out progress w p =
    (w ≡ out ++ take (size - total) source)
    × (size ≤ total + length source)
    × (p ≡ progress + (size - total))

copied_only :
    (size total : ℕ) (source out : List ℕ) (progress : ℕ) (ts : List Turn) (w : List ℕ) (p : ℕ)
    → total ≤ size
    → validate_copy size total source out progress ts ≡ some (copied w p)
    → Hashes size total source out progress w p
unfolding validate_copy
copied_only size total source out progress [] w p h e = cc
copied_only size total source out progress ((stop, r) ∷ ts) w p h e = cc
copied_only size total source out progress ((go, none) ∷ ts) w p h e = cc
copied_only size total source out progress ((go, some n) ∷ ts) w p h e =
    let m = min copy_buf_size n in
    let bytes = take m source in
    let new_total = total + length bytes in
    elim (Bool-cases (leb size new_total)) [
      | inl last ↦
          let ends = some-injective (rw last at e) in
          let cut = wanted_last size total m source h (leb→le size new_total last) in
          let w_is : w ≡ out ++ wanted size new_total bytes = cc in
          let p_is : p ≡ progress + length (wanted size new_total bytes) = cc in
          let fits : size - total ≤ length source =
            omega (arith, length-take-drop m source, leb→le size new_total last) in
          let counted : length (wanted size new_total bytes) ≡ size - total =
            ap length cut ∙ length-take_le (size - total) source fits in
          (w_is ∙ ap (λ r. out ++ r) cut, omega (arith, fits, h), omega (arith, p_is, counted))
      | inr more ↦
          let later =
            copied_only size new_total (drop m source) (out ++ wanted size new_total bytes)
              (progress + length (wanted size new_total bytes)) ts w p (ground (arith, more))
              (rw more at e) in
          let less : new_total < size = ground (arith, more) in
          let kept = wanted_more size new_total bytes less in
          let split = take_split m (size - new_total) (size - total) source (omega (arith, less)) in
          let counted : length (wanted size new_total bytes) ≡ length bytes = ap length kept in
          (
            later.0
                ∙ ap (λ r. (out ++ r) ++ take (size - new_total) (drop m source)) kept
                ∙ append_assoc out bytes (take (size - new_total) (drop m source))
                ∙ ap (λ r. out ++ r) (sym split),
            omega (arith, length-take-drop m source, later.1),
            omega (arith, later.2, counted, less),
          )
    ]

-- No stop and no error: every turn reads at least one byte where one is left.
abbrev pub Reads : List Turn → Type 0
Reads [] = Unit
Reads ((stop, r) ∷ ts) = ⊥
Reads ((go, none) ∷ ts) = ⊥
Reads ((go, some n) ∷ ts) = (0 < n) × Reads ts

-- When a validation ends with success, the bytes hashed are the chunk's, which the file holds in full,
-- and the progress went up by the chunk's length.
pub validate_copy-copied :
    (size : ℕ) (source : List ℕ) (ts : List Turn) (w : List ℕ) (p : ℕ)
    → validate_copy size 0 source [] 0 ts ≡ some (copied w p)
    → (w ≡ take size source) × (size ≤ length source) × (p ≡ size)
validate_copy-copied size source ts w p e =
    let h = copied_only size 0 source [] 0 ts w p (omega arith) e in
    let whole : size - 0 ≡ size = omega arith in
    (h.0 ∙ ap (λ n. take n source) whole, omega (arith, h.1), omega (arith, h.2))

short_loops :
    (size total : ℕ) (source out : List ℕ) (progress : ℕ) (ts : List Turn)
    → total + length source < size
    → Reads ts
    → validate_copy size total source out progress ts ≡ none
unfolding validate_copy
short_loops size total source out progress [] h r = refl
short_loops size total source out progress ((stop, x) ∷ ts) h r = elim r [ ]
short_loops size total source out progress ((go, none) ∷ ts) h r = elim r [ ]
short_loops size total source out progress ((go, some n) ∷ ts) h r =
    let m = min copy_buf_size n in
    let bytes = take m source in
    let less : total + length bytes + length (drop m source) < size =
      omega (arith, length-take-drop m source, h) in
    let more : leb size (total + length bytes) ≡ false = ground (arith, less) in
    rw (
      more,
      short_loops size (total + length bytes) (drop m source)
          (out ++ wanted size (total + length bytes) bytes)
          (progress + length (wanted size (total + length bytes) bytes)) ts less r.1,
    )

-- On a file that ends before the chunk does, the loop never ends: without a stop or an I/O error it is
-- still running after any number of turns.
pub validate_copy-short :
    (size : ℕ) (source : List ℕ) (ts : List Turn)
    → length source < size
    → Reads ts
    → validate_copy size 0 source [] 0 ts ≡ none
validate_copy-short size source ts h r = short_loops size 0 source [] 0 ts (omega (arith, h)) r

long_ends :
    (size total : ℕ) (source out : List ℕ) (progress : ℕ) (ts : List Turn)
    → size ≤ total + length source
    → total ≤ size
    → size - total < length ts
    → Reads ts
    → (w : List ℕ) × (p : ℕ) × (validate_copy size total source out progress ts ≡ some (copied w p))
unfolding validate_copy
long_ends size total source out progress [] h t g r = ground (arith, g)
long_ends size total source out progress ((stop, x) ∷ ts) h t g r = elim r [ ]
long_ends size total source out progress ((go, none) ∷ ts) h t g r = elim r [ ]
long_ends size total source out progress ((go, some n) ∷ ts) h t g r =
    let m = min copy_buf_size n in
    let bytes = take m source in
    let kept = wanted size (total + length bytes) bytes in
    elim (Bool-cases (leb size (total + length bytes))) [
      | inl last ↦ (out ++ kept, progress + length kept, rw last)
      | inr more ↦
          let less : total + length bytes < size = ground (arith, more) in
          let some_read : 0 < length bytes =
            take_nonempty m source (omega (arith, r.0))
              (omega (arith, h, less, length-take-drop m source)) in
          let (w, p, run) =
            long_ends size (total + length bytes) (drop m source) (out ++ kept)
              (progress + length kept) ts (omega (arith, length-take-drop m source, h))
              (omega (arith, less)) (omega (arith, some_read, g, less)) r.1 in
          (w, p, rw (more, run))
    ]

-- On a file that holds the chunk in full, the loop ends with success after at most one turn more than
-- the chunk has bytes, unless it is stopped or a read fails.
pub validate_copy-ends :
    (size : ℕ) (source : List ℕ) (ts : List Turn)
    → size ≤ length source
    → size < length ts
    → Reads ts
    → validate_copy size 0 source [] 0 ts ≡ some (copied (take size source) size)
validate_copy-ends size source ts h g r =
    let (w, p, run) =
      long_ends size 0 source [] 0 ts (omega (arith, h)) (omega arith) (omega (arith, g)) r in
    let (hashed, fits, counted) = validate_copy-copied size source ts w p run in
    let ends : copied w p ≡ copied (take size source) size = cc in run ∙ ap some ends

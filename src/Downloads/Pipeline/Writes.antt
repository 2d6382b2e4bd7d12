-- ===== src/Downloads/Pipeline/Writes.antt =====
-- src-tauri/games/src/downloads/download_logic.rs: what the pipeline writes.
use mathlib.Core.List.{append_assoc}
use drop_app.Prelude.{
  ℕ, ◌+◌, ◌-◌, ◌≤◌, min, ◌≡◌, refl, ◌∙◌, sym, ap, ◌&&◌, Option, none, some, List, [], ◌∷◌, ◌++◌,
  length, take, drop, ltb, ◌==◌, arith, Bool-cases, Option-cases, inl, inr, ==_iff, sum_by,
}
use drop_app.Prelude.Slices.{
  take_split, drop_split, length-take-drop, length-take_bound, length-take_le,
}
use drop_app.Manager.Flag.{DownloadThreadControlFlag}
use drop_app.Manager.Thread.{is_stop}
use drop_app.Downloads.Manifest.{DownloadDrop}
use drop_app.Downloads.Validate.{Turn}
use drop_app.Downloads.Pipeline.{
  DropEnd, finished, Write, PipelineEnd, copied, copy_drop, copy, max_packet_length, bump_size,
  after_bump, with_write,
}

abbrev pub Took : ℕ → List ℕ → List ℕ → List ℕ → List ℕ → Type 0
Took size source out w rest =
    (w ≡ out ++ take size source) × (rest ≡ drop size source) × (size ≤ length source)

copy_drop-Took :
    (remaining last_bump : ℕ) (source out : List ℕ) (ts : List Turn) (w rest : List ℕ)
    → copy_drop remaining last_bump source out ts ≡ some (finished w rest)
    → Took remaining source out w rest
unfolding copy_drop
copy_drop-Took remaining last_bump source out [] w rest e = cc
copy_drop-Took remaining last_bump source out ((f, none) ∷ ts) w rest e = cc
copy_drop-Took remaining last_bump source out ((f, some n) ∷ ts) w rest e =
    let m = min (min max_packet_length remaining) n in
    let bytes = take m source in
    let left = remaining - length bytes in
    let bumped = last_bump + length bytes in
    elim (Bool-cases (ltb bump_size bumped && is_stop f)) [
      | inl halts ↦
          let ended : some DropEnd.stopped ≡ some (finished w rest) = (rw halts at e) in cc
      | inr goes ↦ elim (Bool-cases (left == 0)) [
        | inl last ↦
            let ended : some (finished (out ++ bytes) (drop m source)) ≡ some (finished w rest) =
              (rw (goes, last) at e) in
            let w_is : w ≡ out ++ bytes = cc in
            let rest_is : rest ≡ drop m source = cc in
            let whole : m ≡ remaining =
              omega (arith, length-take_bound m source, (==_iff left 0).0 last) in
            (
              w_is ∙ ap (λ k. out ++ take k source) whole,
              rest_is ∙ ap (λ k. drop k source) whole,
              omega (arith, length-take-drop m source, (==_iff left 0).0 last),
            )
        | inr more ↦
            let later =
              copy_drop-Took left (after_bump bumped) (drop m source) (out ++ bytes) ts w rest
                (rw (goes, more) at e) in
            let parts : length bytes + left ≡ remaining =
              omega (arith, length-take_bound m source) in
            (
              later.0
                  ∙ append_assoc out bytes (take left (drop m source))
                  ∙ ap (λ r. out ++ r) (sym (take_split m left remaining source parts)),
              later.1 ∙ sym (drop_split m left remaining source parts),
              omega (arith, length-take-drop m source, later.2, parts),
            )
      ]
    ]

-- The stream cut up into the drops, in their order.
unfoldable pub slices : List DownloadDrop → List ℕ → List Write
slices [] source = []
slices (d ∷ ds) source = (d, take d.size source) ∷ slices ds (drop d.size source)

with_write-copied :
    (x : Write) (o : Option PipelineEnd) (ws : List Write)
    → with_write x o ≡ some (copied ws)
    → (r : List Write) × (o ≡ some (copied r)) × (ws ≡ x ∷ r)
with_write-copied x none ws h = cc
with_write-copied x (some PipelineEnd.stopped) ws h = cc
with_write-copied x (some PipelineEnd.io_failed) ws h = cc
with_write-copied x (some (copied r)) ws h = (r, refl, cc)

-- A copy that completes has written each drop's bytes, which are as many as the drop's size, from the
-- stream in the order of the drops, none left out and none twice; the stream held that many.
pub copy-slices :
    (ds : List DownloadDrop) (source : List ℕ) (plan : List (List Turn × DownloadThreadControlFlag))
    (ws : List Write)
    → copy ds source plan ≡ some (copied ws)
    → (ws ≡ slices ds source) × (sum_by (λ d. d.size) ds ≤ length source)
unfolding copy slices
copy-slices [] source plan ws e = (cc, omega arith)
copy-slices (d ∷ ds) source [] ws e = cc
copy-slices (d ∷ ds) source ((ts, f) ∷ plan) ws e =
    elim (Option-cases (copy_drop d.size 0 source [] ts)) [
      | inl runs ↦ ground (arith, e, runs)
      | inr (DropEnd.stopped, h) ↦ ground (arith, e, h)
      | inr (DropEnd.io_failed, h) ↦ ground (arith, e, h)
      | inr (finished bytes rest, h) ↦ elim (Bool-cases (is_stop f)) [
        | inl halts ↦ ground (arith, e, h, halts)
        | inr goes ↦
            let took = copy_drop-Took d.size 0 source [] ts bytes rest h in
            let (r, later, joined) =
              with_write-copied (d, bytes) (copy ds rest plan) ws (rw (copy, h, goes) at e) in
            let tail = copy-slices ds rest plan r later in
            let same_rest : slices ds rest ≡ slices ds (drop d.size source) =
              ap (slices ds) took.1 in
            let counted : length rest ≡ length (drop d.size source) = ap length took.1 in
            (
              joined
                  ∙ ap (λ b. (d, b) ∷ r) took.0
                  ∙ ap (λ x. (d, take d.size source) ∷ x) (tail.0 ∙ same_rest),
              omega (
                arith,
                tail.1,
                counted,
                took.2,
                length-take-drop d.size source,
                length-take_le d.size source took.2,
              ),
            )
      ]
    ]

-- ===== src/CloudSaves/Normalise/Rules.antt =====
-- src-tauri/cloud_saves/src/normalise.rs, `normalize`: which rules ever apply.
use Prim.Native.String.{String}
use drop_app.Prelude.{◌≡◌, refl, ap, true, false, List, [], ◌∷◌, ◌++◌, Bool-cases, inl, inr}
use drop_app.Database.Metadata.{Platform}
use drop_app.CloudSaves.Placeholders
use drop_app.CloudSaves.Normalise.{
  RegexLibrary, LeavesAlone, Rule, apply, slash_rules, app_data_rules, user_profile, documents,
  trimmed, normalize, normalize_by, windows_rules, replace_ids,
}

apply-append :
    (regex : RegexLibrary) (rs qs : List Rule) (path : String)
    → apply regex (rs ++ qs) path ≡ apply regex qs (apply regex rs path)
unfolding apply
apply-append regex [] qs path = refl
apply-append regex ((pattern, to) ∷ rs) qs path =
    apply-append regex rs qs (regex.replace_all pattern to path)

-- The rules without the one for the documents.
abbrev pub used_rules : List Rule
used_rules = slash_rules ++ (app_data_rules ++ (user_profile, Placeholders.home) ∷ [])

-- The rule for the documents in the profile of a user changes nothing, since the rule before it has
-- replaced every profile: a path has the same normal form without it. This needs of the library
-- that a text without a match is left alone, that no profile is left when all are replaced by the
-- home directory, and that a text with a profile's documents has a profile.
pub normalize-documents :
    (regex : RegexLibrary) (path : String) (os : Platform)
    → LeavesAlone regex documents
    → ((text : String)
        → regex.is_match user_profile (regex.replace_all user_profile Placeholders.home text)
          ≡ false)
    → ((text : String)
        → regex.is_match documents text ≡ true
        → regex.is_match user_profile text ≡ true)
    → normalize regex path os ≡ normalize_by regex used_rules path os
unfolding apply
normalize-documents regex path os alone gone inside =
    let text = apply regex slash_rules (trimmed path) in
    let before = apply regex app_data_rules text in
    let after = regex.replace_all user_profile Placeholders.home before in
    let none_left : regex.is_match documents after ≡ false =
      elim (Bool-cases (regex.is_match documents after)) [
        | inr free ↦ free
        | inl found ↦ let still = inside after found in let replaced = gone before in cc
      ] in
    ap (λ p. replace_ids (apply regex (windows_rules os) p))
      (alone Placeholders.win_documents after none_left)

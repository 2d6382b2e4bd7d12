-- ===== src/Tests/Normal.antt =====
-- Normal forms of paths, with a library that finds two of the patterns.
use Prim.Native.String.{String}
use text.Mathlib.Text.{◌==◌ as str_eq}
use text.Mathlib.TextEquality.{eq_iff}
use drop_app.Prelude.{
  ◌≡◌, refl, sym, subst, Bool, true, false, ◌&&◌, ◌||◌, if◌then◌else◌, arith, Bool-cases, inl, inr,
}
use drop_app.Prelude.Texts.{split, split_from, join, trim, trim_start, trim_end, concat}
use drop_app.Database.Metadata.{linux, windows}
use drop_app.CloudSaves.Placeholders
use drop_app.CloudSaves.Normalise.{
  RegexLibrary, LeavesAlone, normalize, normalize_by, apply, user_profile, documents, documents_2,
  trim_end_slashes, replace_tilde,
}
use drop_app.CloudSaves.Normalise.Rules.{used_rules, normalize-documents}
use drop_app.CloudSaves.Normalise.Usable.{usable, too_broad, any_of}

-- Texts that are a profile or its documents as a whole.
abbrev is_whole : String → String → Bool
is_whole pattern text =
    (str_eq pattern user_profile
      && (str_eq text "%userprofile%" || str_eq text "%userprofile%/Documents"))
    || (str_eq pattern documents && str_eq text "%userprofile%/Documents")
    || (str_eq pattern documents_2 && str_eq text "<home>/Documents")

abbrev replaced : String → String → String → String
replaced pattern to text =
    if str_eq pattern user_profile && str_eq text "%userprofile%/Documents"
    then "<home>/Documents"
    else to

abbrev regex_one : RegexLibrary
regex_one = record {
  replace_all = λ pattern to text. if is_whole pattern text then replaced pattern to text else text;
  is_match = is_whole;
}

leaves_alone : LeavesAlone regex_one documents
leaves_alone to text h = ground (arith, h)

profiles_gone :
    (text : String)
    → regex_one.is_match user_profile (regex_one.replace_all user_profile Placeholders.home text)
      ≡ false
profiles_gone text =
    let goal : String → Type 0 = λ t.
      regex_one.is_match user_profile (regex_one.replace_all user_profile Placeholders.home t)
      ≡ false in
    elim (Bool-cases (str_eq text "%userprofile%")) [
      | inl profile ↦ subst goal (sym ((eq_iff text "%userprofile%").0 profile)) refl
      | inr other ↦ elim (Bool-cases (str_eq text "%userprofile%/Documents")) [
        | inl below ↦ subst goal (sym ((eq_iff text "%userprofile%/Documents").0 below)) refl
        | inr neither ↦ rw (other, neither) (ground (arith, other, neither))
      ]
    ]

profile_inside :
    (text : String)
    → regex_one.is_match documents text ≡ true
    → regex_one.is_match user_profile text ≡ true
profile_inside text h = ground (arith, h)

normalize-documents_example :
    normalize regex_one "%userprofile%\\Documents\\" linux
    ≡ normalize_by regex_one used_rules "%userprofile%\\Documents\\" linux
normalize-documents_example =
    normalize-documents regex_one "%userprofile%\\Documents\\" linux leaves_alone profiles_gone
      profile_inside

-- On Linux the documents stay below the home directory, on Windows they have a name of their own.
on_linux : normalize regex_one "%userprofile%\\Documents\\" linux ≡ "<home>/Documents"
unfolding apply trim_end_slashes replace_tilde split split_from join trim trim_start trim_end
on_linux = refl

on_windows : normalize regex_one "%userprofile%\\Documents\\" windows ≡ "<winDocuments>"
unfolding apply trim_end_slashes replace_tilde split split_from join trim trim_start trim_end
on_windows = refl

abbrev same_case : String → String
same_case s = s

narrow : usable regex_one same_case "<home>/.game/saves" ≡ true
unfolding usable too_broad any_of concat
narrow = refl

wide : usable regex_one same_case "<home>/*" ≡ false
unfolding usable too_broad any_of concat
wide = refl

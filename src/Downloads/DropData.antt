-- ===== src/Downloads/DropData.antt =====
-- src-tauri/games/src/downloads/drop_data.rs: the record beside a game's files of which chunks are
-- complete. Its encoding is a library's, so a file on disk is the record that it decodes to.
use drop_app.Prelude.{
  ◌≡◌, refl, Bool, true, false, String, Option, none, some, List, [], ◌∷◌, Map, get, insert,
  string_key, arith, if◌then◌else◌, get-insert, contains, map,
}
use text.Mathlib.TextEquality.{eq_iff}

pub record DropData : Type 0 where
  pub game_id : String
  pub game_version : String
  pub contexts : Map String Bool
  pub base_path : String

unfoldable pub new_drop_data : String → String → String → DropData
new_drop_data game_id game_version base_path = record {
  base_path = base_path;
  game_id = game_id;
  game_version = game_version;
  contexts = [];
}

-- `read` gives what is found on disk, or none if there is no such file or it does not decode.
unfoldable pub generate : Option DropData → String → String → String → DropData
unfolding new_drop_data
generate none game_id game_version base_path = new_drop_data game_id game_version base_path
generate (some v) game_id game_version base_path = v

-- `write`: the file keeps what it held if encoding it or writing it fails, which is only logged.
unfoldable pub write : Bool → DropData → Option DropData → Option DropData
write true d file = some d
write false d file = file

-- Collecting pairs into a map: a later pair of the same key wins.
unfoldable pub collect : Map String Bool → List (String × Bool) → Map String Bool
collect m [] = m
collect m ((k, v) ∷ r) = collect (insert k v m) r

unfoldable pub set_contexts : List (String × Bool) → DropData → DropData
unfolding collect
set_contexts completed d = record d { contexts = collect [] completed }

unfoldable pub set_context : String → Bool → DropData → DropData
set_context context state d = record d { contexts = insert context state d.contexts }

-- `*contexts.get(x).unwrap_or(&false)`
unfoldable pub is_done : Map String Bool → String → Bool
is_done m x = elim (get x m) [ none ↦ false | some b ↦ b ]

-- Each checksum of a list with what is known of it.
unfoldable pub states : Map String Bool → List String → List (String × Bool)
states m = map (λ x. (x, is_done m x))

-- Collected again, the states are those of the checksums listed, and of no other.
pub get-collect :
    (known m : Map String Bool) (xs : List String) (x : String)
    → get x (collect m (states known xs))
      ≡ (if contains xs x then some (is_done known x) else get x m)
unfolding collect states contains
get-collect known m [] x = refl
get-collect known m (y ∷ xs) x = ground (
  arith,
  get-collect known (insert y (is_done known y) m) xs x,
  get-insert y x (is_done known y) m,
  eq_iff y x,
)

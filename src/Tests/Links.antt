-- ===== src/Tests/Links.antt =====
-- Test data and tests of Commands/Collections, Commands/Connect and Commands/Downloads.
use Prim.Native.Char.{Char, code}
use Prim.Native.String.{◌++◌ as append}
use text.Mathlib.Text.{starts_with}
use text.Mathlib.TextEquality.{eq_iff}
use text.Mathlib.TextLemmas.{append-nil, append_assoc, nil-append}
use text.Mathlib.TextPositions.{starts_with-append}
use drop_app.Prelude.{
  String, ◌≡◌, refl, sym, ap, ◌∙◌, true, false, ℕ, List, [], ◌∷◌, ◌++◌, Option, none, some, arith,
  get, insert, remove, string_key, Bool-cases, inl, inr, if◌then◌else◌,
}
use drop_app.Prelude.Outcomes.{Outcome, ok, err}
use drop_app.Prelude.Paths.{
  no_slash, is_slash, before_slash, before_slash-append, starts_with-no_slash, parent, trim_slashes,
}
use drop_app.Prelude.Texts.{join_path, ends_with, concat}
use drop_app.Remote.Requests.{UrlLibrary, generate_url, request, send}
use drop_app.Commands.Collections.{
  add_game_to_collection, delete_game_in_collection, delete_collection,
}
use drop_app.Commands.Collections.Entries.{
  is_id_char, are_id_chars, path_of, ReplacesLast, prefix, add_game_any_collection,
}
use drop_app.Remote.Cache.{written}
use drop_app.Remote.Auth.{User, reply}
use drop_app.Commands.Connect.{
  CodeWebsocketResponse, Receive, text_message, load, on_open_url, manual_recieve_handshake,
  finish_code,
}
use drop_app.Commands.Connect.Links.{recieve, others, same_handshake}
use drop_app.Database.Metadata.{DownloadableMetadata, game}
use drop_app.Database.Models.{partially_installed}
use drop_app.Games.State.{fetch_state}
use drop_app.Games.Library.{
  update_game, set_partially_installed, mark_partially_installed, push_game_update, emit,
}
use drop_app.Downloads.DropData.{DropData, generate, write}
use drop_app.Downloads.Manifest.{DropManifest}
use drop_app.Manager.Signals.{ApplicationDownloadError}
use drop_app.Downloads.Agent.{GameDownloadAgent, Env, metadata}
use drop_app.Downloads.Agent.Space.{new, new_agent, required_space}
use drop_app.Downloads.Agent.Hooks.{on_cancelled}
use drop_app.Commands.Downloads.{DownloadState, enqueue, resume_download}
use drop_app.Commands.Downloads.Resume.{Resumes, on_cancelled-resume_download}
use drop_app.Tests.Downloads.{env_one}
use drop_app.Tests.Remote.{sign, key_hash, as_is, user_one}
use drop_app.Tests.Session.{session_one, response_one}

-- URLs of one server, known by their path. A path that is not from the root takes the place of what
-- stands after the last slash.
abbrev directory : Option String → String
directory none = "/"
directory (some b) = append b "/"

abbrev paths : UrlLibrary String
paths = record {
  parse = λ s. ok "/";
  join = λ url s. if starts_with s "/" then ok s else ok (append (directory (before_slash url)) s);
  append_pairs = λ query url. url;
  to_text = λ url. url;
}

slash-ne-id_char : (c : Char) → is_id_char (code c) ≡ true → is_slash c ≡ false
slash-ne-id_char c h = elim (Bool-cases (is_slash c)) [
  | inr other ↦ other
  | inl slash ↦
      let bad : are_id_chars "/" ≡ true =
        ap are_id_chars (sym ((eq_iff (String.◌∷◌ c "") "/").0 slash)) ∙ rw h refl in
      cc bad
]

no_slash_of_id : (s : String) → are_id_chars s ≡ true → no_slash s ≡ true
no_slash_of_id String.[] h = refl
no_slash_of_id (String.◌∷◌ c s) h = ground (arith, slash-ne-id_char c, no_slash_of_id s)

path_of-snoc :
    (segments : List String) (last : String)
    → path_of (segments ++ last ∷ []) ≡ append (path_of segments) (append "/" last)
path_of-snoc [] last = ap (append "/") (append-nil last) ∙ sym (nil-append (append "/" last))
path_of-snoc (s ∷ ss) last =
    ap (λ p. append "/" (append s p)) (path_of-snoc ss last)
    ∙ ap (append "/") (sym (append_assoc s (path_of ss) (append "/" last)))
    ∙ sym (append_assoc "/" (append s (path_of ss)) (append "/" last))

path_of-root :
    (segments : List String) (last : String)
    → starts_with (path_of (segments ++ last ∷ [])) "/" ≡ true
path_of-root [] last = starts_with-append "/" (append last "")
path_of-root (s ∷ ss) last = starts_with-append "/" (append s (path_of (ss ++ last ∷ [])))

replaces : ReplacesLast paths
replaces base segments last next all l n =
    let no_last = no_slash_of_id last (ground arith) in
    let no_next = no_slash_of_id next (ground arith) in
    let at = path_of-snoc segments last in
    rw (path_of-root segments last, path_of-root segments next, starts_with-no_slash next no_next)
      (ap (λ p. ok (append (directory p) next))
          (ap before_slash at ∙ before_slash-append (path_of segments) last no_last)
        ∙ ap ok (append_assoc (path_of segments) "/" next ∙ sym (path_of-snoc segments next)))

add_game_any_collection_example :
    let url = generate_url paths "http://drop" ("/api/v1/client/entry" ∷ []) [] in
    (add_game_to_collection paths "http://drop" (ok "Nonce") "c-1" "g" (ok tt)
      ≡ send (request "POST" (("id", "g") ∷ []) url (ok "Nonce")) (ok tt))
    × (delete_game_in_collection paths "http://drop" (ok "Nonce") "c-1" "g" (ok tt)
        ≡ send (request "DELETE" (("id", "g") ∷ []) url (ok "Nonce")) (ok tt))
    × (delete_collection paths "http://drop" (ok "Nonce") "c-1" (ok true)
        ≡ send
            (request "DELETE" []
              (generate_url paths "http://drop" (path_of (prefix ++ "c-1" ∷ []) ∷ []) [])
              (ok "Nonce"))
            (ok true))
add_game_any_collection_example =
    add_game_any_collection paths replaces "http://drop" (ok "Nonce") "c-1" "g" (ok tt) (ok true)
      refl

abbrev read_code : String → Outcome String CodeWebsocketResponse
read_code m = ok (record { response_type = "token"; value = m })

abbrev recieve_one : Receive User
recieve_one =
    recieve sign key_hash as_is "/cache" (λ url. none) (reply 200 (err "") (ok response_one)) "1"
      (ok "w") "2" (reply 200 (err "") (ok user_one)) written

same_handshake_example :
    (on_open_url recieve_one
        (record { host = some "handshake"; path = append "/" "i/t" } ∷ [])
        session_one
      ≡ manual_recieve_handshake recieve_one "i/t" session_one)
    × (finish_code recieve_one
          (load read_code (others 1 ++ ok (text_message "i/t") ∷ []))
          session_one
        ≡ manual_recieve_handshake recieve_one "i/t" session_one)
same_handshake_example =
    same_handshake sign key_hash as_is "/cache" (λ url. none) (reply 200 (err "") (ok response_one))
      "1" (ok "w") "2" (reply 200 (err "") (ok user_one)) written read_code "i/t" "i/t" 1 [] []
      session_one refl

abbrev data_half : DropData
data_half = record {
  game_id = "g";
  game_version = "v1";
  contexts = ("aa", true) ∷ [];
  base_path = "/games/g";
}

abbrev half_done : GameDownloadAgent
unfolding new_agent generate
half_done = new_agent (some data_half) "g" "v1" "/games/g"

abbrev metadata_half : DownloadableMetadata
metadata_half = record { id = "g"; version = some "v1"; download_type = game }

abbrev cancelled : Env
cancelled = record env_one {
  client = record env_one.client {
    db = record env_one.client.db {
      game_statuses = ("g", partially_installed "v1" "/games/g") ∷ [];
      installed_game_version = ("g", metadata_half) ∷ [];
    };
    events = update_game "g" (some (partially_installed "v1" "/games/g"), none) none ∷ [];
  };
  file = some data_half;
}

is_cancelled : on_cancelled true half_done env_one ≡ some cancelled
unfolding on_cancelled metadata set_partially_installed mark_partially_installed push_game_update
    emit fetch_state insert remove get write new_agent generate
is_cancelled = refl

abbrev on_disk : String → Option DropData
on_disk dir = some data_half

abbrev empty_manifest : String → String → Outcome ApplicationDownloadError DropManifest
empty_manifest id version = ok []

abbrev roomy : String → Outcome ApplicationDownloadError ℕ
roomy dir = ok 10

abbrev idle : DownloadState
idle = record { agents = []; manager = record { download_queue = []; sent = [] } }

abbrev resumed : DownloadState
resumed = enqueue (record half_done { manifest = some [] }) idle

is_resumed : resume_download on_disk empty_manifest roomy "g" cancelled.client.db idle ≡ ok resumed
unfolding resume_download new new_agent generate required_space parent trim_slashes before_slash get
    join_path ends_with concat
is_resumed = refl

on_cancelled-resume_download_example :
    (b : GameDownloadAgent) × (resumed ≡ enqueue b idle) × Resumes half_done b
unfolding join_path ends_with concat new_agent generate
on_cancelled-resume_download_example =
    on_cancelled-resume_download on_disk empty_manifest roomy half_done env_one cancelled "/games"
      idle resumed refl refl refl refl refl is_cancelled refl is_resumed

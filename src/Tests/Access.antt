-- ===== src/Tests/Access.antt =====
-- Test data and tests of Database/Interface, Remote/ServerProto and Downloads/Agent/Disk.
use text.Mathlib.Text.{◌==◌ as str_eq}
use text.Mathlib.TextEquality.{eq_iff}
use mathlib.Core.List.{append-nil}
use drop_app.Prelude.{
  Bool, ◌++◌, if◌then◌else◌, sym, ap, ◌∙◌, String, ◌≡◌, refl, true, false, List, [], ◌∷◌, Option,
  none, some, Map, get, insert, remove, contains_key, same, string_key, arith, get-insert_self,
  get-insert,
}
use drop_app.Prelude.Outcomes.{Outcome, ok, err}
use drop_app.Prelude.Texts.{join_path, concat, ends_with}
use drop_app.Database.Models.{Database, DatabaseAuth, new_database, default_settings, running}
use drop_app.Database.Interface.{
  Rustbreak, DatabaseInterface, Disk, db_path, backup_path, games_base_dir, cache_dir_of, shown_as,
  set_up_database, create_dirs, change, report_corrupted, handle_invalid_database,
}
use drop_app.Database.Interface.Recovery.{change_all, change_then_set_up, set_up_invalid}
use drop_app.Database.Stored.{StoredDatabase, stored, persisted}
use drop_app.Tests.Client.{meta_one}
use drop_app.Remote.Auth.{signed_in}
use drop_app.Remote.ServerProto.{
  Parts, UriLibrary, Request, Sent, answered, Effect, send, serve, server_uri, handle_server_proto,
  is_offline, is_whitelisted, whitelist_prefix, web_token_of, bearer, Headers, values_of,
}
use drop_app.Remote.ServerProto.Token.{serve-send, or_default}
use drop_app.Downloads.Agent.Disk as Disks
use drop_app.Downloads.Agent.Disk.{get_disk_available, get_disk_available_lem, IsIn, IsLongest}

-- The files hold what is stored of databases.
abbrev read_file : Option StoredDatabase → Outcome String StoredDatabase
read_file none = err "No such file"
read_file (some d) = ok d

abbrev kept : Rustbreak StoredDatabase
kept = record {
  load_from_path = λ path files. read_file (get path files);
  create_at_path = λ path d files. ok (insert path d files);
  save = λ path d files. ok (insert path d files);
}

saves :
    (path : String) (d : StoredDatabase) (files after : Map String StoredDatabase)
    → kept.save path d files ≡ ok after
    → (kept.load_from_path path after ≡ ok d) × (contains_key path after ≡ true)
saves path d files after h = ground (arith, get-insert_self path d files)

abbrev fine : Disk
fine = record { create_dir_all = λ dir. none; exists = none; rename = none }

abbrev first : Database
first = new_database "/data/games" none "/data/cache"

abbrev opened : DatabaseInterface StoredDatabase
opened = record {
  path = db_path "/data";
  contents = first;
  files = (db_path "/data", stored first) ∷ [];
}

abbrev sign_at : Database → Database
sign_at d = record d { base_url = "http://drop" }

-- A game is in transit, and then the base URL is set.
abbrev start_game : Database → Database
start_game d = record d {
  applications = record d.applications { transient_statuses = (meta_one, running) ∷ [] };
}

abbrev two_changes : Database
two_changes = sign_at (start_game first)

abbrev signed : DatabaseInterface StoredDatabase
signed = record opened {
  contents = two_changes;
  files = (db_path "/data", stored two_changes) ∷ [];
}

is_changed : change_all kept (start_game ∷ sign_at ∷ []) opened ≡ some signed
unfolding change insert join_path ends_with concat
is_changed = refl

change_then_set_up_example :
    set_up_database kept fine "/data" "7" signed.files
    ≡ some
        (record { path = db_path "/data"; contents = persisted two_changes; files = signed.files })
change_then_set_up_example =
    change_then_set_up kept fine "/data" "7" (λ dir. refl) refl saves start_game (sign_at ∷ [])
      opened signed refl is_changed

-- A library that cannot read the file of the database.
abbrev corrupted : Rustbreak StoredDatabase
corrupted = record kept { load_from_path = λ path files. err "invalid" }

keeps :
    (path other : String) (d : StoredDatabase) (files after : Map String StoredDatabase)
    → corrupted.create_at_path path d files ≡ ok after
    → same path other ≡ false
    → get other after ≡ get other files
keeps path other d files after h apart = ground (arith, get-insert path other d files)

abbrev found : Map String StoredDatabase
found = (db_path "/data", stored first) ∷ []

abbrev fresh : Database
fresh = new_database "/data/games" (some "/data/drop.db.backup-7") "/data/cache"

abbrev recovered : DatabaseInterface StoredDatabase
recovered = record {
  path = "/data/drop.db";
  contents = fresh;
  files = ("/data/drop.db.backup-7", stored first) ∷ ("/data/drop.db", stored fresh) ∷ [];
}

is_recovered : set_up_database corrupted fine "/data" "7" found ≡ some recovered
unfolding set_up_database handle_invalid_database create_dirs get insert remove join_path ends_with
    concat
is_recovered = refl

abbrev reported : DatabaseInterface StoredDatabase
reported = record recovered {
  contents = record fresh { prev_database = none };
  files =
      ("/data/drop.db.backup-7", stored first)
      ∷ ("/data/drop.db", stored (record fresh { prev_database = none }))
      ∷ [];
}

is_reported :
    report_corrupted corrupted (λ path. err "no such path") recovered
    ≡ some (some "/data/drop.db.backup-7", reported)
unfolding report_corrupted change new_database insert
is_reported = refl

set_up_invalid_example :
    (recovered.contents
      ≡ new_database
          (games_base_dir "/data")
          (some (backup_path "/data" "7"))
          (cache_dir_of "/data"))
    × (get (backup_path "/data" "7") recovered.files ≡ some (stored first))
    × (some "/data/drop.db.backup-7"
        ≡ some (shown_as (λ path. err "no such path") (backup_path "/data" "7")))
    × (reported.contents.prev_database ≡ none)
unfolding get join_path ends_with concat
set_up_invalid_example =
    set_up_invalid corrupted fine "/data" "7" (λ dir. refl) refl keeps (λ path. err "no such path")
      (stored first) "invalid" found recovered reported (some "/data/drop.db.backup-7") refl refl
      is_recovered is_reported

-- URIs that are known by their parts.
abbrev by_parts : UriLibrary (Parts String) String
by_parts = record {
  parse =
      λ s. some (record { scheme = some "http"; authority = some "drop"; path_and_query = some s });
  path = λ uri. "/store/1";
  into_parts = λ uri. uri;
  from_parts = λ parts. some parts;
  path_and_query_from_str = λ s. some s;
  to_text = λ uri. elim uri.path_and_query [ none ↦ "" | some s ↦ s ];
}

-- Headers that are set replace those of the same name.
abbrev is_set : List String → Bool
is_set [] = false
is_set (v ∷ vs) = true

abbrev kept_headers : Headers → Headers → Headers
kept_headers after [] = []
kept_headers after ((n, v) ∷ before) =
    let rest = kept_headers after before in
    if is_set (values_of n after) then rest else (n, v) ∷ rest

abbrev replacing : Headers → Headers → Headers
replacing before after = kept_headers after before ++ after

values_of-append :
    (name : String) (a b : Headers) → values_of name (a ++ b) ≡ values_of name a ++ values_of name b
unfolding values_of
values_of-append name [] b = refl
values_of-append name ((n, v) ∷ a) b = ground (arith, values_of-append name a b)

values_of_same :
    (name n : String) (after : Headers)
    → str_eq name n ≡ true
    → values_of n after ≡ values_of name after
values_of_same name n after h = ap (λ x. values_of x after) (sym ((eq_iff name n).0 h))

values_of-kept_headers :
    (name : String) (before after : Headers)
    → values_of name (kept_headers after before)
      ≡ (if is_set (values_of name after) then [] else values_of name before)
unfolding values_of
values_of-kept_headers name [] after = ground arith
values_of-kept_headers name ((n, v) ∷ before) after =
    ground (arith, values_of-kept_headers name before after, values_of_same name n after)

joined_values : (vs ws : List String) → ((if is_set vs then [] else ws) ++ vs) ≡ or_default vs ws
joined_values [] ws = append-nil ws
joined_values (v ∷ vs) ws = refl

replaces :
    (name : String) (before after : Headers)
    → values_of name (replacing before after)
      ≡ or_default (values_of name after) (values_of name before)
replaces name before after =
    values_of-append name (kept_headers after before) after
    ∙ ap (λ vs. vs ++ values_of name after) (values_of-kept_headers name before after)
    ∙ joined_values (values_of name after) (values_of name before)

abbrev asked : Request (Parts String)
asked = record {
  method = "GET";
  uri = record { scheme = some "server"; authority = some ""; path_and_query = some "/store/1" };
  headers = ("accept", "text/html") ∷ [];
  body = [];
}

abbrev token_auth : DatabaseAuth
token_auth = record { private_key = "k"; cert = "c"; client_id = "i"; web_token = some "w" }

abbrev sent : Sent
sent = record {
  method = "GET";
  url = "/store/1?noWrapper=true";
  headers = bearer "w" ∷ ("accept", "text/html") ∷ [];
}

is_sent :
    (serve by_parts replacing default_settings signed_in
      (some token_auth)
      "http://drop"
      asked
      (answered 200 [])).1
    ≡ send sent ∷ []
unfolding serve handle_server_proto server_uri is_whitelisted concat values_of
is_sent = refl

faithful :
    (parts uri : Parts String)
    → by_parts.from_parts parts ≡ some uri
    → ((by_parts.into_parts uri).scheme ≡ parts.scheme)
      × ((by_parts.into_parts uri).authority ≡ parts.authority)
faithful parts uri h = ground arith

-- A request with an authorization of its own goes without the token.
own_authorization :
    values_of "authorization" (replacing (bearer "w" ∷ []) (("authorization", "Basic x") ∷ []))
    ≡ "Basic x" ∷ []
unfolding values_of concat
own_authorization = refl

serve-send_example :
    (is_offline default_settings signed_in ≡ false)
    × (◌≡◌ {A = List Effect} [] [])
    × (is_whitelisted whitelist_prefix (by_parts.path asked.uri) ≡ true)
    × ((token : String) × (web_token_of (some token_auth) ≡ some token)
        × ((name : String)
            → values_of name sent.headers
              ≡ or_default (values_of name asked.headers) (values_of name (bearer token ∷ []))))
    × ((remote uri : Parts String) × (by_parts.parse "http://drop" ≡ some remote)
        × (sent.url ≡ by_parts.to_text uri)
        × (uri.scheme ≡ remote.scheme)
        × (uri.authority ≡ remote.authority))
serve-send_example =
    serve-send by_parts replacing faithful replaces default_settings signed_in (some token_auth)
      "http://drop" asked (answered 200 []) sent [] is_sent

abbrev root_disk : Disks.Disk
root_disk = record { mount_point = "/"; available_space = 1 }

abbrev games_disk : Disks.Disk
games_disk = record { mount_point = "/games"; available_space = 2 }

abbrev disks : List Disks.Disk
disks = root_disk ∷ games_disk ∷ []

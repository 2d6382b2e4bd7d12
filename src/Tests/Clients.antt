-- ===== src/Tests/Clients.antt =====
-- The clients' certificates and the settings, on small inputs.
use drop_app.Prelude.{
  ℕ, ◌≡◌, refl, Bool, true, Option, none, some, List, [], ◌∷◌, get, insert, string_key, ◌==◌,
  if◌then◌else◌,
}
use drop_app.Prelude.Panics.{◌>>=◌}
use drop_app.Database.Models.{Settings, Database, default_settings, new_database}
use drop_app.Remote.Certificates.{
  DirEntry, unopened, unread, bytes, fetch_certificates, add_roots, get_client, get_client_ws,
}
use drop_app.Remote.Certificates.Trust.{get_client-fetch_certificates, trusting}
use drop_app.Commands.Settings.Values.{
  SettingsJson, set_values, update_settings, fetch_settings, fetch_system_data,
}

-- A bundle is its certificates' numbers, after a 1.
abbrev pem : List ℕ → Option (List ℕ)
pem [] = none
pem (b ∷ bs) = if b == 1 then some bs else none

abbrev files : List DirEntry
files = bytes (1 ∷ 5 ∷ 6 ∷ []) ∷ unopened ∷ bytes (2 ∷ []) ∷ bytes (1 ∷ 7 ∷ []) ∷ []

trusted :
    (fetch_certificates pem (some files) >>= get_client some) ≡ some (trusting (5 ∷ 6 ∷ 7 ∷ []))
trusted = get_client-fetch_certificates pem some files

no_directory : fetch_certificates pem none ≡ some []
unfolding fetch_certificates
no_directory = refl

a_directory_inside : (fetch_certificates pem (some (unread ∷ files)) >>= get_client some) ≡ none
a_directory_inside = get_client-fetch_certificates pem some (unread ∷ files)

websocket :
    get_client_ws {Certificate = ℕ} some (5 ∷ [])
    ≡ some (record { roots = 5 ∷ []; rustls = true; http1_only = true })
unfolding add_roots
websocket = refl

-- One setting is enough to see the others stay.
abbrev with_offline : Option Bool → Option Settings
with_offline none = none
with_offline (some b) = some (record default_settings { force_offline = b })

abbrev json : SettingsJson Bool
json = record {
  to_value = λ s. ("forceOffline", s.force_offline) ∷ [];
  from_value = λ m. with_offline (get "forceOffline" m);
}

abbrev fresh : Database
fresh = new_database "/games" none "/cache"

offline_after :
    (fetch_settings (update_settings json (some (("forceOffline", true) ∷ [])) fresh)).force_offline
    ≡ true
unfolding update_settings set_values insert get new_database
offline_after = refl

not_an_object : update_settings json none fresh ≡ fresh
unfolding update_settings
not_an_object = refl

signed_out : fetch_system_data "/data" none fresh ≡ none
unfolding new_database
signed_out = refl

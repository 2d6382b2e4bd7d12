-- ===== src/CloudSaves/Placeholders.antt =====
-- src-tauri/cloud_saves/src/placeholder.rs: the components of a path that stand for directories.
use drop_app.Prelude.{String}

abbrev pub root : String
root = "<root>"

abbrev pub game : String
game = "<game>"

abbrev pub base : String
base = "<base>"

abbrev pub home : String
home = "<home>"

abbrev pub store_user_id : String
store_user_id = "<storeUserId>"

abbrev pub os_user_name : String
os_user_name = "<osUserName>"

abbrev pub win_app_data : String
win_app_data = "<winAppData>"

abbrev pub win_local_app_data : String
win_local_app_data = "<winLocalAppData>"

abbrev pub win_local_app_data_low : String
win_local_app_data_low = "<winLocalAppDataLow>"

abbrev pub win_documents : String
win_documents = "<winDocuments>"

abbrev pub win_public : String
win_public = "<winPublic>"

abbrev pub win_program_data : String
win_program_data = "<winProgramData>"

abbrev pub win_dir : String
win_dir = "<winDir>"

abbrev pub xdg_data : String
xdg_data = "<xdgData>"

abbrev pub xdg_config : String
xdg_config = "<xdgConfig>"

abbrev pub skip : String
skip = "<skip>"

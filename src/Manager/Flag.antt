-- ===== src/Manager/Flag.antt =====
-- src-tauri/download_manager/src/util/download_thread_control_flag.rs
use drop_app.Prelude.{◌≡◌, Bool, true, false, arith}

pub data DownloadThreadControlFlag : Type 0 where
  stop go : DownloadThreadControlFlag

unfoldable pub to_bool : DownloadThreadControlFlag → Bool
to_bool go = true
to_bool stop = false

unfoldable pub from_bool : Bool → DownloadThreadControlFlag
from_bool true = go
from_bool false = stop

-- The atomic Boolean that the threads share.
pub record DownloadThreadControl : Type 0 where
  pub inner : Bool

unfoldable pub new : DownloadThreadControlFlag → DownloadThreadControl
unfolding to_bool
new flag = record { inner = to_bool flag }

unfoldable pub get_flag : DownloadThreadControl → DownloadThreadControlFlag
unfolding from_bool
get_flag c = from_bool c.inner

unfoldable pub set_flag : DownloadThreadControlFlag → DownloadThreadControl → DownloadThreadControl
unfolding to_bool
set_flag flag c = record c { inner = to_bool flag }

-- The flag read is the flag last set.
pub get_flag-set_flag :
    (f : DownloadThreadControlFlag) (c : DownloadThreadControl) → get_flag (set_flag f c) ≡ f
unfolding get_flag set_flag
get_flag-set_flag f c = ground arith

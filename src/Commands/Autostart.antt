-- ===== src/Commands/Autostart.antt =====
-- Starting with the system: the commands of src-tauri/src/client.rs, and
-- src-tauri/client/src/autostart.rs, which src-tauri/src/lib.rs calls at the start.
use drop_app.Prelude.{
  String, ◌≡◌, refl, Bool, true, false, List, [], ◌∷◌, Option, none, some, if◌then◌else◌, arith,
}
use drop_app.Prelude.Outcomes.{Outcome, ok, err}

-- Whether the settings and the system have it enabled.
pub record Autostart : Type 0 where
  pub setting : Bool
  pub system : Bool

-- What the plugin answers: an error of looking, and of enabling or disabling, or none.
pub record Autolaunch : Type 0 where
  pub looked : Option String
  pub changed : Option String

abbrev same_bool : Bool → Bool → Bool
same_bool true b = b
same_bool false true = false
same_bool false false = true

abbrev set_system : Bool → Option String → Autostart → Option String × Autostart
set_system enabled none s = (none, record s { system = enabled })
set_system enabled (some e) s = (some e, s)

abbrev store : Bool → Option String × Autostart → Option String × Autostart
store enabled (none, s) = (none, record s { setting = enabled })
store enabled (some e, s) = (some e, s)

unfoldable pub toggle_autostart : Autolaunch → Bool → Autostart → Option String × Autostart
toggle_autostart manager enabled s = store enabled (set_system enabled manager.changed s)

-- The system is looked at, and brought to what the settings say.
abbrev sync : Option String → Option String → Autostart → Option String × Autostart
sync (some e) changed s = (some e, s)
sync none changed s =
    if same_bool s.setting s.system then (none, s) else set_system s.setting changed s

abbrev answer : Option String → Bool → Outcome String Bool
answer none setting = ok setting
answer (some e) setting = err e

unfoldable pub get_autostart_enabled : Autolaunch → Autostart → Outcome String Bool × Autostart
get_autostart_enabled manager s =
    let (error, s') = sync manager.looked manager.changed s in (answer error s.setting, s')

unfoldable pub sync_autostart_on_startup : Autolaunch → Autostart → Option String × Autostart
sync_autostart_on_startup manager s = sync manager.looked manager.changed s

-- The three operations, and a change of the system by another program.
pub data AutostartStep : Type 0 where
  toggle : Autolaunch → Bool → AutostartStep
  get_enabled : Autolaunch → AutostartStep
  sync_on_startup : Autolaunch → AutostartStep
  elsewhere : Bool → AutostartStep

unfoldable pub step : AutostartStep → Autostart → Autostart
unfolding toggle_autostart get_autostart_enabled sync_autostart_on_startup
step (toggle manager enabled) s = (toggle_autostart manager enabled s).1
step (get_enabled manager) s = (get_autostart_enabled manager s).1
step (sync_on_startup manager) s = (sync_autostart_on_startup manager s).1
step (elsewhere enabled) s = record s { system = enabled }

unfoldable pub run_steps : List AutostartStep → Autostart → Autostart
run_steps [] s = s
run_steps (x ∷ xs) s = run_steps xs (step x s)

-- The value that was toggled to last without an error, or else the one from before.
abbrev pub chosen : AutostartStep → Bool → Bool
chosen (toggle manager enabled) b = elim manager.changed [ none ↦ enabled | some e ↦ b ]
chosen _ b = b

unfoldable pub last_chosen : List AutostartStep → Bool → Bool
last_chosen [] b = b
last_chosen (x ∷ xs) b = last_chosen xs (chosen x b)

step-setting : (x : AutostartStep) (s : Autostart) → (step x s).setting ≡ chosen x s.setting
unfolding step
step-setting x s = ground arith

run_steps-setting :
    (xs : List AutostartStep) (s : Autostart) → (run_steps xs s).setting ≡ last_chosen xs s.setting
unfolding run_steps last_chosen
run_steps-setting [] s = refl
run_steps-setting (x ∷ xs) s = rw (run_steps-setting xs (step x s), step-setting x s) refl

-- Whatever the client and other programs did before, once the start of the client or a look at the
-- settings ends without an error, the system has what the user last chose without an error, and the
-- look answers it.
pub run_steps-synced :
    (xs : List AutostartStep) (s : Autostart) (manager : Autolaunch)
    → manager.looked ≡ none
    → manager.changed ≡ none
    → let s' = run_steps xs s in
      ((sync_autostart_on_startup manager s').1.system ≡ last_chosen xs s.setting)
      × ((get_autostart_enabled manager s').0 ≡ ok (last_chosen xs s.setting))
      × ((get_autostart_enabled manager s').1.system ≡ last_chosen xs s.setting)
unfolding sync_autostart_on_startup get_autostart_enabled
run_steps-synced xs s manager l c = (
  ground (arith, run_steps-setting xs s),
  ground (arith, run_steps-setting xs s),
  ground (arith, run_steps-setting xs s),
)

-- ===== src/Data/File.antt =====
-- The file of data/store.py on disk: `_read_json`, `_write_json_atomic` and the operations of
-- ControlPlaneStore over them. What each call of the operating system gives is an argument, and so
-- are the JSON text and the shape of the records, which are json's and pydantic's. Between reading
-- and writing nobody else writes: the store's lock is held.
pub mod Atomic
pub mod Reload
use vpn_control_panel.Prelude.{
  List, ◌≡◌, Bool, true, false, Option, none, some, Result, ok, err, ◌>>=◌, map_result,
  if◌then◌else◌,
}
use vpn_control_panel.Text.{Str}
use vpn_control_panel.Json.{Json}
use vpn_control_panel.Regex.{Regex}
use vpn_control_panel.Data.Models.{ClientRecord, SubscriptionMetadata, ControlPlaneState}
use vpn_control_panel.Data.Errors.{ValidationError}
use vpn_control_panel.Data.Validation.{validate_client}
use vpn_control_panel.Data.Store.{load_state, save_clients, save_subscription}
use vpn_control_panel.Data.Templates.{TemplateError, resolve_env_templates}

-- data.json, and the temporary file beside it; none where there is no file.
pub record Disk : Type 0 where
  pub target : Option Str
  pub temp : Option Str

-- How the calls of one write go. A write that fails leaves a part of the text.
pub data Written : Type 0 where
  whole : Written
  partly : Str → Written

pub record Os : Type 0 where
  pub makes_parent : Bool
  pub creates_temp : Bool
  -- writing, flushing and syncing the temporary file
  pub writes_temp : Written
  pub replaces : Bool
  pub writes_target : Written
  -- opening the directory and syncing it; there it is not an error if it cannot be opened
  pub opens_directory : Bool
  pub syncs_directory : Bool

pub data FileError : Type 0 where
  os_error : FileError

abbrev written_text : Written → Str → Str
written_text whole s = s
written_text (partly part) s = part

-- `_fsync_directory`
unfoldable pub fsync_directory : Os → Result FileError (Unit {0})
fsync_directory os =
    if os.opens_directory then (if os.syncs_directory then ok tt else err os_error) else ok tt

-- The fallback where the replacement fails: a failure there removes the temporary file, a success
-- leaves it.
abbrev pub write_directly : Os → Str → Disk → Written → Result FileError (Unit {0}) × Disk
write_directly os serialized disk (partly part) =
    (err os_error, record { target = some part; temp = none })
write_directly os serialized disk whole =
    (fsync_directory os, record { target = some serialized; temp = disk.temp })

abbrev pub replace_target : Os → Str → Disk → Bool → Result FileError (Unit {0}) × Disk
replace_target os serialized disk true =
    (fsync_directory os, record { target = disk.temp; temp = none })
replace_target os serialized disk false = write_directly os serialized disk os.writes_target

abbrev pub write_temp : Os → Str → Disk → Written → Result FileError (Unit {0}) × Disk
write_temp os serialized disk (partly part) = (err os_error, record disk { temp = none })
write_temp os serialized disk whole =
    replace_target os serialized (record disk { temp = some serialized }) os.replaces

abbrev pub create_temp : Os → Str → Disk → Bool → Result FileError (Unit {0}) × Disk
create_temp os serialized disk false = (err os_error, disk)
create_temp os serialized disk true = write_temp os serialized disk os.writes_temp

abbrev pub make_parent : Os → Str → Disk → Bool → Result FileError (Unit {0}) × Disk
make_parent os serialized disk false = (err os_error, disk)
make_parent os serialized disk true = create_temp os serialized disk os.creates_temp

-- `_write_json_atomic`, of a text that is serialised
unfoldable pub write_json_atomic : Os → Str → Disk → Result FileError (Unit {0}) × Disk
unfolding fsync_directory
write_json_atomic os serialized disk = make_parent os serialized disk os.makes_parent

pub data StoreError : Type 0 where
  unreadable invalid_json : StoreError
  template : TemplateError → StoreError
  validation : ValidationError → StoreError
  file : FileError → StoreError

-- json and pydantic: `dump` is `model_dump` by alias and without nulls.
pub record Format : Type 0 where
  pub loads : Str → Option Json
  pub dumps : Json → Str
  pub shape : Json → Result ValidationError ControlPlaneState
  pub dump : ControlPlaneState → Json

abbrev pub as_validation {ℓ} : {A : Type ℓ} → Result ValidationError A → Result StoreError A
as_validation (ok a) = ok a
as_validation (err e) = err (validation e)

abbrev as_template {ℓ} : {A : Type ℓ} → Result TemplateError A → Result StoreError A
as_template (ok a) = ok a
as_template (err e) = err (template e)

module _ (format : Format) (environ : Str → Option Str) (regex : Regex) where
  abbrev pub parsed : Option Json → Result StoreError Json
  parsed none = err invalid_json
  parsed (some j) = as_template (resolve_env_templates environ j)

  abbrev pub readable : Option Str → Result StoreError Json
  readable none = err unreadable
  readable (some raw) = parsed (format.loads raw)

  -- `_read_json`
  unfoldable pub read_json : Disk → Result StoreError Json
  unfolding resolve_env_templates
  read_json disk = readable disk.target

  -- The records of the file.
  unfoldable pub read_records : Disk → Result StoreError ControlPlaneState
  unfolding read_json
  read_records disk = read_json disk >>= λ j. as_validation (format.shape j)

  -- `load_state` of the file
  unfoldable pub load_file : Disk → Result StoreError ControlPlaneState
  unfolding read_records load_state
  load_file disk = read_records disk >>= λ raw. as_validation (load_state regex raw)

  abbrev as_file : Result FileError (Unit {0}) → Result StoreError (Unit {0})
  as_file (ok u) = ok u
  as_file (err e) = err (file e)

  abbrev pub write_state :
      Os → Disk → Result StoreError ControlPlaneState → Result StoreError (Unit {0}) × Disk
  write_state os disk (err e) = (err e, disk)
  write_state os disk (ok s) =
      let (r, disk') = write_json_atomic os (format.dumps (format.dump s)) disk in
      (as_file r, disk')

  -- `save_clients` of the file: the clients are validated before the file is read.
  unfoldable pub save_clients_file :
      Os → List ClientRecord → Disk → Result StoreError (Unit {0}) × Disk
  unfolding read_records save_clients write_json_atomic
  save_clients_file os clients disk = write_state os disk (
      as_validation (map_result validate_client clients) >>= λ validated.
      read_records disk >>= λ raw. as_validation (save_clients regex clients raw))

  -- `save_subscription` of the file
  unfoldable pub save_subscription_file :
      Os → SubscriptionMetadata → Disk → Result StoreError (Unit {0}) × Disk
  unfolding read_records save_subscription write_json_atomic
  save_subscription_file os subscription disk =
      write_state os disk
        (read_records disk >>= λ raw. as_validation (save_subscription regex subscription raw))

-- ===== src/Tests/FileTests.antt =====
-- Examples on the file of data.json.
use vpn_control_panel.Prelude.{
  List, ◌≡◌, refl, sym, ap, ◌∙◌, ◌⊎◌, true, false, Option, none, some, Result, ok, err, map_result,
  ◌==◌, list_eq, nat_eq, if◌then◌else◌,
}
use vpn_control_panel.Text.{Str, codes, strip, strip_by, lstrip, rstrip, is_space}
use vpn_control_panel.Json.{Json, null, text, array, nil, cons}
use vpn_control_panel.Data.Models.{ClientRecord, ControlPlaneState}
use vpn_control_panel.Data.Reference.{parse_external_subscription_ref}
use vpn_control_panel.Data.Validation.{
  validate_state, validate_inbound_tags, validate_node, validate_node_inbound,
  validate_external_inbound, validate_external_subscription, validate_client, validate_name,
  validate_filter, strip_nonempty, strip_optional, strip_tags, normalize_base_path, declare_tags,
  declare, declare_subscription, validate_reference, validate_tag_list, validate_client_tags,
  check_tag,
}
use vpn_control_panel.Data.Store.{load_state, save_clients, save_subscription}
use vpn_control_panel.Data.Templates.{resolve_env_templates}
use vpn_control_panel.Data.File.{
  Disk, Os, whole, os_error, Format, read_records, read_json, load_file, save_clients_file,
  save_subscription_file, write_json_atomic, fsync_directory,
}
use vpn_control_panel.Data.File.Atomic.{write_json_atomic-target}
use vpn_control_panel.Data.File.Reload.{
  load_file-save_clients_file, load_file-save_subscription_file,
}
use vpn_control_panel.Tests.DataTests.{saved}
use vpn_control_panel.Data.Errors.{ValidationError}
use vpn_control_panel.Tests.Fixtures.{plain_regex, state, metadata}

-- Every call works.
abbrev pub os : Os
os = record {
  makes_parent = true;
  creates_temp = true;
  writes_temp = whole;
  replaces = true;
  writes_target = whole;
  opens_directory = true;
  syncs_directory = true;
}

abbrev disk : Disk
disk = record { target = some (codes "old"); temp = none }

write_json_atomic-target_example :
    (((write_json_atomic os (codes "new") disk).0 ≡ ok tt)
      × ((write_json_atomic os (codes "new") disk).1.target ≡ some (codes "new")))
    ⊎ (((write_json_atomic os (codes "new") disk).0 ≡ err os_error)
        × (((write_json_atomic os (codes "new") disk).1.target ≡ some (codes "old"))
            ⊎ (((write_json_atomic os (codes "new") disk).1.target ≡ some (codes "new"))
                ⊎ (true ≡ false))))
write_json_atomic-target_example = write_json_atomic-target os (codes "new") disk

-- The one variable.
abbrev environ : Str → Option Str
environ name = if name == codes "KEY" then some (codes "v") else none

abbrev templates : Json
templates = array (cons (text (codes "${{ env.KEY }}")) (cons (text (codes "x")) nil))

-- A format that knows one state.
abbrev format : Format
format = record {
  loads = λ s. some null;
  dumps = λ j. codes "{}";
  shape = λ j. ok state;
  dump = λ s. null;
}

faithful :
    (raw s : ControlPlaneState)
    → read_records format environ plain_regex disk ≡ ok raw
    → save_clients plain_regex state.clients raw ≡ ok s
    → (format.loads (format.dumps (format.dump s)) ≡ some (format.dump s))
      × (format.shape (format.dump s) ≡ ok s)
      × (resolve_env_templates environ (format.dump s) ≡ ok (format.dump s))
unfolding read_records read_json resolve_env_templates
faithful raw s read stored =
    let same : state ≡ raw = cc in
    let again : save_clients plain_regex state.clients raw ≡ ok state = rw (← same) saved in
    let e : ◌≡◌ {A = Result ValidationError ControlPlaneState} (ok state) (ok s) =
      sym again ∙ stored in
    let unchanged : state ≡ s = cc in (refl, ap ok unchanged, refl)

returned : (save_clients_file format environ plain_regex os state.clients disk).0 ≡ ok tt
unfolding save_clients_file read_records read_json resolve_env_templates write_json_atomic
    fsync_directory save_clients load_state validate_state validate_inbound_tags validate_node
    validate_node_inbound validate_external_inbound validate_external_subscription validate_client
    validate_name validate_filter strip_nonempty strip_optional strip_tags normalize_base_path
    declare_tags declare declare_subscription validate_reference validate_tag_list
    validate_client_tags check_tag parse_external_subscription_ref strip strip_by lstrip rstrip
    is_space
returned = refl

load_file-save_clients_file_example :
    (old : ControlPlaneState) × (validated : List ClientRecord) × (load_file format environ
        plain_regex disk
      ≡ ok old)
    × (map_result validate_client state.clients ≡ ok validated)
    × (load_file format environ plain_regex
          (save_clients_file format environ plain_regex os state.clients disk).1
        ≡ ok (record old { clients = validated }))
load_file-save_clients_file_example =
    load_file-save_clients_file format environ plain_regex os state.clients disk faithful returned

metadata_saved : save_subscription plain_regex metadata state ≡ ok state
unfolding save_subscription load_state validate_state validate_inbound_tags validate_node
    validate_node_inbound validate_external_inbound validate_external_subscription validate_client
    validate_name validate_filter strip_nonempty strip_optional strip_tags normalize_base_path
    declare_tags declare declare_subscription validate_reference validate_tag_list
    validate_client_tags check_tag parse_external_subscription_ref strip strip_by lstrip rstrip
    is_space
metadata_saved = refl

metadata_faithful :
    (raw s : ControlPlaneState)
    → read_records format environ plain_regex disk ≡ ok raw
    → save_subscription plain_regex metadata raw ≡ ok s
    → (format.loads (format.dumps (format.dump s)) ≡ some (format.dump s))
      × (format.shape (format.dump s) ≡ ok s)
      × (resolve_env_templates environ (format.dump s) ≡ ok (format.dump s))
unfolding read_records read_json resolve_env_templates
metadata_faithful raw s read stored =
    let same : state ≡ raw = cc in
    let again : save_subscription plain_regex metadata raw ≡ ok state =
      rw (← same) metadata_saved in
    let e : ◌≡◌ {A = Result ValidationError ControlPlaneState} (ok state) (ok s) =
      sym again ∙ stored in
    let unchanged : state ≡ s = cc in (refl, ap ok unchanged, refl)

metadata_returned : (save_subscription_file format environ plain_regex os metadata disk).0 ≡ ok tt
unfolding save_subscription_file read_records read_json resolve_env_templates write_json_atomic
    fsync_directory save_subscription load_state validate_state validate_inbound_tags validate_node
    validate_node_inbound validate_external_inbound validate_external_subscription validate_client
    validate_name validate_filter strip_nonempty strip_optional strip_tags normalize_base_path
    declare_tags declare declare_subscription validate_reference validate_tag_list
    validate_client_tags check_tag parse_external_subscription_ref strip strip_by lstrip rstrip
    is_space
metadata_returned = refl

load_file-save_subscription_file_example :
    (old : ControlPlaneState) × (load_file format environ plain_regex disk ≡ ok old)
    × (load_file format environ plain_regex
          (save_subscription_file format environ plain_regex os metadata disk).1
        ≡ ok (record old { subscription = metadata }))
load_file-save_subscription_file_example =
    load_file-save_subscription_file format environ plain_regex os metadata disk metadata_faithful
      metadata_returned

-- ===== src/Provisioning/RunExamples.antt =====
-- Examples of runs that interleave: the run 0 of a client that data.json has.
use vpn_control_panel.Prelude.{
  ℕ, [], ◌∷◌, ◌≡◌, ◌≢◌, arith, refl, Subset, true, false, ok, nat_eq, list_eq,
}
use vpn_control_panel.Text.{codes, strip, strip_by, lstrip, rstrip, is_space}
use vpn_control_panel.Data.Models.{ControlPlaneState}
use vpn_control_panel.Data.Validation.{
  validate_state, validate_inbound_tags, validate_node, validate_node_inbound,
  validate_external_inbound, validate_external_subscription, validate_client, validate_name,
  validate_filter, strip_nonempty, strip_optional, strip_tags, normalize_base_path, declare_tags,
  declare, declare_subscription, validate_reference, validate_tag_list, validate_client_tags,
  check_tag,
}
use vpn_control_panel.Data.Reference.{parse_external_subscription_ref}
use vpn_control_panel.Data.Store.{load_state, save_clients}
use vpn_control_panel.Provisioning.{
  persist, persisted_record, replace_client, final_sub_id, legacy_sub_id, record_for,
}
use vpn_control_panel.Provisioning.Runs.{
  Call, key, client_lock, System, waiting, inside, done, move, mark, get_lock, enter, finish,
  initial, Reach, start, later,
}
use vpn_control_panel.Provisioning.Runs.Locks.{runs_exclude}
use vpn_control_panel.Provisioning.Runs.Kept.{ids, runs_keep_clients}
use vpn_control_panel.Tests.DataTests.{loaded}
use vpn_control_panel.Tests.Fixtures.{plain_regex, state}

abbrev calls : ℕ → Call
calls i = record { client_id = codes " 5"; comment = codes "c"; fresh = codes "n" }

abbrev next_state : ControlPlaneState
unfolding persisted_record final_sub_id legacy_sub_id
next_state = record state { clients = record_for state (codes "5") (codes "c") (codes "n") ∷ [] }

key_five : key (calls 0) ≡ codes "5"
unfolding key strip strip_by lstrip rstrip is_space
key_five = refl

-- The system with run 0 at its lock, inside it, and after it; run 1 is of the same client.
abbrev at_lock : System
at_lock = record (initial plain_regex calls state) {
  locks = record { client_locks = (codes "5", 0) ∷ []; made = 1 };
  pc = move (initial plain_regex calls state).pc 0 (waiting 0);
}

abbrev entered : System
entered = record at_lock {
  locked = mark at_lock.locked 0 true;
  pc = move at_lock.pc 0 (inside 0 state);
}

abbrev ended : System
ended = record entered {
  file = next_state;
  locked = mark entered.locked 0 false;
  pc = move entered.pc 0 done;
}

reach_entered : Reach plain_regex calls state entered
unfolding client_lock key strip strip_by lstrip rstrip is_space
reach_entered = later (later start (get_lock 0 refl refl)) (enter 0 0 state refl refl loaded)

-- Run 1 waits for the lock that run 0 is inside of.
abbrev both : System
both = record entered { pc = move entered.pc 1 (waiting 0) }

reach_both : Reach plain_regex calls state both
unfolding client_lock key strip strip_by lstrip rstrip is_space
reach_both = later reach_entered (get_lock 1 refl refl)

persisted : persist plain_regex state (key (calls 0)) (codes "c") (codes "n") state ≡ ok next_state
unfolding key persist persisted_record replace_client final_sub_id legacy_sub_id load_state
    save_clients validate_state validate_inbound_tags validate_node validate_node_inbound
    validate_external_inbound validate_external_subscription validate_client validate_name
    validate_filter strip_nonempty strip_optional strip_tags normalize_base_path declare_tags
    declare declare_subscription validate_reference validate_tag_list validate_client_tags check_tag
    parse_external_subscription_ref strip strip_by lstrip rstrip is_space
persisted = refl

reach_ended : Reach plain_regex calls state ended
reach_ended = later reach_entered (finish 0 0 state next_state refl persisted)

next_loads : load_state plain_regex next_state ≡ ok next_state
unfolding key persist persisted_record replace_client final_sub_id legacy_sub_id load_state
    save_clients validate_state validate_inbound_tags validate_node validate_node_inbound
    validate_external_inbound validate_external_subscription validate_client validate_name
    validate_filter strip_nonempty strip_optional strip_tags normalize_base_path declare_tags
    declare declare_subscription validate_reference validate_tag_list validate_client_tags check_tag
    parse_external_subscription_ref strip strip_by lstrip rstrip is_space
next_loads = refl

runs_exclude_example : both.pc 1 ≢ inside 0 state
runs_exclude_example =
    runs_exclude plain_regex calls 0 1 0 0 state state reach_both refl (λ e. ground arith) refl

runs_keep_clients_example : Subset (ids state.clients) (ids next_state.clients)
runs_keep_clients_example = runs_keep_clients plain_regex calls loaded reach_ended next_loads

-- ===== src/Data/File/Reload.antt =====
-- What was saved to the file is what the file loads to, of data/store.py.
use vpn_control_panel.Prelude.{
  List, ◌≡◌, refl, sym, ap, ◌∙◌, inl, inr, Option, some, Result, ok, err, bind_ok, map_result,
}
use vpn_control_panel.Text.{Str}
use vpn_control_panel.Regex.{Regex}
use vpn_control_panel.Data.Models.{ClientRecord, SubscriptionMetadata, ControlPlaneState}
use vpn_control_panel.Data.Errors.{ValidationError}
use vpn_control_panel.Data.Validation.{validate_client}
use vpn_control_panel.Data.Store.{load_state, save_clients, save_subscription}
use vpn_control_panel.Data.Store.Saving.{load-save_clients, load-save_subscription}
use vpn_control_panel.Data.Templates.{resolve_env_templates}
use vpn_control_panel.Data.File.{
  Disk, Os, os_error, StoreError, file, Format, as_validation, write_state, read_json, read_records,
  load_file, save_clients_file, save_subscription_file,
}
use vpn_control_panel.Data.File.Atomic.{write_json_atomic-target}

module _ (format : Format) (environ : Str → Option Str) (regex : Regex) where
  as_validation_ok {ℓ} :
      {A : Type ℓ} (r : Result ValidationError A) {a : A} → as_validation r ≡ ok a → r ≡ ok a
  as_validation_ok (ok x) h = let same : x ≡ _ = cc in rw same refl
  as_validation_ok (err e) h = cc

  -- A write that returns wrote the text of the state.
  write_state_ok :
      (os : Os) (disk : Disk) (r : Result StoreError ControlPlaneState)
      → (write_state format environ regex os disk r).0 ≡ ok tt
      → (s : ControlPlaneState) × (r ≡ ok s)
        × ((write_state format environ regex os disk r).1.target
            ≡ some (format.dumps (format.dump s)))
  write_state_ok os disk (err e) h = cc
  write_state_ok os disk (ok s) h =
      elim (write_json_atomic-target os (format.dumps (format.dump s)) disk) [
        | inl (returned, e) ↦ (s, refl, e)
        | inr (raised, e) ↦
            let h' : ◌≡◌ {A = Result StoreError (Unit {0})} (err (file os_error)) (ok tt) =
              rw raised at h in
            cc
      ]

  -- A file with the text of a state without templates that validates to itself.
  load_file_written :
      (s : ControlPlaneState) (disk : Disk)
      → format.loads (format.dumps (format.dump s)) ≡ some (format.dump s)
      → format.shape (format.dump s) ≡ ok s
      → resolve_env_templates environ (format.dump s) ≡ ok (format.dump s)
      → load_state regex s ≡ ok s
      → disk.target ≡ some (format.dumps (format.dump s))
      → load_file format environ regex disk ≡ ok s
  unfolding load_file read_records read_json
  load_file_written s disk loads shape plain valid written =
      rw (written, loads, plain, shape, valid) refl

  -- Saving clients that returns leaves a file that loads to the records before, as they load, with
  -- the validated new clients, provided that the records it wrote have no text that is a template,
  -- and that json and pydantic read what they wrote.
  pub load_file-save_clients_file :
      (os : Os) (clients : List ClientRecord) (disk : Disk)
      → ((raw s : ControlPlaneState)
          → read_records format environ regex disk ≡ ok raw
          → save_clients regex clients raw ≡ ok s
          → (format.loads (format.dumps (format.dump s)) ≡ some (format.dump s))
            × (format.shape (format.dump s) ≡ ok s)
            × (resolve_env_templates environ (format.dump s) ≡ ok (format.dump s)))
      → (save_clients_file format environ regex os clients disk).0 ≡ ok tt
      → (old : ControlPlaneState) × (validated : List ClientRecord) × (load_file format environ
            regex disk
          ≡ ok old)
        × (map_result validate_client clients ≡ ok validated)
        × (load_file format environ regex (save_clients_file format environ regex os clients disk).1
            ≡ ok (record old { clients = validated }))
  unfolding save_clients_file load_file
  load_file-save_clients_file os clients disk faithful h =
      let (s, saved, written) = write_state_ok os disk _ h in
      bind_ok (as_validation (map_result validate_client clients)) _ saved λ checked c k.
        bind_ok (read_records format environ regex disk) _ k λ raw read l.
          let stored = as_validation_ok (save_clients regex clients raw) l in
          let (old, validated, loaded, valid, same, again) =
            load-save_clients regex clients raw s stored in
          let (loads, shape, plain) = faithful raw s read stored in
          let after : load_file format environ regex
                (save_clients_file format environ regex os clients disk).1
              ≡ ok s =
            load_file_written s (save_clients_file format environ regex os clients disk).1 loads
              shape plain again written in
          (old, validated, rw (read, loaded) refl, valid, after ∙ ap ok same)

  -- Saving metadata that returns leaves a file that loads to the records before, as they load, with
  -- the new metadata, provided that the records it wrote have no text that is a template, and that
  -- json and pydantic read what they wrote.
  pub load_file-save_subscription_file :
      (os : Os) (metadata : SubscriptionMetadata) (disk : Disk)
      → ((raw s : ControlPlaneState)
          → read_records format environ regex disk ≡ ok raw
          → save_subscription regex metadata raw ≡ ok s
          → (format.loads (format.dumps (format.dump s)) ≡ some (format.dump s))
            × (format.shape (format.dump s) ≡ ok s)
            × (resolve_env_templates environ (format.dump s) ≡ ok (format.dump s)))
      → (save_subscription_file format environ regex os metadata disk).0 ≡ ok tt
      → (old : ControlPlaneState) × (load_file format environ regex disk ≡ ok old)
        × (load_file format environ regex
              (save_subscription_file format environ regex os metadata disk).1
            ≡ ok (record old { subscription = metadata }))
  unfolding save_subscription_file load_file save_subscription
  load_file-save_subscription_file os metadata disk faithful h =
      let (s, saved, written) = write_state_ok os disk _ h in
      bind_ok (read_records format environ regex disk) _ saved λ raw read k.
        let stored = as_validation_ok (save_subscription regex metadata raw) k in
        bind_ok (load_state regex raw) _ stored λ old l m.
          let (new, again) = load-save_subscription regex metadata raw old l in
          let q : ◌≡◌ {A = Result ValidationError ControlPlaneState} (ok s)
              (ok (record old { subscription = metadata })) =
            sym stored ∙ new in
          let same : s ≡ record old { subscription = metadata } = cc in
          let (loads, shape, plain) = faithful raw s read stored in
          let valid : load_state regex s ≡ ok s = rw same again in
          let after : load_file format environ regex
                (save_subscription_file format environ regex os metadata disk).1
              ≡ ok s =
            load_file_written s (save_subscription_file format environ regex os metadata disk).1
              loads shape plain valid written in
          (old, rw (read, l) refl, after ∙ ap ok same)

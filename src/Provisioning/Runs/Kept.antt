-- ===== src/Provisioning/Runs/Kept.antt =====
-- No order of runs loses a client that data.json had at the start.
use vpn_control_panel.Prelude.{
  ℕ, List, [], ◌∷◌, ◌++◌, ◌≡◌, ◌≢◌, refl, sym, ◌∙◌, ap, inl, inr, Bool, true, not, Result, ok,
  arith, Bool-cases, ◌==◌, nat_eq, list_eq, contains, filter, map, map_result, Subset, list_beq_iff,
  bind_ok, raise_if_ok, option_result,
}
use vpn_control_panel.Text.{Str, codes, strip, strip_idem, is_empty}
use vpn_control_panel.Regex.{Regex}
use vpn_control_panel.Data.Models.{ClientRecord, ControlPlaneState, SubscriptionMetadata}
use vpn_control_panel.Data.Errors.{ValidationError, too_short}
use vpn_control_panel.Data.Validation.{validate_client, strip_nonempty, strip_optional, strip_tags}
use vpn_control_panel.Data.Validation.Stable.{IsNormal-of_valid}
use vpn_control_panel.Data.Store.{load_state, save_clients, save_subscription}
use vpn_control_panel.Data.Store.Saving.{load-save_clients, load-save_subscription}
use vpn_control_panel.Provisioning.{persist, replace_client, record_for, existing_record}
use vpn_control_panel.Provisioning.Records.{from_store_ok, persisted_id}
use vpn_control_panel.Provisioning.Runs.Locks.{moved}
use vpn_control_panel.Provisioning.Runs.{
  Call, key, key_of, client_lock, Pc, waiting, inside, done, failed, System, move, refuse, get_lock,
  enter, load_failed, give_up, finish, save_failed, edit, Reach, start, later,
}

abbrev pub ids : List ClientRecord → List Str
ids clients = map (λ c. c.id) clients

-- A check that leaves the elements as they are also leaves the elements of a part of the list.
map_result-filter {ℓ κ} :
    {E : Type ℓ} {A : Type κ} (f : A → Result E A) (p : A → Bool) (xs : List A)
    → map_result f xs ≡ ok xs
    → map_result f (filter p xs) ≡ ok (filter p xs)
map_result-filter f p [] h = refl
map_result-filter f p (x ∷ xs) h = bind_ok (f x) _ h λ y fy h1.
    bind_ok (map_result f xs) _ h1 λ ys fys h2.
      let same : y ≡ x = cc in
      let rest : ys ≡ xs = cc in
      elim (Bool-cases (p x)) [
        | inl kept ↦ rw (kept, fy, map_result-filter f p xs (fys ∙ ap ok rest), same) refl
        | inr dropped ↦ rw dropped (map_result-filter f p xs (fys ∙ ap ok rest))
      ]

map_result-last {ℓ κ} :
    {E : Type ℓ} {A : Type κ} (f : A → Result E A) (xs : List A) (r : A) (out : List A)
    → map_result f xs ≡ ok xs
    → map_result f (xs ++ (r ∷ [])) ≡ ok out
    → (r' : A) × (f r ≡ ok r') × (out ≡ xs ++ (r' ∷ []))
map_result-last f [] r out g h = bind_ok (f r) _ h λ r' fr h1. (r', fr, cc)
map_result-last f (x ∷ xs) r out g h = bind_ok (f x) _ g λ y fy g1.
    bind_ok (map_result f xs) _ g1 λ ys fys g2. bind_ok (f x) _ h λ z fz h1.
      bind_ok (map_result f (xs ++ (r ∷ []))) _ h1 λ zs fzs h2.
        let rest : ys ≡ xs = cc in
        let (r', fr, e) = map_result-last f xs r zs (fys ∙ ap ok rest) fzs in (r', fr, cc)

last_id :
    (clients : List ClientRecord) (r : ClientRecord) (a : Str)
    → r.id ≡ a
    → contains (ids (clients ++ (r ∷ []))) a ≡ true
last_id [] r a h = ground (arith, list_beq_iff r.id a)
last_id (c ∷ cs) r a h = ground (arith, last_id cs r a h)

-- Replacing a client by one of the same id keeps all ids.
replaced_ids :
    (clients : List ClientRecord) (id : Str) (r : ClientRecord)
    → r.id ≡ id
    → Subset (ids clients) (ids (filter (λ c. not (c.id == id)) clients ++ (r ∷ [])))
replaced_ids [] id r same a h = cc
replaced_ids (c ∷ cs) id r same a h = elim (Bool-cases (contains (ids cs) a)) [
  | inl after ↦ ground (arith, list_beq_iff c.id id, replaced_ids cs id r same a after)
  | inr never ↦
      let here : c.id ≡ a = ground (arith, list_beq_iff c.id a) in
      elim (Bool-cases (c.id == id)) [
        | inr other ↦ ground (arith, list_beq_iff c.id a)
        | inl own ↦
            let is_id : r.id ≡ a = same ∙ (sym ((list_beq_iff c.id id).0 own) ∙ here) in
            rw own (last_id (filter (λ d. not (d.id == id)) cs) r a is_id)
      ]
]

-- Validation of a client strips its id.
validate_client-id : (r r' : ClientRecord) → validate_client r ≡ ok r' → r'.id ≡ strip r.id
unfolding validate_client strip_nonempty
validate_client-id x y h = raise_if_ok (is_empty x.id) (too_short (codes "id")) _ h λ a h1.
    bind_ok (strip_nonempty x.id (codes "identifier")) _ h1 λ id p h2.
      bind_ok (strip_optional x.telegram_id (codes "identifier")) _ h2 λ telegram_id q h3.
        bind_ok (strip_optional x.sub_id (codes "identifier")) _ h3 λ sub_id r h4.
          bind_ok (strip_optional x.legacy_sub_id (codes "identifier")) _ h4 λ legacy t h5.
            bind_ok (option_result strip_tags x.inbound_tags) _ h5 λ tags u h6.
              bind_ok (option_result strip_tags x.abroad_inbound_tags) _ h6 λ abroad v h7.
                raise_if_ok (is_empty (strip x.id)) _ _ p λ full done.
                  let stripped : id ≡ strip x.id = cc in
                  let e : record x {
                    id = id;
                    telegram_id = telegram_id;
                    sub_id = sub_id;
                    legacy_sub_id = legacy;
                    inbound_tags = tags;
                    abroad_inbound_tags = abroad;
                  }
                      ≡ y =
                    cc in
                  rw (← e) stripped

module _ (regex : Regex) where
  -- A run that writes keeps every client that it loaded, and what it writes loads as it is.
  persist_keeps :
      (origin s file file' : ControlPlaneState) (id comment fresh : Str)
      → load_state regex origin ≡ ok s
      → strip id ≡ id
      → persist regex s id comment fresh file ≡ ok file'
      → Subset (ids s.clients) (ids file'.clients) × (load_state regex file' ≡ ok file')
  unfolding persist load_state replace_client
  persist_keeps origin s file file' id comment fresh origin_loads stripped h =
      let r = record_for s id comment fresh in
      let (old, validated, loaded, valid, same, again) =
        load-save_clients regex (replace_client s.clients r) file file'
          (from_store_ok (save_clients regex (replace_client s.clients r) file) h) in
      let (n, fits) = IsNormal-of_valid regex origin s origin_loads in
      let kept = filter (λ (c : ClientRecord). not (c.id == r.id)) s.clients in
      let own : r.id ≡ id = persisted_id (existing_record s id) id comment _ in
      let (r', fr, e) =
        map_result-last validate_client kept r validated
          (map_result-filter validate_client _ s.clients n.clients) valid in
      let named : r'.id ≡ r.id =
        validate_client-id r r' fr ∙ (ap strip own ∙ (stripped ∙ sym own)) in
      (rw (same, e) (replaced_ids s.clients r.id r' named), again)

  edited :
      (metadata : SubscriptionMetadata) (file file' : ControlPlaneState)
      → save_subscription regex metadata file ≡ ok file'
      → (old : ControlPlaneState) × (load_state regex file ≡ ok old)
        × (file' ≡ record old { subscription = metadata })
        × (load_state regex file' ≡ ok file')
  unfolding save_subscription
  edited metadata file file' h = bind_ok (load_state regex file) _ h λ old l next.
      let (saved, again) = load-save_subscription regex metadata file old l in
      let e : file' ≡ record old { subscription = metadata } =
        let q : ◌≡◌ {A = Result ValidationError ControlPlaneState} (ok file')
            (ok (record old { subscription = metadata })) =
          sym h ∙ saved in
        cc in
      (old, l, e, rw e again)

  module _ (calls : ℕ → Call) (base : List Str) where
    -- The clients are in what data.json loads to, and in what the runs inside have loaded.
    record IsKept (file : ControlPlaneState) (pc : ℕ → Pc) : Type 0 where
      pub stored :
          (old : ControlPlaneState) → load_state regex file ≡ ok old → Subset base (ids old.clients)
      pub known :
          (i lock : ℕ) (t : ControlPlaneState)
          → pc i ≡ inside lock t
          → Subset base (ids t.clients)
            × ((origin : ControlPlaneState) × (load_state regex origin ≡ ok t))

    -- A run goes outside, and data.json stays.
    Kept-outside :
        (file : ControlPlaneState) (pc : ℕ → Pc) (i : ℕ) (p : Pc)
        → IsKept file pc
        → ((lock : ℕ) (t : ControlPlaneState) → p ≢ inside lock t)
        → IsKept file (move pc i p)
    Kept-outside file pc i p k out = record {
      stored = k.stored;
      known = λ j lock t h. elim (moved pc i j p (inside lock t) h) [
        | inl (same, q) ↦ absurd (out lock t q)
        | inr (ne, q) ↦ k.known j lock t q
      ];
    }

    kept :
        {file : ControlPlaneState} {s : System}
        → ((old : ControlPlaneState)
            → load_state regex file ≡ ok old
            → Subset base (ids old.clients))
        → Reach regex calls file s
        → IsKept s.file s.pc
    unfolding key
    kept first start = record { stored = first; known = λ i lock t h. cc }
    kept first (later r (refuse i h e)) = Kept-outside _ _ i failed (kept first r) λ l t g. cc
    kept first (later r (load_failed i lock e h g f)) =
        Kept-outside _ _ i failed (kept first r) λ l t g. cc
    kept first (later r (give_up i lock loaded h)) =
        Kept-outside _ _ i failed (kept first r) λ l t g. cc
    kept first (later r (save_failed i lock loaded e h g)) =
        Kept-outside _ _ i failed (kept first r) λ l t g. cc
    kept first (later {s} r (get_lock i h e)) =
        Kept-outside _ _ i (waiting (client_lock (key_of regex calls i) s.locks).0) (kept first r)
          λ l t g. cc
    kept first (later {s} r (enter i lock loaded h free g)) =
        let k = kept first r in
        record {
          stored = k.stored;
          known = λ j l t q. elim (moved s.pc i j (inside lock loaded) (inside l t) q) [
            | inl (same, p) ↦ let e' : loaded ≡ t = cc in rw (← e') (k.stored loaded g, (s.file, g))
            | inr (ne, p) ↦ k.known j l t p
          ];
        }
    kept first (later {s} r (finish i lock loaded file' h g)) =
        let k = kept first r in
        let (has, (origin, o)) = k.known i lock loaded h in
        let (keeps, again) = persist_keeps origin loaded s.file file' _ _ _ o (strip_idem _) g in
        let out = Kept-outside s.file s.pc i done k λ l t q. cc in
        record {
          stored = λ old l a b. let e : file' ≡ old = cc in rw (← e) (keeps a (has a b));
          known = out.known;
        }
    kept first (later {s} r (edit m file' h)) =
        let k = kept first r in
        let (old, l, same, again) = edited m s.file file' h in
        record {
          stored = λ old' l' a b. let e : file' ≡ old' = cc in rw (← e, same) (k.stored old l a b);
          known = k.known;
        }

  -- However many runs and edits of the metadata interleave, and however they end, data.json goes
  -- on to hold every client that it held at the start, by its id.
  pub runs_keep_clients :
      (calls : ℕ → Call) {file first old : ControlPlaneState} {s : System}
      → load_state regex file ≡ ok first
      → Reach regex calls file s
      → load_state regex s.file ≡ ok old
      → Subset (ids first.clients) (ids old.clients)
  runs_keep_clients calls {first = first} {old = old} loads r l =
      (kept calls (ids first.clients) (λ t g a b. let e : first ≡ t = cc in rw (← e) b) r).stored
        old l

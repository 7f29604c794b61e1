-- ===== src/Provisioning/Runs/Locks.antt =====
-- The locks of the clients keep two runs of one client apart.
use vpn_control_panel.Prelude.{
  ℕ, ◌≡◌, ◌≢◌, sym, ◌∙◌, ap, ◌⊎◌, inl, inr, Bool, true, false, arith, Bool-cases, Option-cases,
  some, ◌==◌, nat_eq, list_eq, nat_beq_iff, list_beq_iff,
}
use vpn_control_panel.Text.{Str}
use vpn_control_panel.Dict.{lookup, lookup-insert}
use vpn_control_panel.Regex.{Regex}
use vpn_control_panel.Data.Models.{ControlPlaneState}
use vpn_control_panel.Provisioning.Runs.{
  Call, ClientLocks, client_lock, Pc, idle, waiting, inside, done, failed, System, move, mark,
  key_of, refuse, get_lock, enter, load_failed, give_up, finish, save_failed, edit, Reach, start,
  later,
}

-- After a move of run `i`, a run that is at `q` is `i` itself or was there before.
pub moved :
    (pc : ℕ → Pc) (i j : ℕ) (p q : Pc)
    → move pc i p j ≡ q
    → ((j ≡ i) × (p ≡ q)) ⊎ ((j ≢ i) × (pc j ≡ q))
moved pc i j p q h = elim (Bool-cases (j == i)) [
  | inl same ↦ inl (ground (arith, nat_beq_iff j i), rw same at h)
  | inr other ↦ inr (ground (arith, nat_beq_iff j i), rw other at h)
]

-- `_client_lock` returns the lock that the dict then has for the client.
client_lock-registered :
    (id : Str) (locks : ClientLocks)
    → lookup id (client_lock id locks).1.client_locks ≡ some (client_lock id locks).0
unfolding client_lock
client_lock-registered id locks = elim (Option-cases (lookup id locks.client_locks)) [
  | inl new ↦
      rw new (ground (arith, lookup-insert id id locks.made locks.client_locks, list_beq_iff id id))
  | inr (lock, there) ↦ rw there there
]

-- It replaces no lock that the dict has.
client_lock-keeps :
    (id other : Str) (locks : ClientLocks) (lock : ℕ)
    → lookup other locks.client_locks ≡ some lock
    → lookup other (client_lock id locks).1.client_locks ≡ some lock
unfolding client_lock
client_lock-keeps id other locks lock h = elim (Option-cases (lookup id locks.client_locks)) [
  | inr (own, there) ↦ rw there h
  | inl new ↦ elim (Bool-cases (id == other)) [
    | inr apart ↦ rw (new, lookup-insert id other locks.made locks.client_locks, apart) h
    | inl same ↦
        let e : id ≡ other = (list_beq_iff id other).0 same in
        let there : lookup id locks.client_locks ≡ some lock = rw e h in cc
  ]
]

-- The lock object that a run waits for or is inside of.
abbrev HasLock : Pc → ℕ → Type 0
HasLock p lock = (p ≡ waiting lock) ⊎ ((t : ControlPlaneState) × (p ≡ inside lock t))

module _ (keys : ℕ → Str) where
  record IsExclusive (locks : ClientLocks) (locked : ℕ → Bool) (pc : ℕ → Pc) : Type 0 where
    pub own : (i lock : ℕ) → HasLock (pc i) lock → lookup (keys i) locks.client_locks ≡ some lock
    pub held : (i lock : ℕ) (s : ControlPlaneState) → pc i ≡ inside lock s → locked lock ≡ true
    pub alone :
        (i j lock : ℕ) (s t : ControlPlaneState)
        → pc i ≡ inside lock s
        → pc j ≡ inside lock t
        → i ≡ j

  -- Run `i` moves to where it has no lock, and the others that are inside still hold theirs.
  Exclusive-outside :
      (locks : ClientLocks) (locked locked' : ℕ → Bool) (pc : ℕ → Pc) (i : ℕ) (p : Pc)
      → IsExclusive locks locked pc
      → ((lock : ℕ) → ¬ HasLock p lock)
      → ((j lock : ℕ) (t : ControlPlaneState) → j ≢ i → pc j ≡ inside lock t → locked' lock ≡ true)
      → IsExclusive locks locked' (move pc i p)
  Exclusive-outside locks locked locked' pc i p x out kept =
      let others : (j lock : ℕ) (t : ControlPlaneState)
          → move pc i p j ≡ inside lock t
          → (j ≢ i) × (pc j ≡ inside lock t) =
        λ j lock t h. elim (moved pc i j p (inside lock t) h) [
          | inl (same, q) ↦ absurd (out lock (inr (t, q)))
          | inr r ↦ r
        ] in
      record {
        own = λ j lock h. elim h [
          | inl w ↦ elim (moved pc i j p (waiting lock) w) [
            | inl (same, q) ↦ absurd (out lock (inl q))
            | inr (ne, q) ↦ x.own j lock (inl q)
          ]
          | inr (t, q) ↦ x.own j lock (inr (t, (others j lock t q).1))
        ];
        held = λ j lock s h. let (ne, q) = others j lock s h in kept j lock s ne q;
        alone =
            λ j k lock s t h g. x.alone j k lock s t (others j lock s h).1 (others k lock t g).1;
      }

  -- Run `i` ends and gives its lock back, which no other is inside of.
  Exclusive-leave :
      (locks : ClientLocks) (locked : ℕ → Bool) (pc : ℕ → Pc) (i lock : ℕ) (p : Pc)
      (s : ControlPlaneState)
      → IsExclusive locks locked pc
      → ((l : ℕ) → ¬ HasLock p l)
      → pc i ≡ inside lock s
      → IsExclusive locks (mark locked lock false) (move pc i p)
  Exclusive-leave locks locked pc i lock p s x out at_i =
      Exclusive-outside locks locked (mark locked lock false) pc i p x out λ j l t ne h.
        elim (Bool-cases (l == lock)) [
          | inl same ↦
              let e : l ≡ lock = (nat_beq_iff l lock).0 same in
              absurd (ne (x.alone j i lock t s (h ∙ ap (λ m. inside m t) e) at_i))
          | inr other ↦ rw other (x.held j l t h)
        ]

  -- Run `i` gets the lock object of its client.
  Exclusive-get :
      (locks : ClientLocks) (locked : ℕ → Bool) (pc : ℕ → Pc) (i : ℕ)
      → IsExclusive locks locked pc
      → IsExclusive
          (client_lock (keys i) locks).1
          locked
          (move pc i (waiting (client_lock (keys i) locks).0))
  Exclusive-get locks locked pc i x =
      let lock = (client_lock (keys i) locks).0 in
      let before : (j l : ℕ) (t : ControlPlaneState)
          → move pc i (waiting lock) j ≡ inside l t
          → pc j ≡ inside l t =
        λ j l t h. elim (moved pc i j (waiting lock) (inside l t) h) [
          | inl (same, q) ↦ cc
          | inr (ne, q) ↦ q
        ] in
      record {
        own = λ j l h. elim h [
          | inl w ↦ elim (moved pc i j (waiting lock) (waiting l) w) [
            | inl (same, q) ↦
                let e : lock ≡ l = cc in
                rw (ap keys same, ← e) (client_lock-registered (keys i) locks)
            | inr (ne, q) ↦ client_lock-keeps (keys i) (keys j) locks l (x.own j l (inl q))
          ]
          | inr (t, q) ↦
              client_lock-keeps (keys i) (keys j) locks l (x.own j l (inr (t, before j l t q)))
        ];
        held = λ j l t h. x.held j l t (before j l t h);
        alone = λ j k l s t h g. x.alone j k l s t (before j l s h) (before k l t g);
      }

  -- Run `i` takes its lock, which is free.
  Exclusive-enter :
      (locks : ClientLocks) (locked : ℕ → Bool) (pc : ℕ → Pc) (i lock : ℕ) (s : ControlPlaneState)
      → IsExclusive locks locked pc
      → pc i ≡ waiting lock
      → locked lock ≡ false
      → IsExclusive locks (mark locked lock true) (move pc i (inside lock s))
  Exclusive-enter locks locked pc i lock s x at_i free =
      let lock_of : (l : ℕ) (t : ControlPlaneState) → inside lock s ≡ inside l t → lock ≡ l =
        λ l t q. cc in
      record {
        own = λ j l h. elim h [
          | inl w ↦ elim (moved pc i j (inside lock s) (waiting l) w) [
            | inl (same, q) ↦ cc
            | inr (ne, q) ↦ x.own j l (inl q)
          ]
          | inr (t, g) ↦ elim (moved pc i j (inside lock s) (inside l t) g) [
            | inl (same, q) ↦ rw (ap keys same, ← lock_of l t q) (x.own i lock (inl at_i))
            | inr (ne, q) ↦ x.own j l (inr (t, q))
          ]
        ];
        held = λ j l t h. elim (moved pc i j (inside lock s) (inside l t) h) [
          | inl (same, q) ↦ ground (arith, lock_of l t q, nat_beq_iff l lock)
          | inr (ne, q) ↦ ground (arith, x.held j l t q)
        ];
        alone = λ j k l t u h g. elim (moved pc i j (inside lock s) (inside l t) h) [
          | inl (same, q) ↦ elim (moved pc i k (inside lock s) (inside l u) g) [
            | inl (same', q') ↦ same ∙ sym same'
            | inr (ne, q') ↦ let a = lock_of l t q in let b = x.held k l u q' in cc
          ]
          | inr (ne, q) ↦ elim (moved pc i k (inside lock s) (inside l u) g) [
            | inl (same', q') ↦ let a = lock_of l u q' in let b = x.held j l t q in cc
            | inr (ne', q') ↦ x.alone j k l t u q q'
          ]
        ];
      }

failed-outside : (lock : ℕ) → ¬ HasLock failed lock
failed-outside lock (inl h) = cc
failed-outside lock (inr (t, h)) = cc

done-outside : (lock : ℕ) → ¬ HasLock done lock
done-outside lock (inl h) = cc
done-outside lock (inr (t, h)) = cc

module _ (regex : Regex) (calls : ℕ → Call) where
  exclusive :
      {file : ControlPlaneState} {s : System}
      → Reach regex calls file s
      → IsExclusive (key_of regex calls) s.locks s.locked s.pc
  exclusive start = record {
    own = λ i l h. absurd (idle_outside l h);
    held = λ i l s h. cc;
    alone = λ i j l s t h g. cc;
  }
    where
      idle_outside : (lock : ℕ) → ¬ HasLock idle lock
      idle_outside lock (inl h) = cc
      idle_outside lock (inr (t, h)) = cc
  exclusive (later r (refuse i h e)) =
      let x = exclusive r in
      Exclusive-outside (key_of regex calls) _ _ _ _ i failed x failed-outside
        λ j l t ne g. x.held j l t g
  exclusive (later r (get_lock i h e)) = Exclusive-get (key_of regex calls) _ _ _ i (exclusive r)
  exclusive (later r (load_failed i lock e h g f)) =
      let x = exclusive r in
      Exclusive-outside (key_of regex calls) _ _ _ _ i failed x failed-outside
        λ j l t ne g. x.held j l t g
  exclusive (later r (enter i lock loaded h free g)) =
      Exclusive-enter _ _ _ _ i lock loaded (exclusive r) h free
  exclusive (later r (give_up i lock loaded h)) =
      Exclusive-leave _ _ _ _ i lock failed loaded (exclusive r) failed-outside h
  exclusive (later r (finish i lock loaded file h g)) =
      Exclusive-leave _ _ _ _ i lock done loaded (exclusive r) done-outside h
  exclusive (later r (save_failed i lock loaded e h g)) =
      Exclusive-leave _ _ _ _ i lock failed loaded (exclusive r) failed-outside h
  exclusive (later r (edit m file h)) =
      let x = exclusive r in record { own = x.own; held = x.held; alone = x.alone }

  -- While one run of a client is between loading and writing data.json, no other run of that
  -- client is, whatever the runs are called with and in whatever order they go on.
  pub runs_exclude :
      {file : ControlPlaneState} {s : System} (i j lock lock' : ℕ)
      (loaded loaded' : ControlPlaneState)
      → Reach regex calls file s
      → key_of regex calls i ≡ key_of regex calls j
      → i ≢ j
      → s.pc i ≡ inside lock loaded
      → s.pc j ≢ inside lock' loaded'
  runs_exclude {s = s} i j lock lock' loaded loaded' r same apart h g =
      let x = exclusive r in
      let mine : lookup (key_of regex calls i) s.locks.client_locks ≡ some lock =
        x.own i lock (inr (loaded, h)) in
      let theirs : lookup (key_of regex calls j) s.locks.client_locks ≡ some lock' =
        x.own j lock' (inr (loaded', g)) in
      let e : lock' ≡ lock = cc in
      apart (x.alone i j lock loaded loaded' h (g ∙ ap (λ l. inside l loaded') e))

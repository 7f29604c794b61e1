-- ===== src/Provisioning/Runs.antt =====
-- Runs of `ensure_client` of provisioning.py that interleave, with the locks of the clients. A run
-- gets the lock object of its client from `_client_lock`, waits until nobody holds it, and holds it
-- from loading data.json to its end; between loading and writing it waits for panels, and other
-- runs, and whoever writes the metadata, go on. Nothing waits inside `_client_lock` under its
-- guard, between taking a lock and loading, or in writing, so each is one step. The panels are left
-- out: what happens there either lets a run go on or ends it.
pub mod Locks
pub mod Kept
use vpn_control_panel.Prelude.{
  ℕ, suc, [], ◌≡◌, Option, none, some, Bool, true, false, Result, ok, err, ◌==◌, nat_eq, list_eq,
  if◌then◌else◌,
}
use vpn_control_panel.Text.{Str, is_empty, strip}
use vpn_control_panel.Dict.{Dict, lookup, insert}
use vpn_control_panel.Regex.{Regex}
use vpn_control_panel.Data.Models.{ControlPlaneState, SubscriptionMetadata}
use vpn_control_panel.Data.Errors.{ValidationError}
use vpn_control_panel.Data.Store.{load_state, save_subscription}
use vpn_control_panel.Provisioning.{ProvisionError, persist}

-- What a run is called with, and the subscription id generated for it.
pub record Call : Type 0 where
  pub client_id : Str
  pub comment : Str
  pub fresh : Str

-- `client_id.strip()`
unfoldable pub key : Call → Str
key c = strip c.client_id

-- `asyncio.Lock` objects are numbered as they are made; `client_locks` is the dict of them.
pub record ClientLocks : Type 0 where
  pub client_locks : Dict Str ℕ
  pub made : ℕ

abbrev lock_or_new : Str → ClientLocks → Option ℕ → ℕ × ClientLocks
lock_or_new id locks (some lock) = (lock, locks)
lock_or_new id locks none = (
  locks.made,
  record { client_locks = insert id locks.made locks.client_locks; made = suc locks.made },
)

-- `_client_lock`
unfoldable pub client_lock : Str → ClientLocks → ℕ × ClientLocks
client_lock id locks = lock_or_new id locks (lookup id locks.client_locks)

-- Where a run is: it waits for a lock object, or is inside one with the state that it loaded.
pub data Pc : Type 0 where
  idle : Pc
  waiting : ℕ → Pc
  inside : ℕ → ControlPlaneState → Pc
  done failed : Pc

-- `locked` says which lock objects are held.
pub record System : Type 0 where
  pub file : ControlPlaneState
  pub locks : ClientLocks
  pub locked : ℕ → Bool
  pub pc : ℕ → Pc

abbrev pub move : (ℕ → Pc) → ℕ → Pc → ℕ → Pc
move pc i p j = if j == i then p else pc j

abbrev pub mark : (ℕ → Bool) → ℕ → Bool → ℕ → Bool
mark locked k b j = if j == k then b else locked j

module _ (regex : Regex) (calls : ℕ → Call) where
  abbrev pub key_of : ℕ → Str
  key_of i = key (calls i)

  pub data Step (s : System) : System → Type 0 where
    -- The client ID is empty.
    refuse :
        (i : ℕ)
        → s.pc i ≡ idle
        → is_empty (key_of i) ≡ true
        → Step s (record s { pc = move s.pc i failed })
    get_lock :
        (i : ℕ)
        → s.pc i ≡ idle
        → is_empty (key_of i) ≡ false
        → Step s (record s {
          locks = (client_lock (key_of i) s.locks).1;
          pc = move s.pc i (waiting (client_lock (key_of i) s.locks).0);
        })
    enter :
        (i lock : ℕ) (loaded : ControlPlaneState)
        → s.pc i ≡ waiting lock
        → s.locked lock ≡ false
        → load_state regex s.file ≡ ok loaded
        → Step s
            (record s { locked = mark s.locked lock true; pc = move s.pc i (inside lock loaded) })
    -- data.json does not load: the lock is given back.
    load_failed :
        (i lock : ℕ) (e : ValidationError)
        → s.pc i ≡ waiting lock
        → s.locked lock ≡ false
        → load_state regex s.file ≡ err e
        → Step s (record s { pc = move s.pc i failed })
    -- A panel fails, or an inbound is missing there.
    give_up :
        (i lock : ℕ) (loaded : ControlPlaneState)
        → s.pc i ≡ inside lock loaded
        → Step s (record s { locked = mark s.locked lock false; pc = move s.pc i failed })
    finish :
        (i lock : ℕ) (loaded file : ControlPlaneState)
        → s.pc i ≡ inside lock loaded
        → persist regex loaded (key_of i) (calls i).comment (calls i).fresh s.file ≡ ok file
        → Step s
            (record s { file = file; locked = mark s.locked lock false; pc = move s.pc i done })
    save_failed :
        (i lock : ℕ) (loaded : ControlPlaneState) (e : ProvisionError)
        → s.pc i ≡ inside lock loaded
        → persist regex loaded (key_of i) (calls i).comment (calls i).fresh s.file ≡ err e
        → Step s (record s { locked = mark s.locked lock false; pc = move s.pc i failed })
    -- The bot's commands write the metadata, without a lock.
    edit :
        (metadata : SubscriptionMetadata) (file : ControlPlaneState)
        → save_subscription regex metadata s.file ≡ ok file
        → Step s (record s { file = file })

  abbrev pub initial : ControlPlaneState → System
  initial file = record {
    file = file;
    locks = record { client_locks = []; made = 0 };
    locked = λ k. false;
    pc = λ i. idle;
  }

  pub data Reach (file : ControlPlaneState) : System → Type 0 where
    start : Reach file (initial file)
    later : {s t : System} → Reach file s → Step s t → Reach file t

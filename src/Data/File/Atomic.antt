-- ===== src/Data/File/Atomic.antt =====
-- What a write leaves on disk, of `_write_json_atomic` in data/store.py.
use vpn_control_panel.Prelude.{
  ◌≡◌, refl, ◌⊎◌, inl, inr, Bool, true, false, Option, none, some, Result, ok, err, Bool-cases,
}
use vpn_control_panel.Text.{Str}
use vpn_control_panel.Data.File.{
  Disk, Os, Written, whole, partly, FileError, os_error, fsync_directory, write_temp,
  replace_target, write_directly, create_temp, make_parent, write_json_atomic,
}

fsync_directory-cases :
    (os : Os) → (fsync_directory os ≡ ok tt) ⊎ (fsync_directory os ≡ err os_error)
unfolding fsync_directory
fsync_directory-cases os = elim (Bool-cases os.opens_directory) [
  | inr closed ↦ inl (rw closed refl)
  | inl opened ↦ elim (Bool-cases os.syncs_directory) [
    | inl synced ↦ inl (rw (opened, synced) refl)
    | inr failed ↦ inr (rw (opened, failed) refl)
  ]
]

-- The result and the disk after a write, with what data.json held before.
abbrev pub Outcome : Os → Str → Option Str → Result FileError (Unit {0}) × Disk → Type 0
Outcome os serialized before (r, disk) =
    ((r ≡ ok tt) × (disk.target ≡ some serialized))
    ⊎ ((r ≡ err os_error)
        × ((disk.target ≡ before) ⊎ ((disk.target ≡ some serialized) ⊎ (os.replaces ≡ false))))

written :
    (os : Os) (serialized : Str) (before : Option Str) (r : Result FileError (Unit {0}))
    (disk : Disk)
    → (r ≡ ok tt) ⊎ (r ≡ err os_error)
    → disk.target ≡ some serialized
    → Outcome os serialized before (r, disk)
written os serialized before r disk (inl h) e = inl (h, e)
written os serialized before r disk (inr h) e = inr (h, inr (inl e))

directly :
    (os : Os) (serialized : Str) (before : Option Str) (disk : Disk) (w : Written)
    → os.replaces ≡ false
    → Outcome os serialized before (write_directly os serialized disk w)
directly os serialized before disk (partly part) h = inr (refl, inr (inr h))
directly os serialized before disk whole h =
    written os serialized before (fsync_directory os)
      (record { target = some serialized; temp = disk.temp }) (fsync_directory-cases os) refl

replaced :
    (os : Os) (serialized : Str) (before : Option Str) (disk : Disk) (b : Bool)
    → os.replaces ≡ b
    → disk.temp ≡ some serialized
    → Outcome os serialized before (replace_target os serialized disk b)
replaced os serialized before disk true e h =
    written os serialized before (fsync_directory os) (record { target = disk.temp; temp = none })
      (fsync_directory-cases os) h
replaced os serialized before disk false e h = directly os serialized before disk os.writes_target e

temporary :
    (os : Os) (serialized : Str) (disk : Disk) (w : Written)
    → Outcome os serialized disk.target (write_temp os serialized disk w)
temporary os serialized disk (partly part) = inr (refl, inl refl)
temporary os serialized disk whole =
    replaced os serialized disk.target (record disk { temp = some serialized }) os.replaces refl
      refl

created :
    (os : Os) (serialized : Str) (disk : Disk) (b : Bool)
    → Outcome os serialized disk.target (create_temp os serialized disk b)
created os serialized disk false = inr (refl, inl refl)
created os serialized disk true = temporary os serialized disk os.writes_temp

made :
    (os : Os) (serialized : Str) (disk : Disk) (b : Bool)
    → Outcome os serialized disk.target (make_parent os serialized disk b)
made os serialized disk false = inr (refl, inl refl)
made os serialized disk true = created os serialized disk os.creates_temp

-- A write that returns leaves the new text in data.json. One that raises leaves there what was
-- there before or the new text, whole, unless the replacement failed.
pub write_json_atomic-target :
    (os : Os) (serialized : Str) (disk : Disk)
    → (((write_json_atomic os serialized disk).0 ≡ ok tt)
        × ((write_json_atomic os serialized disk).1.target ≡ some serialized))
      ⊎ (((write_json_atomic os serialized disk).0 ≡ err os_error)
          × (((write_json_atomic os serialized disk).1.target ≡ disk.target)
              ⊎ (((write_json_atomic os serialized disk).1.target ≡ some serialized)
                  ⊎ (os.replaces ≡ false))))
unfolding write_json_atomic
write_json_atomic-target os serialized disk = made os serialized disk os.makes_parent

-- Where the replacement fails and the direct write does not, the temporary file stays beside
-- data.json, with the new text.
pub write_json_atomic_leftover :
    (os : Os) (serialized : Str) (disk : Disk)
    → os.makes_parent ≡ true
    → os.creates_temp ≡ true
    → os.writes_temp ≡ whole
    → os.replaces ≡ false
    → os.writes_target ≡ whole
    → (write_json_atomic os serialized disk).1.temp ≡ some serialized
unfolding write_json_atomic
write_json_atomic_leftover os serialized disk a b c d e = rw (a, b, c, d, e) refl

-- ===== src/ExternalSubscriptions/CacheFile.antt =====
-- The file of resolved inbounds, ResolvedInboundsStore of external_subscriptions/cache.py. What each
-- call of the operating system gives is an argument, as for data.json, and so is what the text of
-- the file stands for.
use vpn_control_panel.Prelude.{
  [], ◌≡◌, refl, inl, inr, Bool, true, false, Bool-cases, ◌&&◌, Option, none, some, Result, ok, err,
  if◌then◌else◌,
}
use vpn_control_panel.Text.{Str}
use vpn_control_panel.Data.File.{Disk, Os, Written, whole, partly}
use vpn_control_panel.ExternalSubscriptions.Cache.{ResolvedInbounds}

-- What the bytes of the file stand for: no UTF-8, no JSON of the right shape, or records.
pub data Content : Type 0 where
  not_utf8 malformed : Content
  records : ResolvedInbounds → Content

-- Reading a file that exists, and the text that is written for records.
pub record CacheFormat : Type 0 where
  pub can_read : Bool
  pub content : Str → Content
  pub print : ResolvedInbounds → Str

pub data CacheError : Type 0 where
  unicode_error write_error : CacheError

abbrev interpreted : Content → Result CacheError ResolvedInbounds
interpreted not_utf8 = err unicode_error
interpreted malformed = ok []
interpreted (records r) = ok r

abbrev opened : CacheFormat → Option Str → Result CacheError ResolvedInbounds
opened format none = ok []
opened format (some raw) = if format.can_read then interpreted (format.content raw) else ok []

-- `load`: no records where there is no file, where it cannot be read, or where it is malformed
unfoldable pub load_resolved : CacheFormat → Disk → Result CacheError ResolvedInbounds
load_resolved format disk = opened format disk.target

abbrev pub Saved : Type 0
Saved = Result CacheError (Unit {0}) × Disk

abbrev pub save_directly : Str → Disk → Written → Saved
save_directly serialized disk (partly part) =
    (err write_error, record { target = some part; temp = none })
save_directly serialized disk whole = (ok tt, record { target = some serialized; temp = disk.temp })

abbrev pub save_replaced : Os → Str → Disk → Bool → Saved
save_replaced os serialized disk true = (ok tt, record { target = disk.temp; temp = none })
save_replaced os serialized disk false = save_directly serialized disk os.writes_target

abbrev pub save_temp : Os → Str → Disk → Written → Saved
save_temp os serialized disk (partly part) = (err write_error, record disk { temp = none })
save_temp os serialized disk whole =
    save_replaced os serialized (record disk { temp = some serialized }) os.replaces

-- `save`: unlike data.json, the directory is not synced
unfoldable pub save_resolved : CacheFormat → Os → ResolvedInbounds → Disk → Saved
save_resolved format os resolved disk =
    if os.makes_parent && os.creates_temp
    then save_temp os (format.print resolved) disk os.writes_temp
    else (err write_error, disk)

save_directly_ok :
    (serialized : Str) (disk : Disk) (w : Written)
    → (save_directly serialized disk w).0 ≡ ok tt
    → (save_directly serialized disk w).1.target ≡ some serialized
save_directly_ok serialized disk (partly part) h = cc
save_directly_ok serialized disk whole h = refl

save_replaced_ok :
    (os : Os) (serialized : Str) (disk : Disk) (b : Bool)
    → disk.temp ≡ some serialized
    → (save_replaced os serialized disk b).0 ≡ ok tt
    → (save_replaced os serialized disk b).1.target ≡ some serialized
save_replaced_ok os serialized disk true e h = e
save_replaced_ok os serialized disk false e h = save_directly_ok serialized disk os.writes_target h

save_temp_ok :
    (os : Os) (serialized : Str) (disk : Disk) (w : Written)
    → (save_temp os serialized disk w).0 ≡ ok tt
    → (save_temp os serialized disk w).1.target ≡ some serialized
save_temp_ok os serialized disk (partly part) h = cc
save_temp_ok os serialized disk whole h =
    save_replaced_ok os serialized (record disk { temp = some serialized }) os.replaces refl h

-- A save that returns leaves the text of the records in the file.
pub save_resolved_ok :
    (format : CacheFormat) (os : Os) (resolved : ResolvedInbounds) (disk : Disk)
    → (save_resolved format os resolved disk).0 ≡ ok tt
    → (save_resolved format os resolved disk).1.target ≡ some (format.print resolved)
unfolding save_resolved
save_resolved_ok format os resolved disk h =
    elim (Bool-cases (os.makes_parent && os.creates_temp)) [
      | inr broken ↦
          let h' : ◌≡◌ {A = Result CacheError (Unit {0})} (err write_error) (ok tt) =
            rw broken at h in
          cc
      | inl fine ↦
          let h' : (save_temp os (format.print resolved) disk os.writes_temp).0 ≡ ok tt =
            rw fine at h in
          rw fine (save_temp_ok os (format.print resolved) disk os.writes_temp h')
    ]

-- Records that were saved are loaded again, where the file can be read and its text stands for them.
pub load-save_resolved :
    (format : CacheFormat) (os : Os) (resolved : ResolvedInbounds) (disk : Disk)
    → format.can_read ≡ true
    → format.content (format.print resolved) ≡ records resolved
    → (save_resolved format os resolved disk).0 ≡ ok tt
    → load_resolved format (save_resolved format os resolved disk).1 ≡ ok resolved
unfolding load_resolved
load-save_resolved format os resolved disk readable faithful h =
    rw (save_resolved_ok format os resolved disk h, readable, faithful) refl

-- ===== src/Http/Routes/Backup.antt =====
-- Who gets the backup, of `_authorize_backup` in http/routes.py.
use vpn_control_panel.Prelude.{
  ℕ, [], ◌∷◌, ◌++◌, ◌≡◌, refl, ◌∙◌, ap, ◌↔◌, inl, inr, Bool, true, false, ◌&&◌, Option, some,
  Result, ok, err, arith, Bool-cases, contains, ◌==◌, nat_eq, list_eq, nat_beq_iff, list_beq_iff,
}
use vpn_control_panel.Text.{Str, is_ascii, codes, partition}
use vpn_control_panel.Http.Routes.{
  HttpError, invalid_token, not_ascii, checked_token, header_text, authorize_backup,
}

partition_found :
    (c : ℕ) (s : Str)
    → (partition c s).1 ≡ true
    → (s ≡ (partition c s).0 ++ (c ∷ (partition c s).2)) × (contains (partition c s).0 c ≡ false)
partition_found c [] h = cc
partition_found c (d ∷ s) h = elim (Bool-cases (d == c)) [
  | inl same ↦ let e : d ≡ c = (nat_beq_iff d c).0 same in rw same (ap (λ x. x ∷ s) e, refl)
  | inr other ↦
      let found : (partition c s).1 ≡ true = rw other at h in
      let (e, free) = partition_found c s found in rw other (ap (λ x. d ∷ x) e, rw other free)
]

partition-append :
    (c : ℕ) (before after : Str)
    → contains before c ≡ false
    → partition c (before ++ (c ∷ after)) ≡ (before, true, after)
partition-append c [] after h =
    let same : (c == c) ≡ true = (nat_beq_iff c c).1 refl in rw same refl
partition-append c (d ∷ before) after h =
    let (other, free) = apart d c before h in rw (other, partition-append c before after free) refl
  where
    apart :
        (d c : ℕ) (before : Str)
        → contains (d ∷ before) c ≡ false
        → ((d == c) ≡ false) × (contains before c ≡ false)
    apart d c before h = ground arith

both : (a b : Bool) → (a && b) ≡ true → (a ≡ true) × (b ≡ true)
both a b h = (ground arith, ground arith)

checked_token-ok :
    (lower : Str → Str) (found bearer : Bool) (token expected : Str)
    → checked_token lower found bearer token expected ≡ ok tt
    → (found ≡ true) × (bearer ≡ true) × (token ≡ expected) × (is_ascii expected ≡ true)
checked_token-ok lower false bearer token expected h = cc
checked_token-ok lower true false token expected h = cc
checked_token-ok lower true true token expected h =
    elim (Bool-cases (is_ascii token && is_ascii expected)) [
      | inr not_both ↦
          let h' : ◌≡◌ {A = Result HttpError (Unit {0})} (err not_ascii) (ok tt) =
            rw not_both at h in
          cc
      | inl ascii ↦ elim (Bool-cases (token == expected)) [
        | inr other ↦
            let h' : ◌≡◌ {A = Result HttpError (Unit {0})} (err invalid_token) (ok tt) =
              rw (ascii, other) at h in
            cc
        | inl same ↦ (
          refl,
          refl,
          (list_beq_iff token expected).0 same,
          (both (is_ascii token) (is_ascii expected) ascii).1,
        )
      ]
    ]

-- With a token configured, a request is authorised exactly when its Authorization header is a
-- scheme without a space that is "bearer" in lower case, one space, and the token, and the token
-- is ASCII.
pub authorize_backup_iff :
    (lower : Str → Str) (expected : Str) (authorization : Option Str)
    → (authorize_backup lower (some expected) authorization ≡ ok tt) ↔ (
        (scheme : Str) × (header_text lower authorization ≡ scheme ++ (b' ' ∷ expected))
        × (contains scheme b' ' ≡ false)
        × ((lower scheme == codes "bearer") ≡ true)
        × (is_ascii expected ≡ true))
unfolding authorize_backup
authorize_backup_iff lower expected authorization = (
  λ h.
      let text = header_text lower authorization in
      let (scheme, found, token) = partition b' ' text in
      let (is_found, bearer, same, ascii) =
        checked_token-ok lower found (lower scheme == codes "bearer") token expected h in
      let (e, free) = partition_found b' ' text is_found in
      (scheme, e ∙ ap (λ t. scheme ++ (b' ' ∷ t)) same, free, bearer, ascii),
  λ (scheme, e, free, bearer, ascii).
      rw
        (
          e,
          partition-append b' ' scheme expected free,
          bearer,
          ascii,
          (list_beq_iff expected expected).1 refl,
        )
        refl,
)

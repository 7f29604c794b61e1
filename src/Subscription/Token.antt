-- ===== src/Subscription/Token.antt =====
-- Public tokens and urls, and how a request is matched with a client: `_base62_encode`,
-- `build_public_subscription_token`, `build_public_subscription_url` and `_find_client` of
-- subscription/service.py. The HMAC, read as a number, and `quote` are arguments.
use vpn_control_panel.Prelude.{
  ℕ, ◌+◌, ◌<◌, List, [], ◌∷◌, ◌++◌, ◌≡◌, refl, Bool, true, Option, none, some, arith, map, All,
  find, contains, ltb, ◌==◌, nat_eq, list_eq, list_beq_iff, Bool-cases, inl, inr, if◌then◌else◌,
  ◌&&◌, Result, ok, err, false, ◌≢◌, All-map, ◌>>=◌, bind_ok, ap,
}
use vpn_control_panel.Text.{Str, is_ascii, codes, strip, strip_slashes, rstrip}
use vpn_control_panel.Text.Digits.{digits, digits_injective, digits_bounded}
use vpn_control_panel.Data.Models.{ClientRecord, effective_sub_id, legacy_subscription_ids}

-- `secrets.compare_digest` of two texts raises, with the caller's error, if one is not ASCII.
abbrev pub compare_digest {ℓ} : {E : Type ℓ} → E → Str → Str → Result E Bool
compare_digest e a b = if is_ascii a && is_ascii b then ok (a == b) else err e

pub data DigestError : Type 0 where
  not_ascii_text : DigestError

-- The alphabet: ten digits, then the capital, then the small letters.
unfoldable pub letter : ℕ → ℕ
letter d = if ltb d 10 then 48 + d else if ltb d 36 then 55 + d else 61 + d

-- The digits that repeated `divmod` by 62 gives, most significant first; "0" for 0.
unfoldable pub base62_encode : ℕ → Str
unfolding letter digits
base62_encode value = map letter (digits 62 value)

letter_injective : (a b : ℕ) → letter a ≡ letter b → a < 62 → b < 62 → a ≡ b
unfolding letter
letter_injective a b e h k = ground arith

map-letter_injective :
    (xs ys : List ℕ)
    → All (λ d. d < 62) xs
    → All (λ d. d < 62) ys
    → map letter xs ≡ map letter ys
    → xs ≡ ys
map-letter_injective [] [] h k e = refl
map-letter_injective [] (y ∷ ys) h k e = cc
map-letter_injective (x ∷ xs) [] h k e = cc
map-letter_injective (x ∷ xs) (y ∷ ys) h k e =
    let heads : letter x ≡ letter y = ground arith in
    let tails : map letter xs ≡ map letter ys = ground arith in
    rw (letter_injective x y heads h.0 k.0, map-letter_injective xs ys h.1 k.1 tails) refl

map-letter-ascii : (ds : List ℕ) → All (λ d. d < 62) ds → is_ascii (map letter ds) ≡ true
unfolding letter
map-letter-ascii [] h = refl
map-letter-ascii (d ∷ ds) (here, later) = ground (arith, map-letter-ascii ds later)

-- Different numbers have different encodings: a token determines the digest it was made from.
pub base62_encode_injective : (m n : ℕ) → base62_encode m ≡ base62_encode n → m ≡ n
unfolding base62_encode
base62_encode_injective m n e = digits_injective 62 m n (omega arith) (
    map-letter_injective (digits 62 m) (digits 62 n) (digits_bounded 62 m (omega arith))
      (digits_bounded 62 n (omega arith)) e)

unfoldable pub normalize_subscription_base_url : Str → Str
unfolding rstrip
normalize_subscription_base_url value = rstrip (λ c. c == b'/') value

module _ (quote : Str → Str) where
  unfoldable pub build_public_subscription_url : Str → Str → Str
  unfolding normalize_subscription_base_url strip_slashes
  build_public_subscription_url base sub_id =
      normalize_subscription_base_url base ++ (b'/' ∷ quote (strip_slashes sub_id))

  -- `abroad_public_url_for_client`, where the service's base url is normalised before
  unfoldable pub abroad_public_url : Str → Str → Str
  unfolding build_public_subscription_url normalize_subscription_base_url
  abroad_public_url base token =
      build_public_subscription_url (normalize_subscription_base_url base ++ codes "/abroad") token

module _ (hmac_sha256 : Str → Str → ℕ) where
  -- `SubscriptionService` turns an empty salt into none.
  unfoldable pub build_public_subscription_token : Str → Option Str → Str
  unfolding base62_encode strip_slashes strip
  build_public_subscription_token sub_id none = strip_slashes (strip sub_id)
  build_public_subscription_token sub_id (some []) = strip_slashes (strip sub_id)
  build_public_subscription_token sub_id (some (c ∷ salt)) =
      base62_encode (hmac_sha256 (c ∷ salt) (strip_slashes (strip sub_id)))

  unfoldable pub public_token_for_client : Option Str → ClientRecord → Str
  unfolding build_public_subscription_token effective_sub_id
  public_token_for_client salt c = build_public_subscription_token (effective_sub_id c) salt

  unfoldable pub is_public_token_for_client :
      Option Str → Str → ClientRecord → Result DigestError Bool
  unfolding public_token_for_client strip_slashes strip
  is_public_token_for_client salt token c =
      compare_digest not_ascii_text (strip_slashes (strip token)) (public_token_for_client salt c)

  abbrev Search : Type 0
  Search = Result DigestError (Option ClientRecord)

  abbrev or_else : Option ClientRecord → Search → Search
  or_else none other = other
  or_else (some c) other = ok (some c)

  -- The last loop; a comparison that raises ends it.
  unfoldable pub find_by_token : Option Str → List ClientRecord → Str → Search
  unfolding public_token_for_client
  find_by_token salt [] requested = ok none
  find_by_token salt (r ∷ rs) requested =
      let rest = find_by_token salt rs requested in
      compare_digest not_ascii_text requested (public_token_for_client salt r) >>= λ same.
      if same then ok (some r) else rest

  abbrev by_token : Option Str → List ClientRecord → Str → Search
  by_token none clients requested = ok none
  by_token (some []) clients requested = ok none
  by_token (some (c ∷ salt)) clients requested = find_by_token (some (c ∷ salt)) clients requested

  -- `_find_client`: by the subscription id, then by a legacy id, then by the token
  unfoldable pub find_client : Option Str → List ClientRecord → Str → Search
  unfolding find_by_token legacy_subscription_ids effective_sub_id
  find_client salt clients requested =
      or_else (find (λ c. effective_sub_id c == requested) clients) (
        or_else (find (λ c. contains (legacy_subscription_ids c) requested) clients)
          (by_token salt clients requested))

  find-none :
      (p : ClientRecord → Bool) (clients : List ClientRecord)
      → All (λ d. p d ≡ false) clients
      → find p clients ≡ none
  find-none p [] h = refl
  find-none p (d ∷ ds) (here, later) = rw here (find-none p ds later)

  -- A token is made of digits and letters.
  token_ascii :
      (key : ℕ) (salt : Str) (c : ClientRecord)
      → is_ascii (public_token_for_client (some (key ∷ salt)) c) ≡ true
  unfolding public_token_for_client build_public_subscription_token base62_encode
  token_ascii key salt c =
      let n = hmac_sha256 (key ∷ salt) (strip_slashes (strip (effective_sub_id c))) in
      map-letter-ascii (digits 62 n) (digits_bounded 62 n (omega arith))

  find_by_token-first :
      (key : ℕ) (salt : Str) (before after : List ClientRecord) (c : ClientRecord) (token : Str)
      → token ≡ public_token_for_client (some (key ∷ salt)) c
      → All (λ d. public_token_for_client (some (key ∷ salt)) d ≢ token) before
      → find_by_token (some (key ∷ salt)) (before ++ (c ∷ after)) token ≡ ok (some c)
  unfolding find_by_token
  find_by_token-first key salt [] after c token own others =
      let ascii = token_ascii key salt c in
      rw (own, ascii, (list_beq_iff _ (public_token_for_client (some (key ∷ salt)) c)).1 refl) refl
  find_by_token-first key salt (b ∷ before) after c token own (other, others) =
      let differs : (token == public_token_for_client (some (key ∷ salt)) b) ≡ false =
        ground (arith, list_beq_iff token (public_token_for_client (some (key ∷ salt)) b)) in
      let ascii : is_ascii token ≡ true = rw own (token_ascii key salt c) in
      rw (ascii, token_ascii key salt b, differs)
        (find_by_token-first key salt before after c token own others)

  -- Where a salt is set, the token of a client's public url finds that client and no other, if it
  -- is no client's own or legacy id and no client before it has the same token.
  pub find_client-public_token :
      (key : ℕ) (salt : Str) (before after : List ClientRecord) (c : ClientRecord)
      → All
          (λ d.
            ((effective_sub_id d == public_token_for_client (some (key ∷ salt)) c) ≡ false)
            × (contains (legacy_subscription_ids d) (public_token_for_client (some (key ∷ salt)) c)
                ≡ false))
          (before ++ (c ∷ after))
      → All
          (λ d.
            public_token_for_client (some (key ∷ salt)) d
            ≢ public_token_for_client (some (key ∷ salt)) c)
          before
      → find_client
          (some (key ∷ salt))
          (before ++ (c ∷ after))
          (public_token_for_client (some (key ∷ salt)) c)
        ≡ ok (some c)
  unfolding find_client
  find_client-public_token key salt before after c free others =
      let token = public_token_for_client (some (key ∷ salt)) c in
      let clients = before ++ (c ∷ after) in
      rw
        (
          find-none (λ r. effective_sub_id r == token) clients (All-map clients (λ d h. h.0) free),
          find-none (λ r. contains (legacy_subscription_ids r) token) clients
              (All-map clients (λ d h. h.1) free),
        )
        (find_by_token-first key salt before after c token refl others)

  find_All :
      (P : ClientRecord → Type 0) (p : ClientRecord → Bool) (clients : List ClientRecord)
      (c : ClientRecord)
      → All P clients
      → find p clients ≡ some c
      → P c
  find_All P p [] c h e = cc
  find_All P p (d ∷ ds) c h e = elim (Bool-cases (p d)) [
    | inl q ↦ let same : d ≡ c = ground arith in rw (← same) h.0
    | inr q ↦ find_All P p ds c h.1 (ground arith)
  ]

  find_by_token-All :
      (P : ClientRecord → Type 0) (salt : Option Str) (clients : List ClientRecord)
      (requested : Str) (c : ClientRecord)
      → All P clients
      → find_by_token salt clients requested ≡ ok (some c)
      → P c
  unfolding find_by_token
  find_by_token-All P salt [] requested c h e = cc
  find_by_token-All P salt (d ∷ ds) requested c (here, later) e =
      bind_ok (compare_digest not_ascii_text requested (public_token_for_client salt d)) _ e
        λ b q. found b (find_by_token-All P salt ds requested c later)
    where
      found :
          (b : Bool)
          → (find_by_token salt ds requested ≡ ok (some c) → P c)
          → (if b then ok (some d) else find_by_token salt ds requested) ≡ ok (some c)
          → P c
      found true rest g =
          let g' : ◌≡◌ {A = Result DigestError (Option ClientRecord)} (ok (some d)) (ok (some c)) =
            g in
          let same : d ≡ c = cc in rw (← same) here
      found false rest g = rest g

  -- What the search finds is one of the clients, so it has what they all have.
  pub find_client_All :
      (P : ClientRecord → Type 0) (salt : Option Str) (clients : List ClientRecord)
      (requested : Str) (c : ClientRecord)
      → All P clients
      → find_client salt clients requested ≡ ok (some c)
      → P c
  unfolding find_client
  find_client_All P salt clients requested c h e =
      either (find (λ d. effective_sub_id d == requested) clients) _ e (find_All P _ clients c h)
        (λ f.
          either (find (λ d. contains (legacy_subscription_ids d) requested) clients) _ f
            (find_All P _ clients c h) (token_case salt))
    where
      either :
          (o : Option ClientRecord) (p : Search)
          → or_else o p ≡ ok (some c)
          → (o ≡ some c → P c)
          → (p ≡ ok (some c) → P c)
          → P c
      either none p e f g = g e
      either (some d) p e f g =
          let e' : ◌≡◌ {A = Search} (ok (some d)) (ok (some c)) = e in
          let same : d ≡ c = cc in f (ap some same)

      token_case : (o : Option Str) → by_token o clients requested ≡ ok (some c) → P c
      token_case none e = cc
      token_case (some []) e = cc
      token_case (some (k ∷ s)) e = find_by_token-All P (some (k ∷ s)) clients requested c h e

-- ===== src/Auth/Tokens/Revocation.antt =====
-- A revoked token of crates/auth/src/token.rs stays revoked, whatever is called later, and a minted
-- one is verified.
use mathlib.Core.List.{Memᴰ}
use mathlib.Core.Option.{some-injective}
use coulisse.Prelude.{
  any, not, ℕ, String, ◌≡◌, ◌≢◌, refl, sym, ap, subst, ◌∙◌, Bool, true, false, ◌&&◌, Option, none,
  some, List, [], ◌∷◌, ◌++◌, map, find, Result, ok, err, not_member_iff, ◌==◌, ==_iff, string_eq,
  All, All-mem, All-append, All-intro, arith, Bool-cases, Option-cases, inl, inr, find-some,
}
use coulisse.Prelude.Int.{ℤ, pos, ltb_ℤ}
use coulisse.Sql.{map-update_where, All-update_where}
use coulisse.Uuid.{UuidCrate}
use coulisse.Auth.Tokens.{
  insert_unless, is_taken, ApiToken, TokenStore, no_tokens, NewToken, StoreError, VerifiedToken,
  is_active, new_token, mint, revoke, presented_row, verified, verify_row, verify, record_spend_at,
  TokenCall, after_call, after_calls,
}
use coulisse.Auth.Tokens.TokenCall.{minting, revoking, verifying, spending}

still_there :
    (s : String) (xs ys : List ApiToken)
    → Memᴰ s (map (λ r. r.id) xs)
    → Memᴰ s (map (λ r. r.id) (xs ++ ys))
still_there s [] ys m = elim m [ ]
still_there s (x ∷ xs) ys (Memᴰ.head e) = Memᴰ.head e
still_there s (x ∷ xs) ys (Memᴰ.tail m) = Memᴰ.tail (still_there s xs ys m)

module _ (c : UuidCrate) (hash_secret : String → String) where
  spending_tokens :
      (id : c.Uuid) (micro_usd : ℤ) (at : ℕ) (usage_id : c.Uuid) (store : TokenStore)
      → TokenStore.tokens (record_spend_at c hash_secret id micro_usd at usage_id store)
        ≡ store.tokens
  unfolding record_spend_at
  spending_tokens id micro_usd at usage_id store =
      elim (Bool-cases
        (ltb_ℤ (pos 0) micro_usd && not (any (λ u. u.id == c.to_string usage_id) store.usage))) [
          | inl e ↦ rw e refl
          | inr e ↦ rw e refl
        ]

  -- Every id is one that was printed.
  abbrev IsCanonical : ApiToken → Type 0
  IsCanonical r = (u : c.Uuid) × (r.id ≡ c.to_string u)

  -- There is a token of the id, and none of the id is active.
  abbrev IsDead : String → ApiToken → Type 0
  IsDead s r = ((r.id == s) && is_active r) ≡ false

  pub record IsRevoked (s : String) (store : TokenStore) : Type 0 where
    pub there : Memᴰ s (map (λ r. r.id) store.tokens)
    pub dead : All (IsDead s) store.tokens

  -- What is said of every row after each call, when new rows and changed rows have it.
  module _ (P : ApiToken → Type 0)
      (revoked : (r : ApiToken) (at : ℤ) → P r → P (record r { revoked_at = some at }))
      (seen : (r : ApiToken) (at : ℤ) → P r → P (record r { last_used_at = some at })) where
    insert_kept :
        (taken : Bool) (token : NewToken) (id : c.Uuid) (secret : String) (now : ℕ)
        (store : TokenStore)
        → (taken ≡ false → P (new_token c hash_secret token id secret now))
        → All P store.tokens
        → All P (TokenStore.tokens (insert_unless c hash_secret taken token id secret now store).1)
    insert_kept true token id secret now store fresh h = h
    insert_kept false token id secret now store fresh h =
        All-append P store.tokens _ h (fresh refl, tt)

    seen_kept :
        (o : Option ApiToken) (now : ℕ) (store : TokenStore)
        → All P store.tokens
        → All P (TokenStore.tokens (verify_row c hash_secret o now store).1)
    seen_kept none now store h = h
    seen_kept (some row) now store h =
        All-update_where P P _ _ store.tokens (λ r p _. seen r _ p) (λ r p _. p) h

    rows_kept :
        (call : TokenCall c hash_secret) (store : TokenStore)
        → ((token : NewToken) (id : c.Uuid) (secret : String) (now : ℕ)
            → All (λ x. x ≢ c.to_string id) (map (λ r. r.id) store.tokens)
            → P (new_token c hash_secret token id secret now))
        → All P store.tokens
        → All P (TokenStore.tokens (after_call c hash_secret call store))
    unfolding mint revoke verify
    rows_kept (minting token id secret now) store fresh h =
        insert_kept (is_taken c hash_secret id secret store) token id secret now store
          (λ e.
            fresh token id secret now
              ((not_member_iff (c.to_string id) (map (λ r. r.id) store.tokens)).0 (ground arith)))
          h
    rows_kept (revoking id now) store fresh h =
        All-update_where P P _ _ store.tokens (λ r p _. revoked r _ p) (λ r p _. p) h
    rows_kept (verifying presented now) store fresh h =
        seen_kept (presented_row c hash_secret presented store) now store h
    rows_kept (spending id micro_usd at usage_id) store fresh h =
        subst (All P) (sym (spending_tokens id micro_usd at usage_id store)) h

  module _ (s : String) where
    abbrev IsThere : TokenStore → Type 0
    IsThere store = Memᴰ s (map (λ r. ApiToken.id r) store.tokens)

    insert_unless-IsThere :
        (taken : Bool) (token : NewToken) (id : c.Uuid) (secret : String) (now : ℕ)
        (store : TokenStore)
        → IsThere store
        → IsThere (insert_unless c hash_secret taken token id secret now store).1
    insert_unless-IsThere true token id secret now store m = m
    insert_unless-IsThere false token id secret now store m = still_there s store.tokens _ m

    verify_row-IsThere :
        (o : Option ApiToken) (now : ℕ) (store : TokenStore)
        → IsThere store
        → IsThere (verify_row c hash_secret o now store).1
    verify_row-IsThere none now store m = m
    verify_row-IsThere (some row) now store m =
        subst (Memᴰ s) (sym (map-update_where (λ r. r.id) _ _ store.tokens (λ r. refl))) m

    after_call-IsThere :
        (call : TokenCall c hash_secret) (store : TokenStore)
        → IsThere store
        → IsThere (after_call c hash_secret call store)
    unfolding mint revoke verify
    after_call-IsThere (minting token id secret now) store m =
        insert_unless-IsThere (is_taken c hash_secret id secret store) token id secret now store m
    after_call-IsThere (revoking id now) store m =
        subst (Memᴰ s) (sym (map-update_where (λ r. r.id) _ _ store.tokens (λ r. refl))) m
    after_call-IsThere (verifying presented now) store m =
        verify_row-IsThere (presented_row c hash_secret presented store) now store m
    after_call-IsThere (spending id micro_usd at usage_id) store m =
        subst (λ rows. Memᴰ s (map (λ r. ApiToken.id r) rows))
          (sym (spending_tokens id micro_usd at usage_id store)) m

    other_id : (t : String) → s ≢ t → (b : Bool) → ((t == s) && b) ≡ false
    other_id t ne b = elim (Bool-cases (t == s)) [
      | inl e ↦ absurd (ne (sym ((==_iff t s).0 e)))
      | inr e ↦ rw e refl
    ]

    dead_revoked : (b : Bool) → (b && false) ≡ false
    dead_revoked true = refl
    dead_revoked false = refl

    after_call-IsRevoked :
        (call : TokenCall c hash_secret) (store : TokenStore)
        → IsRevoked s store
        → IsRevoked s (after_call c hash_secret call store)
    after_call-IsRevoked call store h = record {
      there = after_call-IsThere call store h.there;
      dead =
          rows_kept (IsDead s) (λ r at d. dead_revoked (r.id == s)) (λ r at d. d) call store
            (λ token id secret now free.
              other_id (c.to_string id) (All-mem (λ x. x ≢ c.to_string id) free h.there) true)
            h.dead;
    }

    after_calls-IsRevoked :
        (calls : List (TokenCall c hash_secret)) (store : TokenStore)
        → IsRevoked s store
        → IsRevoked s (after_calls c hash_secret calls store)
    after_calls-IsRevoked [] store h = h
    after_calls-IsRevoked (call ∷ calls) store h =
        after_calls-IsRevoked calls (after_call c hash_secret call store)
          (after_call-IsRevoked call store h)

  after_calls-IsCanonical :
      (calls : List (TokenCall c hash_secret)) (store : TokenStore)
      → All IsCanonical store.tokens
      → All IsCanonical (TokenStore.tokens (after_calls c hash_secret calls store))
  after_calls-IsCanonical [] store h = h
  after_calls-IsCanonical (call ∷ calls) store h =
      after_calls-IsCanonical calls (after_call c hash_secret call store) (
        rows_kept IsCanonical (λ r at k. k) (λ r at k. k) call store
          (λ token id secret now free. (id, refl)) h)

  revoke-IsRevoked :
      (i : c.Uuid) (now : ℕ) (store : TokenStore)
      → IsThere (c.to_string i) store
      → IsRevoked (c.to_string i) (revoke c hash_secret i now store).1
  unfolding revoke
  revoke-IsRevoked i now store m = record {
    there =
        subst (Memᴰ (c.to_string i))
          (sym (map-update_where (λ r. r.id) _ _ store.tokens (λ r. refl))) m;
    dead =
        All-update_where (λ r. Unit {0}) (IsDead (c.to_string i)) _ _ store.tokens
          (λ r p e. dead_revoked (c.to_string i) (r.id == c.to_string i)) (λ r p e. e)
          (All-intro (λ r. Unit {0}) store.tokens (λ r. tt));
  }

  abbrev id_of : Result StoreError (Option (VerifiedToken c.Uuid)) → Option c.Uuid
  id_of (ok (some v)) = some v.id
  id_of (ok none) = none
  id_of (err e) = none

  verified-parse :
      (row : ApiToken) (v : VerifiedToken c.Uuid)
      → verified c hash_secret row ≡ ok (some v)
      → c.parse_str row.id ≡ some v.id
  verified-parse row v h = elim (Option-cases (c.parse_str row.id)) [
    | inl e ↦ absurd (let bad = rw e at h in ground arith)
    | inr (u, e) ↦ e ∙ ap id_of (let same = rw e at h in same)
  ]

  verify_row-row :
      (o : Option ApiToken) (now : ℕ) (store : TokenStore) (v : VerifiedToken c.Uuid)
      → (verify_row c hash_secret o now store).0 ≡ ok (some v)
      → (row : ApiToken) × (o ≡ some row) × (verified c hash_secret row ≡ ok (some v))
  verify_row-row none now store v h = absurd (let bad = ap id_of h in ground arith)
  verify_row-row (some row) now store v h = (row, refl, h)

  -- Once a token of the table is revoked, no secret is verified as that token's, whatever calls came
  -- before on the empty tables and come after.
  pub revoked_never_verified :
      (before after : List (TokenCall c hash_secret)) (i : c.Uuid) (now : ℕ) (presented : String)
      (later : ℕ) (v : VerifiedToken c.Uuid)
      → Memᴰ (c.to_string i) (
          map (λ r. ApiToken.id r) (TokenStore.tokens (after_calls c hash_secret before no_tokens)))
      → (verify c hash_secret presented later (
          after_calls c hash_secret after
            (revoke c hash_secret i now (after_calls c hash_secret before no_tokens)).1)).0
        ≡ ok (some v)
      → v.id ≢ i
  unfolding verify
  revoked_never_verified before after i now presented later v m h same =
      let start = after_calls c hash_secret before no_tokens in
      let store = after_calls c hash_secret after (revoke c hash_secret i now start).1 in
      let dead =
        after_calls-IsRevoked (c.to_string i) after (revoke c hash_secret i now start).1
          (revoke-IsRevoked i now start m) in
      let printed =
        after_calls-IsCanonical (revoking i now ∷ after) start
          (after_calls-IsCanonical before no_tokens tt) in
      let found = verify_row-row (presented_row c hash_secret presented store) later store v h in
      let row = find-some _ store.tokens {a = found.0} found.1 in
      let name = All-mem IsCanonical printed row.0 in
      let parsed =
        sym (c.parse_str-to_string name.0)
        ∙ (ap c.parse_str (sym name.1) ∙ verified-parse found.0 v found.2) in
      let is_i : found.0.id ≡ c.to_string i =
        name.1 ∙ ap c.to_string (some-injective _ _ parsed ∙ same) in
      let matches = (==_iff found.0.id (c.to_string i)).1 is_i in
      let inactive = All-mem (IsDead (c.to_string i)) dead.dead row.0 in
      absurd (ground (arith, row.1))

  find-last :
      (h : String) (xs : List ApiToken) (r : ApiToken)
      → All (λ x. x ≢ h) (map (λ q. ApiToken.secret_hash q) xs)
      → r.secret_hash ≡ h
      → is_active r ≡ true
      → find (λ q. (ApiToken.secret_hash q == h) && is_active q) (xs ++ r ∷ []) ≡ some r
  find-last h [] r a e active = let t = (==_iff r.secret_hash h).1 e in rw t rw active refl
  find-last h (x ∷ xs) r a e active = elim (Bool-cases (x.secret_hash == h)) [
    | inl t ↦ absurd (a.0 ((==_iff x.secret_hash h).0 t))
    | inr t ↦ rw t (find-last h xs r a.1 e active)
  ]

  -- A token that is minted with an id and a secret that the table lacks is verified by its secret, as
  -- the principal that it was minted for.
  pub verify-mint :
      (token : NewToken) (id : c.Uuid) (secret : String) (now later : ℕ) (store : TokenStore)
      → is_taken c hash_secret id secret store ≡ false
      → (verify c hash_secret secret later (mint c hash_secret token id secret now store).1).0
        ≡ ok (some (record { id = id; principal = token.principal }))
  unfolding verify mint
  verify-mint token id secret now later store free =
      let lacks =
        (not_member_iff (hash_secret secret) (map (λ r. ApiToken.secret_hash r) store.tokens)).0
          (ground arith) in
      let row = new_token c hash_secret token id secret now in
      rw (free, insert_unless) rw
        (find-last (hash_secret secret) store.tokens row lacks refl refl, verify_row)
        (rw (c.parse_str-to_string id) refl)

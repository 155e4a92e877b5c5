-- ===== src/Auth/Tokens.antt =====
-- crates/auth/src/token.rs: the API tokens of the proxy, as the tables `api_tokens` and
-- `token_usage` and the operations on them. The digest, the random secret and id, the clock reading
-- and the start of a month are arguments.
pub mod Revocation
pub mod Tests
use coulisse.Prelude.{
  ℕ, any, String, Bool, true, false, not, ◌&&◌, ◌||◌, Option, none, some, List, [], ◌∷◌, ◌++◌, map,
  find, keep, if◌then◌else◌, Result, ok, err, ◌>>=◌, ok_or, member, ◌==◌, string_eq, ltb,
}
use coulisse.Prelude.Int.{ℤ, pos, ◌+ℤ◌, ltb_ℤ}
use coulisse.Auth.Config.{is_some}
use coulisse.Core.{u64_to_i64}
use coulisse.Sql.{update_where, rows_affected}
use coulisse.Uuid.{UuidCrate}

pub data BudgetKind : Type 0 where
  monthly_kind total_kind unlimited_kind : BudgetKind

abbrev pub kind_word : BudgetKind → String
kind_word monthly_kind = "monthly"
kind_word total_kind = "total"
kind_word unlimited_kind = "unlimited"

abbrev pub parse_kind : String → Option BudgetKind
parse_kind s =
    if s == "monthly"
    then some monthly_kind
    else if s == "total"
    then some total_kind
    else if s == "unlimited"
    then some unlimited_kind
    else none

pub data Budget : Type 0 where
  monthly total : (limit_micro_usd : ℤ) → Budget
  unlimited : Budget

abbrev pub capped : Option BudgetKind → Option ℤ → Budget
capped (some monthly_kind) (some limit) = monthly limit
capped (some total_kind) (some limit) = total limit
capped (some unlimited_kind) (some limit) = unlimited
capped (some kind) none = unlimited
capped none limit = unlimited

unfoldable pub from_db : String → Option ℤ → Budget
from_db kind limit = capped (parse_kind kind) limit

unfoldable pub to_db : Budget → BudgetKind × Option ℤ
to_db (monthly limit) = (monthly_kind, some limit)
to_db (total limit) = (total_kind, some limit)
to_db unlimited = (unlimited_kind, none)

pub record ApiToken : Type 0 where
  pub budget_kind : String
  pub budget_micro_usd : Option ℤ
  pub created_at : ℤ
  pub id : String
  pub label : String
  pub last_used_at : Option ℤ
  pub principal : String
  pub revoked_at : Option ℤ
  pub secret_hash : String

pub record TokenUsage : Type 0 where
  pub cost_micro_usd : ℤ
  pub created_at : ℤ
  pub id : String
  pub token_id : String

pub record TokenStore : Type 0 where
  pub tokens : List ApiToken
  pub usage : List TokenUsage

abbrev pub no_tokens : TokenStore
no_tokens = record { tokens = []; usage = [] }

pub record NewToken : Type 0 where
  pub budget : Budget
  pub label : String
  pub principal : String

-- A constraint of the table that an insert breaks, or an id that is no UUID.
pub data StoreError : Type 0 where
  sqlx : StoreError
  corrupt_id : String → StoreError

pub data BudgetError : Type 0 where
  exceeded : (limit_micro_usd spent_micro_usd : ℤ) → BudgetError

pub record VerifiedToken (Uuid : Type 0) : Type 0 where
  pub id : Uuid
  pub principal : String

-- `revoked_at IS NULL`.
abbrev pub is_active : ApiToken → Bool
is_active r = not (is_some r.revoked_at)

module _ (c : UuidCrate) (hash_secret : String → String) where
  -- The row that `mint` inserts.
  abbrev pub new_token : NewToken → c.Uuid → String → ℕ → ApiToken
  new_token token id secret now =
      let (kind, limit) = to_db token.budget in
      record {
        budget_kind = kind_word kind;
        budget_micro_usd = limit;
        created_at = u64_to_i64 now;
        id = c.to_string id;
        label = token.label;
        last_used_at = none;
        principal = token.principal;
        revoked_at = none;
        secret_hash = hash_secret secret;
      }

  abbrev pub insert_unless :
      Bool
      → NewToken
      → c.Uuid
      → String
      → ℕ
      → TokenStore
      → Result StoreError (c.Uuid × String) × TokenStore
  insert_unless true token id secret now store = (err sqlx, store)
  insert_unless false token id secret now store = (
    ok (id, secret),
    record store { tokens = store.tokens ++ new_token token id secret now ∷ [] },
  )

  -- The insert fails on an id or a digest that the table has: `PRIMARY KEY` and `UNIQUE`.
  abbrev pub is_taken : c.Uuid → String → TokenStore → Bool
  is_taken id secret store =
      member (c.to_string id) (map (λ r. r.id) store.tokens)
      || member (hash_secret secret) (map (λ r. r.secret_hash) store.tokens)

  unfoldable pub mint :
      NewToken → c.Uuid → String → ℕ → TokenStore → Result StoreError (c.Uuid × String) × TokenStore
  mint token id secret now store =
      insert_unless (is_taken id secret store) token id secret now store

  abbrev pub is_revocable : c.Uuid → ApiToken → Bool
  is_revocable id r = (r.id == c.to_string id) && is_active r

  unfoldable pub revoke : c.Uuid → ℕ → TokenStore → Bool × TokenStore
  revoke id now store = (
    ltb 0 (rows_affected (is_revocable id) store.tokens),
    record store {
      tokens =
          update_where (is_revocable id) (λ r. record r { revoked_at = some (u64_to_i64 now) })
            store.tokens;
    },
  )

  -- The row of a secret that is not revoked.
  abbrev pub presented_row : String → TokenStore → Option ApiToken
  presented_row presented store =
      find (λ r. (r.secret_hash == hash_secret presented) && is_active r) store.tokens

  abbrev pub used : ApiToken → ℕ → TokenStore → TokenStore
  used row now store = record store {
    tokens =
        update_where (λ r. r.id == row.id) (λ r. record r { last_used_at = some (u64_to_i64 now) })
          store.tokens;
  }

  abbrev pub verified : ApiToken → Result StoreError (Option (VerifiedToken c.Uuid))
  verified row = do
    id ← ok_or (c.parse_str row.id) (corrupt_id row.id)
    ok (some (record { id = id; principal = row.principal }))

  abbrev pub verify_row :
      Option ApiToken
      → ℕ
      → TokenStore
      → Result StoreError (Option (VerifiedToken c.Uuid)) × TokenStore
  verify_row none now store = (ok none, store)
  verify_row (some row) now store = (verified row, used row now store)

  unfoldable pub verify :
      String → ℕ → TokenStore → Result StoreError (Option (VerifiedToken c.Uuid)) × TokenStore
  verify presented now store = verify_row (presented_row presented store) now store

  -- The identifier is the primary key: an insert of one that is there fails.
  unfoldable pub record_spend_at : c.Uuid → ℤ → ℕ → c.Uuid → TokenStore → TokenStore
  record_spend_at id micro_usd at usage_id store =
      if ltb_ℤ (pos 0) micro_usd && not (any (λ u. u.id == c.to_string usage_id) store.usage)
      then record store {
        usage =
            store.usage
            ++ record {
              cost_micro_usd = micro_usd;
              created_at = u64_to_i64 at;
              id = c.to_string usage_id;
              token_id = c.to_string id;
            }
              ∷ [];
      }
      else store

  abbrev pub sum_costs : List TokenUsage → ℤ
  sum_costs [] = pos 0
  sum_costs (u ∷ us) = u.cost_micro_usd +ℤ sum_costs us

  -- `SUM(cost_micro_usd) … WHERE token_id = ? AND created_at >= ?`.
  unfoldable pub spend_since : c.Uuid → ℕ → TokenStore → ℤ
  spend_since id since store = sum_costs (
      keep (λ u. (u.token_id == c.to_string id) && not (ltb_ℤ u.created_at (u64_to_i64 since)))
        store.usage)

  abbrev pub check_spend : c.Uuid → ℕ → ℤ → TokenStore → Result BudgetError (Unit {0})
  check_spend id since limit store =
      let spent = spend_since id since store in
      if ltb_ℤ spent limit then ok tt else err (exceeded limit spent)

  abbrev pub check_against :
      c.Uuid → (ℕ → ℕ) → ℕ → Budget → TokenStore → Result BudgetError (Unit {0})
  check_against id month_start now (monthly limit) store =
      check_spend id (month_start now) limit store
  check_against id month_start now (total limit) store = check_spend id 0 limit store
  check_against id month_start now unlimited store = ok tt

  unfoldable pub check_budget_at : c.Uuid → (ℕ → ℕ) → ℕ → TokenStore → Result BudgetError (Unit {0})
  check_budget_at id month_start now store =
      elim (find (λ r. (r.id == c.to_string id) && is_active r) store.tokens) [
        | none ↦ ok tt
        | some row ↦
            check_against id month_start now (from_db row.budget_kind row.budget_micro_usd) store
      ]

  -- The calls that change the tables.
  pub data TokenCall : Type 0 where
    minting : NewToken → c.Uuid → (secret : String) (now : ℕ) → TokenCall
    revoking : c.Uuid → (now : ℕ) → TokenCall
    verifying : (presented : String) (now : ℕ) → TokenCall
    spending : c.Uuid → (micro_usd : ℤ) (at : ℕ) → c.Uuid → TokenCall

  abbrev pub after_call : TokenCall → TokenStore → TokenStore
  after_call (minting token id secret now) store = (mint token id secret now store).1
  after_call (revoking id now) store = (revoke id now store).1
  after_call (verifying presented now) store = (verify presented now store).1
  after_call (spending id micro_usd at usage_id) store =
      record_spend_at id micro_usd at usage_id store

  abbrev pub after_calls : List TokenCall → TokenStore → TokenStore
  after_calls [] store = store
  after_calls (call ∷ calls) store = after_calls calls (after_call call store)

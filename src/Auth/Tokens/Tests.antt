-- ===== src/Auth/Tokens/Tests.antt =====
-- The tokens of crates/auth/src/token.rs at a small history.
use mathlib.Core.List.{Memᴰ}
use coulisse.Prelude.{String, ◌≡◌, ◌≢◌, refl, some, List, [], ◌∷◌, ok, err}
use coulisse.Prelude.Int.{pos, ◌+ℤ◌}
use coulisse.Core.{u64_to_i64}
use coulisse.Uuid.{text_uuids}
use coulisse.Sql.{update_where}
use coulisse.Auth.Tokens.{
  NewToken, TokenStore, TokenCall, VerifiedToken, no_tokens, mint, revoke, verify, after_calls,
  record_spend_at, spend_since, check_budget_at, from_db, to_db,
}
use coulisse.Auth.Tokens.Budget.{total}
use coulisse.Auth.Tokens.BudgetError.{exceeded}
use coulisse.Auth.Tokens.TokenCall.{minting, verifying}
use coulisse.Auth.Tokens.Revocation.{revoked_never_verified, verify-mint}

abbrev hash : String → String
hash secret = secret

abbrev ann : NewToken
ann = record { budget = total (pos 10); label = "laptop"; principal = "ann" }

abbrev calls : List (TokenCall text_uuids hash)
calls = minting ann "t1" "sk-1" 5 ∷ minting ann "t2" "sk-2" 6 ∷ []

abbrev two_tokens : TokenStore
two_tokens = after_calls text_uuids hash calls no_tokens

abbrev t1 : String
t1 = "t1"

abbrev verified_t2 : VerifiedToken String
verified_t2 = record { id = "t2"; principal = "ann" }

t1_minted : Memᴰ t1 ("t1" ∷ "t2" ∷ [])
t1_minted = Memᴰ.head refl

other_still_verifies :
    (verify text_uuids hash "sk-2" 9 (
      after_calls text_uuids hash
        (verifying "sk-1" 8 ∷ [])
        (revoke text_uuids hash "t1" 7 two_tokens).1)).0
    ≡ ok (some (record { id = "t2"; principal = "ann" }))
unfolding mint verify revoke update_where to_db
other_still_verifies = refl

revoked_never_verified_example : verified_t2.id ≢ t1
unfolding mint to_db
revoked_never_verified_example =
    revoked_never_verified text_uuids hash calls (verifying "sk-1" 8 ∷ []) "t1" 7 "sk-2" 9
      verified_t2 t1_minted other_still_verifies

verify-mint_example :
    (verify text_uuids hash "sk-1" 6 (mint text_uuids hash ann "t1" "sk-1" 5 no_tokens).1).0
    ≡ ok (some (record { id = "t1"; principal = "ann" }))
verify-mint_example = verify-mint text_uuids hash ann "t1" "sk-1" 5 6 no_tokens refl

-- A token that has spent its budget is refused.
spent_up :
    check_budget_at text_uuids hash "t1"
      (λ now. 0)
      9
      (record_spend_at text_uuids hash "t1"
        (pos 12)
        8
        "u1"
        (mint text_uuids hash ann "t1" "sk-1" 5 no_tokens).1)
    ≡ err (exceeded (pos 10) (pos 12))
unfolding check_budget_at record_spend_at spend_since mint to_db from_db u64_to_i64 ◌+ℤ◌
spent_up = refl

-- ===== src/Mcp/Pool/Rules.antt =====
-- Rules for the calls of crates/mcp/src/pool.rs, each of which leaves a state whether it fails or not.
use coulisse.Prelude.{List, none, ◌≡◌, ◌⊎◌, String, Option, none, some, Result, ok, err}
use coulisse.Mcp.Error.{McpError}
use coulisse.Mcp.Vault.Interface.{Vault}
use coulisse.Mcp.Session.{Outside, UserMcpSession}
use coulisse.Mcp.Pool.{SessionCache, cached, PoolState, M, hand_on, matched, match_call, some_or}

module _ {Metadata : Type 0} (v : Vault Metadata) (outside : Outside Metadata)
    (moka : SessionCache outside) where
  -- What `moka` documents: after an insertion, a key has the session that it would have without a
  -- limit, or none.
  abbrev pub OnlyDrops : Type 0
  OnlyDrops =
      (w : outside.World) (cache : List ((String × String) × UserMcpSession outside))
      (user server : String)
      → (cached v outside moka user server (moka.retained w cache) ≡ none)
        ⊎ (cached v outside moka user server (moka.retained w cache)
            ≡ cached v outside moka user server cache)

  abbrev State : Type 0
  State = PoolState v outside moka

  abbrev pub Keeps : {A : Type 0} → (State → Type 0) → M v outside moka A → Type 0
  Keeps P m = (s : State) → P s → P (m s).1

  hand_on-keeps :
      {A B : Type 0} (P : State → Type 0) (r : Result McpError A × State)
      (k : A → M v outside moka B)
      → P r.1
      → ((a : A) → Keeps P (k a))
      → P (hand_on v outside moka r k).1
  hand_on-keeps P (ok a, s) k p keep = keep a s p
  hand_on-keeps P (err e, s) k p keep = p

  matched-keeps :
      {A B : Type 0} (P : State → Type 0) (r : Result McpError A × State)
      (good : A → M v outside moka B) (bad : McpError → M v outside moka B)
      → P r.1
      → ((a : A) → Keeps P (good a))
      → ((e : McpError) → Keeps P (bad e))
      → P (matched v outside moka r good bad).1
  matched-keeps P (ok a, s) good bad p keep lose = keep a s p
  matched-keeps P (err e, s) good bad p keep lose = lose e s p

  pub bind-Keeps :
      {A B : Type 0} (P : State → Type 0) (m : M v outside moka A) (k : A → M v outside moka B)
      → Keeps P m
      → ((a : A) → Keeps P (k a))
      → Keeps P (λ s. hand_on v outside moka (m s) k)
  bind-Keeps P m k keep next s p = hand_on-keeps P (m s) k (keep s p) next

  pub match_call-Keeps :
      {A B : Type 0} (P : State → Type 0) (m : M v outside moka A) (good : A → M v outside moka B)
      (bad : McpError → M v outside moka B)
      → Keeps P m
      → ((a : A) → Keeps P (good a))
      → ((e : McpError) → Keeps P (bad e))
      → Keeps P (match_call v outside moka m good bad)
  match_call-Keeps P m good bad keep next lose s p =
      matched-keeps P (m s) good bad (keep s p) next lose

  pub some_or-Keeps :
      {A : Type 0} (P : State → Type 0) (e : McpError) (found : Option A)
      → Keeps P (some_or v outside moka e found)
  some_or-Keeps P e none s p = p
  some_or-Keeps P e (some a) s p = p

  -- What holds of a result and the state after it.
  abbrev pub Post : Type 0 → Type 1
  Post A = Result McpError A → State → Type 0

  pub hand_on_lem :
      {A B : Type 0} (R : Post A) (Q : Post B) (r : Result McpError A × State)
      (k : A → M v outside moka B)
      → R r.0 r.1
      → ((a : A) (s : State) → R (ok a) s → Q (k a s).0 (k a s).1)
      → ((e : McpError) (s : State) → R (err e) s → Q (err e) s)
      → Q (hand_on v outside moka r k).0 (hand_on v outside moka r k).1
  hand_on_lem R Q (ok a, s) k h good bad = good a s h
  hand_on_lem R Q (err e, s) k h good bad = bad e s h

  pub matched_lem :
      {A B : Type 0} (R : Post A) (Q : Post B) (r : Result McpError A × State)
      (f : A → M v outside moka B) (g : McpError → M v outside moka B)
      → R r.0 r.1
      → ((a : A) (s : State) → R (ok a) s → Q (f a s).0 (f a s).1)
      → ((e : McpError) (s : State) → R (err e) s → Q (g e s).0 (g e s).1)
      → Q (matched v outside moka r f g).0 (matched v outside moka r f g).1
  matched_lem R Q (ok a, s) f g h good bad = good a s h
  matched_lem R Q (err e, s) f g h good bad = bad e s h

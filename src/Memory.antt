-- ===== src/Memory.antt =====
-- crates/memory/src/types.rs, and `assemble_context` of crates/memory/src/store.rs: what of a user's
-- memories and messages fits a token budget. The embedding, the similarity search `recall` and the
-- product of the budget with a floating-point fraction are arguments.
pub mod Fitting
pub mod Context
pub mod Tests
use mathlib.Core.List.{reverse}
use coulisse.Prelude.{
  codes, ℕ, suc, ◌+◌, ◌-◌, ◌/◌, String, List, [], ◌∷◌, map, leb, if◌then◌else◌, length,
}
use coulisse.Core.{u32_max}
use coulisse.Core.Role.{Role}
use coulisse.Core.MemoryKind.{MemoryKind}

pub record Memory (MessageId Vector : Type 0) : Type 0 where
  pub content : String
  pub created_at : ℕ
  pub embedding : Vector
  pub id : MessageId
  pub kind : MemoryKind
  pub user_id : MessageId

pub record StoredMessage (MessageId : Type 0) : Type 0 where
  pub content : String
  pub created_at : ℕ
  pub id : MessageId
  pub role : Role
  pub token_count : ℕ
  pub user_id : MessageId

pub record Message : Type 0 where
  pub content : String
  pub role : Role

pub record AssembledContext (MessageId Vector : Type 0) : Type 0 where
  pub memories : List (Memory MessageId Vector)
  pub messages : List Message

-- `TokenCount`'s sums are of `u32`s and saturate.
abbrev pub saturating_add : ℕ → ℕ → ℕ
saturating_add a b = if leb (a + b) u32_max then a + b else u32_max

-- A character is a code point.
unfoldable pub estimate : String → ℕ
estimate text = (if leb (length (codes text)) u32_max then length (codes text) else u32_max) / 4 + 1

-- The loops of `fit_memories` and `fit_messages`: elements are kept until one would pass the budget.
module _ {A : Type 0} (cost : A → ℕ) (budget : ℕ) where
  unfoldable pub fitting : ℕ → List A → List A
  fitting used [] = []
  fitting used (x ∷ xs) =
      let rest = fitting (saturating_add used (cost x)) xs in
      if leb (saturating_add used (cost x)) budget then x ∷ rest else []

module _ {MessageId : Type 0} where
  abbrev pub new_with_id : ℕ → MessageId → Role → String → MessageId → StoredMessage MessageId
  new_with_id now_secs user_id role content id = record {
    content = content;
    created_at = now_secs;
    id = id;
    role = role;
    token_count = estimate content;
    user_id = user_id;
  }

  abbrev pub as_message : StoredMessage MessageId → Message
  as_message m = record { content = m.content; role = m.role }

  -- The newest messages that fit, in chronological order.
  unfoldable pub fit_messages : ℕ → List (StoredMessage MessageId) → List Message
  fit_messages budget messages =
      map as_message (reverse (fitting (λ m. m.token_count) budget 0 (reverse messages)))

  module _ {Vector : Type 0} where
    unfoldable pub fit_memories :
        ℕ → List (Memory MessageId Vector) → List (Memory MessageId Vector)
    fit_memories budget recalled = fitting (λ m. estimate m.content) budget 0 recalled

    -- The estimates of the kept memories, summed as `TokenCount`s.
    unfoldable pub memories_used : ℕ → List (Memory MessageId Vector) → ℕ
    memories_used acc [] = acc
    memories_used acc (m ∷ ms) = memories_used (saturating_add acc (estimate m.content)) ms

    unfoldable pub assemble_context :
        (ℕ → ℕ)
        → ℕ
        → List (Memory MessageId Vector)
        → List (StoredMessage MessageId)
        → AssembledContext MessageId Vector
    assemble_context memory_share budget recalled stored =
        let memories = fit_memories (memory_share budget) recalled in
        record {
          memories = memories;
          messages = fit_messages (budget - memories_used 0 memories) stored;
        }

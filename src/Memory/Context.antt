-- ===== src/Memory/Context.antt =====
-- What crates/memory/src/types.rs and `assemble_context` promise about a token budget.
use mathlib.Core.List.{reverse, reverse-append, reverse-reverse}
use coulisse.Prelude.{
  ℕ, ◌+◌, ◌-◌, ◌≤◌, ◌<◌, ◌≡◌, refl, sym, ap, ◌∙◌, List, [], ◌∷◌, ◌++◌, map, arith, All,
  All-append_right, subst,
}
use coulisse.Core.{u32_max}
use coulisse.Memory.{
  saturating_add, fitting, Memory, StoredMessage, Message, as_message, AssembledContext, estimate,
  fit_memories, fit_messages, memories_used, assemble_context,
}
use coulisse.Memory.Fitting.{
  total, Stops, IsLongestFit, fitting-IsLongestFit, total-reverse, total-map, saturating_add-small,
}

-- The longest run of the latest messages whose tokens sum to at most `budget`, in their order.
pub record IsRecentFit {MessageId : Type 0} (budget : ℕ) (messages : List (StoredMessage MessageId))
    (out : List Message) : Type 0 where
  pub older : List (StoredMessage MessageId)
  pub newest : List (StoredMessage MessageId)
  pub split : messages ≡ older ++ newest
  pub result : out ≡ map as_message newest
  pub fits : total (λ m. m.token_count) newest ≤ budget
  pub stops : Stops (λ m. m.token_count) budget (total (λ m. m.token_count) newest) (reverse older)

module _ {MessageId : Type 0} where
  -- With a budget below 2^32 - 1, `fit_messages` returns the longest run of the latest messages
  -- whose token counts sum to at most the budget, in chronological order.
  pub fit_messages_recent :
      (budget : ℕ) (messages : List (StoredMessage MessageId))
      → budget < u32_max
      → IsRecentFit budget messages (fit_messages budget messages)
  unfolding fit_messages
  fit_messages_recent budget messages small =
      let f = fitting-IsLongestFit (λ m. m.token_count) budget small (reverse messages) in
      record {
        older = reverse f.rest;
        newest = reverse (fitting (λ m. m.token_count) budget 0 (reverse messages));
        split =
            sym (reverse-reverse messages)
            ∙ ap reverse f.split
            ∙ reverse-append (fitting (λ m. m.token_count) budget 0 (reverse messages)) f.rest;
        result = refl;
        fits = omega (
          arith,
          f.fits,
          total-reverse (λ m. m.token_count)
              (fitting (λ m. m.token_count) budget 0 (reverse messages)),
        );
        stops =
            rw (reverse-reverse f.rest) rw
              (total-reverse (λ m. m.token_count)
                (fitting (λ m. m.token_count) budget 0 (reverse messages)))
              f.stops;
      }

  recent_fits :
      (budget : ℕ) (messages : List (StoredMessage MessageId)) (out : List Message)
      → All (λ m. m.token_count ≡ estimate m.content) messages
      → IsRecentFit budget messages out
      → total (λ m. estimate m.content) out ≤ budget
  recent_fits budget messages out estimated recent =
      let newest_estimated =
        All-append_right _ recent.older recent.newest (subst (All _) recent.split estimated) in
      let priced =
        total-map as_message (λ m. m.token_count) (λ m. estimate m.content) recent.newest
          newest_estimated in
      rw recent.result (omega (arith, priced, recent.fits))

  module _ {Vector : Type 0} where
    -- With a budget below 2^32 - 1, `fit_memories` keeps the longest prefix of the recalled memories
    -- whose estimates sum to at most the budget.
    pub fit_memories_longest :
        (budget : ℕ) (recalled : List (Memory MessageId Vector))
        → budget < u32_max
        → IsLongestFit (λ m. estimate m.content) budget (fit_memories budget recalled) recalled
    unfolding fit_memories
    fit_memories_longest budget recalled small =
        fitting-IsLongestFit (λ m. estimate m.content) budget small recalled

    memories_used-total :
        (acc : ℕ) (ms : List (Memory MessageId Vector))
        → acc + total (λ m. estimate m.content) ms ≤ u32_max
        → memories_used acc ms ≡ acc + total (λ m. estimate m.content) ms
    unfolding memories_used
    memories_used-total acc [] h = omega arith
    memories_used-total acc (m ∷ ms) h =
        let exact = saturating_add-small acc (estimate m.content) (omega (arith, h)) in
        memories_used-total (saturating_add acc (estimate m.content)) ms (omega (arith, h, exact))
        ∙ omega (arith, exact)

    -- When the share for memories is at most the budget, the budget is below 2^32 - 1 and the stored
    -- messages carry the estimates of their texts, the assembled memories and messages are together
    -- estimated at no more than the budget.
    pub assemble_context_fits :
        (memory_share : ℕ → ℕ) (budget : ℕ) (recalled : List (Memory MessageId Vector))
        (stored : List (StoredMessage MessageId))
        → memory_share budget ≤ budget
        → budget < u32_max
        → All (λ m. m.token_count ≡ estimate m.content) stored
        → total
              (λ m. estimate m.content)
              (AssembledContext.memories (assemble_context memory_share budget recalled stored))
            + total
                (λ m. estimate m.content)
                (AssembledContext.messages (assemble_context memory_share budget recalled stored))
          ≤ budget
    unfolding assemble_context
    assemble_context_fits memory_share budget recalled stored share small estimated =
        let kept =
          fit_memories_longest (memory_share budget) recalled (omega (arith, share, small)) in
        let used =
          memories_used-total 0 (fit_memories (memory_share budget) recalled)
            (omega (arith, kept.fits, share, small)) in
        let recent =
          fit_messages_recent
            (budget - memories_used 0 (fit_memories (memory_share budget) recalled)) stored
            (omega (arith, small)) in
        omega (
          arith,
          kept.fits,
          share,
          used,
          recent_fits (budget - memories_used 0 (fit_memories (memory_share budget) recalled))
              stored _ estimated recent,
        )

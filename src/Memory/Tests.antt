-- ===== src/Memory/Tests.antt =====
-- The budget theorems at a short conversation: of two messages the latest fits.
use coulisse.Prelude.{ℕ, ◌+◌, ◌≤◌, ◌/◌, String, ◌≡◌, refl, [], ◌∷◌, arith}
use coulisse.Core.Role.{user, assistant}
use coulisse.Core.MemoryKind.{fact}
use coulisse.Memory.{
  Memory, StoredMessage, AssembledContext, estimate, new_with_id, fitting, fit_messages,
  assemble_context,
}
use coulisse.Memory.Fitting.{total}
use coulisse.Memory.Context.{assemble_context_fits}

abbrev likes_tea : Memory String Unit
likes_tea = record {
  content = "likes tea";
  created_at = 4;
  embedding = tt;
  id = "m1";
  kind = fact;
  user_id = "u";
}

abbrev said : StoredMessage String
said = new_with_id 1 "u" user "hello there" "a"

abbrev answered : StoredMessage String
answered = new_with_id 2 "u" assistant "good morning" "b"

abbrev share : ℕ → ℕ
share budget = budget / 2

estimate-said : estimate "hello there" ≡ 3
unfolding estimate
estimate-said = refl

only_the_last_fits :
    fit_messages 5 (said ∷ answered ∷ [])
    ≡ record { content = "good morning"; role = assistant } ∷ []
unfolding fit_messages fitting estimate
only_the_last_fits = refl

assemble_context_fits_example :
    total
        (λ m. estimate m.content)
        (AssembledContext.memories
          (assemble_context share 8 (likes_tea ∷ likes_tea ∷ []) (said ∷ answered ∷ [])))
      + total
          (λ m. estimate m.content)
          (AssembledContext.messages
            (assemble_context share 8 (likes_tea ∷ likes_tea ∷ []) (said ∷ answered ∷ [])))
    ≤ 8
assemble_context_fits_example =
    assemble_context_fits share 8 (likes_tea ∷ likes_tea ∷ []) (said ∷ answered ∷ []) (omega arith)
      (omega arith) (refl, (refl, tt))

-- ===== src/Experiments/Seeds.antt =====
-- The hash that crates/experiments/src/router.rs derives a pick from: FNV-1a of 64 bits over the
-- user's bytes, the experiment's name and, for a pick that is not sticky, the draw counter.
use Prim.Native.Nat.{bit_xor}
use coulisse.Prelude.{
  ℕ, zero, suc, ◌+◌, ◌*◌, ◌/◌, ◌%◌, ◌^◌, ◌<◌, ◌≡◌, refl, String, codes, List, [], ◌∷◌, ◌++◌, ltb,
  if◌then◌else◌, arith,
}

-- `str::as_bytes`: the UTF-8 bytes of the code points.
abbrev pub utf8_char : ℕ → List ℕ
utf8_char c =
    if ltb c 128
    then c ∷ []
    else if ltb c 2048
    then (192 + c / 64) ∷ (128 + c % 64) ∷ []
    else if ltb c 65536
    then (224 + c / 4096) ∷ (128 + c / 64 % 64) ∷ (128 + c % 64) ∷ []
    else (240 + c / 262144) ∷ (128 + c / 4096 % 64) ∷ (128 + c / 64 % 64) ∷ (128 + c % 64) ∷ []

abbrev pub utf8 : List ℕ → List ℕ
utf8 [] = []
utf8 (c ∷ cs) = utf8_char c ++ utf8 cs

-- `u64::to_le_bytes`, of `n` bytes.
abbrev pub le_bytes : ℕ → ℕ → List ℕ
le_bytes zero draw = []
le_bytes (suc n) draw = draw % 256 ∷ le_bytes n (draw / 256)

abbrev pub fnv_offset : ℕ
fnv_offset = 14695981039346656037

abbrev pub fnv_prime : ℕ
fnv_prime = 1099511628211

-- `Fnv64::write`: the multiplication wraps.
unfoldable pub write : ℕ → List ℕ → ℕ
write state [] = state
write state (b ∷ bytes) = write (bit_xor state b * fnv_prime % 2 ^ 64) bytes

pub record PickSeed : Type 0 where
  pub draw : ℕ
  pub user_id : List ℕ

unfoldable pub sticky : PickSeed → String → ℕ
sticky seed experiment_name = write (write fnv_offset seed.user_id) (utf8 (codes experiment_name))

unfoldable pub per_request : PickSeed → String → ℕ
per_request seed experiment_name =
    write (write (write fnv_offset seed.user_id) (utf8 (codes experiment_name)))
      (le_bytes 8 seed.draw)

fnv1a-a : write fnv_offset (97 ∷ []) ≡ 12638187200555641996
unfolding write
fnv1a-a = refl

write-bounded : (state : ℕ) (bytes : List ℕ) → state < 2 ^ 64 → write state bytes < 2 ^ 64
unfolding write
write-bounded state [] h = h
write-bounded state (b ∷ bytes) h =
    write-bounded (bit_xor state b * fnv_prime % 2 ^ 64) bytes (omega arith)

-- Both seeds of a pick are below 2^64, whatever the user's bytes, the counter and the name.
pub seeds-bounded :
    (seed : PickSeed) (name : String)
    → (sticky seed name < 2 ^ 64) × (per_request seed name < 2 ^ 64)
unfolding sticky per_request
seeds-bounded seed name = (
  write-bounded _ _ (write-bounded _ _ (omega arith)),
  write-bounded _ _ (write-bounded _ _ (write-bounded _ _ (omega arith))),
)

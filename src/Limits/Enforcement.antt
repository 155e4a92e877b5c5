-- ===== src/Limits/Enforcement.antt =====
-- What `check` admits, what its refusal says, and what a history of records adds up to.
use coulisse.Prelude.{
  ℕ, ◌+◌, ◌-◌, ◌%◌, ◌≤◌, ◌<◌, String, ◌≡◌, refl, ◌↔◌, ◌&&◌, Option, none, some, List, [], ◌∷◌,
  arith, ◌==◌, string_eq, nat_eq, if◌then◌else◌, ok, err, Result-cases, inl, inr, Bool-cases, subst,
  ◌∙◌,
}
use coulisse.Core.{i64_max}
use coulisse.Limits.{
  WindowKind, RequestLimits, LimitError, database, exceeded, Table, size_secs, count, window_start,
  record_tokens, check, check_window, is_empty, day, hour, month,
}

-- The cap on one kind of window, if there is one, is above what the user has used of it.
abbrev pub IsUnder : ℕ → String → Table → Option ℕ → WindowKind → Type 0
IsUnder now user table none kind = Unit
IsUnder now user table (some cap) kind =
    (used : ℕ) × (count user kind (window_start kind now) table ≡ ok used) × (used < cap)

abbrev pub cap_on : RequestLimits → WindowKind → Option ℕ
cap_on limits hour = limits.tokens_per_hour
cap_on limits day = limits.tokens_per_day
cap_on limits month = limits.tokens_per_month

-- The windows that `check` looks at before one of this kind do not refuse.
abbrev pub PassesBefore : ℕ → String → Table → RequestLimits → WindowKind → Type 0
PassesBefore now user table limits hour = Unit
PassesBefore now user table limits day = IsUnder now user table limits.tokens_per_hour hour
PassesBefore now user table limits month =
    IsUnder now user table limits.tokens_per_hour hour
    × IsUnder now user table limits.tokens_per_day day

check_window_iff :
    (now : ℕ) (user : String) (table : Table) (allowed : Option ℕ) (kind : WindowKind)
    → (check_window now user table allowed kind ≡ ok tt) ↔ IsUnder now user table allowed kind
unfolding check_window
check_window_iff now user table none kind = ((λ h. tt), λ h. refl)
check_window_iff now user table (some allowed) kind =
    elim (Result-cases (count user kind (window_start kind now) table)) [
      | inl (used, e) ↦
          rw (e, check_window)
            (
              (λ h. (used, refl, ground (arith, h))),
              λ h. let same : used ≡ h.0 = ground (arith, h.1) in ground (arith, same, h.2),
            )
      | inr (e, f) ↦ rw (f, check_window) ((λ h. absurd (cc h)), λ h. absurd (cc h.1))
    ]

-- A request passes exactly when each cap that it carries is above what the user has used in the
-- present hour, day and month.
pub check_iff :
    (now : ℕ) (user : String) (limits : RequestLimits) (table : Table)
    → (check now user limits table ≡ ok tt) ↔ (
        IsUnder now user table limits.tokens_per_hour hour
        × IsUnder now user table limits.tokens_per_day day
        × IsUnder now user table limits.tokens_per_month month)
unfolding check check_window is_empty
check_iff now user limits table = ground (
  arith,
  check_window_iff now user table limits.tokens_per_hour hour,
  check_window_iff now user table limits.tokens_per_day day,
  check_window_iff now user table limits.tokens_per_month month,
)

-- The wait from any time to the next window of a kind.
next_window :
    (kind : WindowKind) (now : ℕ)
    → (0 < window_start kind now + size_secs kind - now)
      × (window_start kind now + size_secs kind - now ≤ size_secs kind)
      × ((now + (window_start kind now + size_secs kind - now)) % size_secs kind ≡ 0)
unfolding size_secs
next_window day now = omega arith
next_window hour now = omega arith
next_window month now = omega arith

-- What a refusal says: the cap of its kind, the use that has reached it, and the wait.
abbrev pub Refuses : ℕ → String → Table → Option ℕ → WindowKind → ℕ → ℕ → ℕ → Type 0
Refuses now user table cap kind limit retry_after used =
    (cap ≡ some limit)
    × (count user kind (window_start kind now) table ≡ ok used)
    × (limit ≤ used)
    × (0 < retry_after)
    × (retry_after ≤ size_secs kind)
    × ((now + retry_after) % size_secs kind ≡ 0)

-- The read of a counter fails in one way.
count-err :
    (user : String) (kind : WindowKind) (start : ℕ) (table : Table) {e : LimitError}
    → count user kind start table ≡ err e
    → database "count: a REAL is no i64" ≡ e
unfolding count
count-err user kind start table h = ground (arith, h)

check_window_refusal :
    (now : ℕ) (user : String) (table : Table) (allowed : Option ℕ) (kind kind' : WindowKind)
    (limit retry_after used : ℕ)
    → check_window now user table allowed kind ≡ err (exceeded limit retry_after used kind')
    → (kind ≡ kind') × Refuses now user table allowed kind limit retry_after used
unfolding check_window
check_window_refusal now user table none kind kind' limit retry_after used h = cc
check_window_refusal now user table (some allowed) kind kind' limit retry_after used h =
    elim (Result-cases (count user kind (window_start kind now) table)) [
      | inr (e, f) ↦
          let g = rw (f, check_window) at h in
          absurd (cc (g, count-err user kind (window_start kind now) table f))
      | inl (consumed, e) ↦ rw e (ground (arith, rw (e, check_window) at h, next_window kind now))
    ]

-- A refusal of `check`, with the windows that are looked at before.
abbrev pub Refusal : ℕ → String → RequestLimits → Table → ℕ → ℕ → ℕ → WindowKind → Type 0
Refusal now user limits table limit retry_after used kind =
    Refuses now user table (cap_on limits kind) kind limit retry_after used
    × PassesBefore now user table limits kind

refused_at :
    (now : ℕ) (user : String) (limits : RequestLimits) (table : Table) (limit retry_after used : ℕ)
    (k kind : WindowKind)
    → check_window now user table (cap_on limits k) k ≡ err (exceeded limit retry_after used kind)
    → PassesBefore now user table limits k
    → Refusal now user limits table limit retry_after used kind
refused_at now user limits table limit retry_after used k kind h before =
    let (same, refuses) =
      check_window_refusal now user table (cap_on limits k) k kind limit retry_after used h in
    subst (Refusal now user limits table limit retry_after used) same (refuses, before)

-- A refusal names the request's cap on its kind of window, the use of the present window, which has
-- reached the cap, and the wait to the next window: a positive time, at most the window's size, that
-- ends at a multiple of it; and the windows that are looked at before do not refuse.
pub check_refusal :
    (now : ℕ) (user : String) (limits : RequestLimits) (table : Table) (limit retry_after used : ℕ)
    (kind : WindowKind)
    → check now user limits table ≡ err (exceeded limit retry_after used kind)
    → Refuses now user table (cap_on limits kind) kind limit retry_after used
      × PassesBefore now user table limits kind
unfolding check
check_refusal now user limits table limit retry_after used kind h =
    let at = refused_at now user limits table limit retry_after used in
    elim (Bool-cases (is_empty limits)) [
      | inl none_set ↦ absurd (cc (rw (none_set, check) at h))
      | inr some_set ↦
          elim (Result-cases (check_window now user table limits.tokens_per_hour hour)) [
            | inr (e, f) ↦ at hour kind (f ∙ ground (arith, rw (some_set, check, f) at h)) tt
            | inl (_, f) ↦
                let in_hour = (check_window_iff now user table limits.tokens_per_hour hour).0 f in
                elim (Result-cases (check_window now user table limits.tokens_per_day day)) [
                  | inr (e, g) ↦
                      at day kind (g ∙ ground (arith, rw (some_set, check, f, g) at h)) in_hour
                  | inl (_, g) ↦
                      let in_day =
                        (check_window_iff now user table limits.tokens_per_day day).0 g in
                      at month kind (rw (some_set, check, f, g) at h) (in_hour, in_day)
                ]
          ]
    ]

-- One call of `Tracker::record`.
pub record Usage : Type 0 where
  pub now : ℕ
  pub user : String
  pub tokens : ℕ

-- The table after a history of records, the latest first, from an empty one.
unfoldable pub recorded : List Usage → Table
recorded [] = []
recorded (u ∷ history) = record_tokens u.now u.user u.tokens (recorded history)

-- What the history has in one window of one kind for one user.
unfoldable pub total : String → WindowKind → ℕ → List Usage → ℕ
total user kind start [] = 0
total user kind start (u ∷ history) =
    (if u.user == user && window_start kind u.now == start then u.tokens else 0)
    + total user kind start history

-- The clock did not go back, and numbers fit an `i64`.
abbrev pub IsHistory : ℕ → List Usage → Type 0
IsHistory now [] = now ≤ i64_max
IsHistory now (u ∷ history) =
    (u.now ≤ now) × (now ≤ i64_max) × (u.tokens ≤ i64_max) × IsHistory u.now history

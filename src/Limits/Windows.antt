-- ===== src/Limits/Windows.antt =====
-- The table of windows: one row for each user and kind, as an upsert keeps it.
use coulisse.Prelude.{
  ℕ, ◌+◌, ◌≤◌, String, ◌≡◌, refl, sym, ap, ◌∙◌, Bool, true, false, ◌&&◌, Option, none, some, [],
  ◌∷◌, arith, leb, ◌==◌, ==_iff, string_eq, nat_eq, if◌then◌else◌, find, All, Bool-cases, inl, inr,
}
use coulisse.Prelude.Int.{ℤ, pos, int_eq, ◌+ℤ◌}
use coulisse.Core.{u64_to_i64, i64_max, u64_to_i64-pos}
use coulisse.Limits.{
  WindowKind, WindowRow, Table, as_db_str, has_key, stored_count, count_column, window_start,
  upsert, record_window, day, hour, month,
}

abbrev pub same_key : WindowRow → WindowRow → Bool
same_key r q = q.user_id == r.user_id && q.kind == r.kind

-- The primary key, and counts that a record has written.
abbrev pub IsKeyed : Table → Type 0
IsKeyed [] = Unit
IsKeyed (r ∷ table) =
    All (λ q. same_key r q ≡ false) table × ((n : ℕ) × (r.count ≡ pos n)) × IsKeyed table

-- What a row says of the window that begins at `start`.
abbrev pub in_window : ℤ → Option WindowRow → ℕ
in_window start none = 0
in_window start (some r) = if r.start == start then count_column r.count else 0

abbrev upserted : ℤ → ℤ → String → WindowKind → Option WindowRow → WindowRow
upserted tokens start user kind none = record {
  count = tokens;
  kind = as_db_str kind;
  start = start;
  user_id = user;
}
upserted tokens start user kind (some r) = record r {
  count = if r.start == start then r.count +ℤ tokens else tokens;
  start = start;
}

find-upsert :
    (user user' : String) (kind kind' : WindowKind) (tokens start : ℤ) (table : Table)
    → find (has_key user' kind') (upsert user kind tokens start table) ≡ (
        if user == user' && as_db_str kind == as_db_str kind'
        then some (upserted tokens start user kind (find (has_key user kind) table))
        else find (has_key user' kind') table)
unfolding upsert
find-upsert user user' kind kind' tokens start [] = refl
find-upsert user user' kind kind' tokens start (r ∷ table) = ground (
  arith,
  find-upsert user user' kind kind' tokens start table,
  ==_iff r.user_id user,
  ==_iff r.user_id user',
  ==_iff user user',
  ==_iff r.kind (as_db_str kind),
  ==_iff r.kind (as_db_str kind'),
  ==_iff (as_db_str kind) (as_db_str kind'),
)

find-keyed :
    (user : String) (kind : WindowKind) (start : ℤ) (r : WindowRow) (table : Table)
    → has_key user kind r ≡ true
    → All (λ q. same_key r q ≡ false) table
    → find (λ q. has_key user kind q && q.start == start) table ≡ none
find-keyed user kind start r [] e h = refl
find-keyed user kind start r (q ∷ table) e h = ground (
  arith,
  find-keyed user kind start r table e h.1,
  h.0,
  ==_iff r.user_id user,
  ==_iff q.user_id user,
  ==_iff q.user_id r.user_id,
  ==_iff r.kind (as_db_str kind),
  ==_iff q.kind (as_db_str kind),
  ==_iff q.kind r.kind,
)

-- With one row for each key, the row that `stored_count` finds is the row of the key.
stored_count-in_window :
    (user : String) (kind : WindowKind) (start : ℕ) (table : Table)
    → IsKeyed table
    → stored_count user kind start table
      ≡ in_window (u64_to_i64 start) (find (has_key user kind) table)
unfolding stored_count
stored_count-in_window user kind start [] h = refl
stored_count-in_window user kind start (r ∷ table) h = elim (Bool-cases (has_key user kind r)) [
  | inr e ↦ ground (arith, stored_count-in_window user kind start table h.2)
  | inl e ↦ ground (arith, find-keyed user kind (u64_to_i64 start) r table e h.0)
]

upsert-same_key :
    (q : WindowRow) (user : String) (kind : WindowKind) (tokens start : ℤ) (table : Table)
    → has_key user kind q ≡ false
    → All (λ r. same_key q r ≡ false) table
    → All (λ r. same_key q r ≡ false) (upsert user kind tokens start table)
unfolding upsert
upsert-same_key q user kind tokens start [] e h = (
  ground (
    arith,
    ==_iff q.user_id user,
    ==_iff q.kind (as_db_str kind),
    ==_iff user q.user_id,
    ==_iff (as_db_str kind) q.kind,
  ),
  tt,
)
upsert-same_key q user kind tokens start (r ∷ table) e h = elim (Bool-cases (has_key user kind r)) [
  | inl f ↦ rw f h
  | inr f ↦ rw f (h.0, upsert-same_key q user kind tokens start table e h.1)
]

raised-pos :
    (r : WindowRow) (n : ℕ) (start : ℤ)
    → (m : ℕ) × (r.count ≡ pos m)
    → (m : ℕ) × ((if r.start == start then r.count +ℤ pos n else pos n) ≡ pos m)
unfolding ◌+ℤ◌
raised-pos r n start (m, e) = ((if r.start == start then m + n else n), ground arith)

pub upsert-IsKeyed :
    (user : String) (kind : WindowKind) (n : ℕ) (start : ℤ) (table : Table)
    → IsKeyed table
    → IsKeyed (upsert user kind (pos n) start table)
unfolding upsert
upsert-IsKeyed user kind n start [] h = (tt, (n, refl), tt)
upsert-IsKeyed user kind n start (r ∷ table) h = elim (Bool-cases (has_key user kind r)) [
  | inl e ↦ rw e (h.0, raised-pos r n start h.1, h.2)
  | inr e ↦ rw e (
    upsert-same_key r user kind (pos n) start table e h.0,
    h.1,
    upsert-IsKeyed user kind n start table h.2,
  )
]

pub record_window-IsKeyed :
    (now : ℕ) (user : String) (tokens : ℕ) (kind : WindowKind) (table : Table)
    → IsKeyed table
    → IsKeyed (record_window now user tokens kind table)
unfolding record_window u64_to_i64
record_window-IsKeyed now user tokens kind table h = elim (Bool-cases (leb tokens i64_max)) [
  | inl e ↦ rw e (upsert-IsKeyed user kind tokens _ table h)
  | inr e ↦ rw e (upsert-IsKeyed user kind i64_max _ table h)
]

find-count :
    (user : String) (kind : WindowKind) (table : Table) {r : WindowRow}
    → IsKeyed table
    → find (has_key user kind) table ≡ some r
    → (n : ℕ) × (r.count ≡ pos n)
find-count user kind [] h e = absurd (ground arith)
find-count user kind (q ∷ table) {r} h e = elim (Bool-cases (has_key user kind q)) [
  | inl f ↦ (h.1.0, ap (λ (x : WindowRow). x.count) (sym (found f)) ∙ h.1.1)
  | inr f ↦ find-count user kind table {r = r} h.2 (ground arith)
]
  where
    found : has_key user kind q ≡ true → q ≡ r
    found f = ground arith

in_window-upserted :
    (tokens start start' : ℕ) (user : String) (kind : WindowKind) (o : Option WindowRow)
    → ((r : WindowRow) → o ≡ some r → (n : ℕ) × (r.count ≡ pos n))
    → in_window (pos start') (some (upserted (pos tokens) (pos start) user kind o))
      ≡ (if start == start' then in_window (pos start') o + tokens else 0)
unfolding ◌+ℤ◌
in_window-upserted tokens start start' user kind none h = ground arith
in_window-upserted tokens start start' user kind (some r) h = let (n, e) = h r refl in ground arith

abbrev pub same_kind : WindowKind → WindowKind → Bool
same_kind day day = true
same_kind hour hour = true
same_kind month month = true
same_kind _ _ = false

==-as_db_str : (a b : WindowKind) → (as_db_str a == as_db_str b) ≡ same_kind a b
unfolding as_db_str
==-as_db_str day day = refl
==-as_db_str day hour = refl
==-as_db_str day month = refl
==-as_db_str hour day = refl
==-as_db_str hour hour = refl
==-as_db_str hour month = refl
==-as_db_str month day = refl
==-as_db_str month hour = refl
==-as_db_str month month = refl

-- What `stored_count` finds in one window after a write to a window of the same or of another key.
pub stored_count-record_window :
    (now : ℕ) (user user' : String) (tokens : ℕ) (kind kind' : WindowKind) (start : ℕ)
    (table : Table)
    → IsKeyed table
    → tokens ≤ i64_max
    → now ≤ i64_max
    → start ≤ i64_max
    → stored_count user' kind' start (record_window now user tokens kind table) ≡ (
        if user == user' && same_kind kind kind'
        then (if window_start kind now == start
            then stored_count user' kind' start table + tokens
            else 0)
        else stored_count user' kind' start table)
unfolding record_window
stored_count-record_window now user user' tokens kind kind' start table h t n s =
    rw
      (stored_count-in_window user' kind' start _
        (record_window-IsKeyed now user tokens kind table h))
      (rw (stored_count-in_window user' kind' start table h) (
        ground (
          arith,
          u64_to_i64-pos start s,
          u64_to_i64-pos tokens t,
          u64_to_i64-pos (window_start kind now) (omega arith),
          find-upsert user user' kind kind' (pos tokens) (pos (window_start kind now)) table,
          in_window-upserted tokens (window_start kind now) start user kind
              (find (has_key user kind) table) (λ r e. find-count user kind table h e),
          ==_iff user user',
          ==_iff (as_db_str kind) (as_db_str kind'),
          ==-as_db_str kind kind',
        )))

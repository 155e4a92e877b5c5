-- ===== src/Storage/Files/Rows.antt =====
-- What a deletion and an insertion keep of the rows of crates/storage/src/store.rs.
use coulisse.Prelude.{
  String, ◌≡◌, ◌≢◌, inl, inr, sym, Bool, false, List, [], ◌∷◌, ◌++◌, Bool-cases, ◌==◌, ==_iff,
  string_eq, map, keep, All, All-mem, All-append, Distinct, All-keep,
}
use coulisse.Storage.{FileRow, has_id}
use coulisse.Storage.Eviction.{IsKeyed}

pub ne_test : (a b : String) → a ≢ b → (a == b) ≡ false
ne_test a b n = elim (Bool-cases (a == b)) [ inl e ↦ absurd (n ((==_iff a b).0 e)) | inr e ↦ e ]

pub IsKeyed-keep : (p : FileRow → Bool) (rows : List FileRow) → IsKeyed rows → IsKeyed (keep p rows)
IsKeyed-keep p [] k = tt
IsKeyed-keep p (row ∷ rows) k = elim (Bool-cases (p row)) [
  | inl e ↦ rw e (
    All-keep (λ r. has_id row.id r ≡ false) p rows (λ r m _. All-mem _ k.0 m),
    IsKeyed-keep p rows k.1,
  )
  | inr e ↦ rw e (IsKeyed-keep p rows k.1)
]

pub IsKeyed-append_one :
    (rows : List FileRow) (new : FileRow)
    → All (λ row. row.id ≢ new.id) rows
    → IsKeyed rows
    → IsKeyed (rows ++ new ∷ [])
IsKeyed-append_one [] new f k = (tt, tt)
IsKeyed-append_one (row ∷ rows) new f k = (
  All-append (λ r. has_id row.id r ≡ false) rows (new ∷ []) k.0
      (ne_test new.id row.id (λ e. f.0 (sym e)), tt),
  IsKeyed-append_one rows new f.1 k.1,
)

All-map_keep {ℓ} :
    {K : Type 0} (P : K → Type ℓ) (key : FileRow → K) (p : FileRow → Bool) (rows : List FileRow)
    → All P (map key rows)
    → All P (map key (keep p rows))
All-map_keep P key p [] h = tt
All-map_keep P key p (row ∷ rows) h = elim (Bool-cases (p row)) [
  | inl e ↦ rw e (h.0, All-map_keep P key p rows h.1)
  | inr e ↦ rw e (All-map_keep P key p rows h.1)
]

pub Distinct-map-keep :
    {K : Type 0} (key : FileRow → K) (p : FileRow → Bool) (rows : List FileRow)
    → Distinct (map key rows)
    → Distinct (map key (keep p rows))
Distinct-map-keep key p [] h = tt
Distinct-map-keep key p (row ∷ rows) h = elim (Bool-cases (p row)) [
  | inl e ↦ rw e (All-map_keep (λ k. key row ≢ k) key p rows h.0, Distinct-map-keep key p rows h.1)
  | inr e ↦ rw e (Distinct-map-keep key p rows h.1)
]

-- ===== src/Storage/Eviction.antt =====
-- What the eviction of crates/storage/src/store.rs leaves.
use mathlib.Core.List.Permᴰ
use mathlib.Core.List.{Permᴰ, Memᴰ}
use coulisse.Prelude.{
  ==_refl, subst, mem-perm, ℕ, ◌+◌, ◌-◌, ◌≤◌, String, ◌≡◌, refl, sym, ap, ◌∙◌, Bool, false, not,
  some, List, [], ◌∷◌, leb, ==_iff, string_eq, ok, ◌⊎◌, inl, inr, find, keep, All, All-perm,
  Bool-cases, arith,
}
use coulisse.Prelude.Int.{pos_part}
use coulisse.Sql.{Ordering, delete_where}
use coulisse.Storage.{
  FileRow, Index, Store, has_id, blob_key_for, stored_bytes, evict, evict_rows, evict_within,
}

keep-cons_perm :
    {A : Type 0} (p : A → Bool) (a : A) (xs ys : List A)
    → Permᴰ (keep p xs) (keep p ys)
    → Permᴰ (keep p (a ∷ xs)) (keep p (a ∷ ys))
keep-cons_perm p a xs ys h = elim (Bool-cases (p a)) [
  | inl e ↦ rw e (Permᴰ.cons refl h)
  | inr e ↦ rw e h
]

keep-swap_perm :
    {A : Type 0} (p : A → Bool) (a b : A) (l : List A)
    → Permᴰ (keep p (a ∷ b ∷ l)) (keep p (b ∷ a ∷ l))
keep-swap_perm p a b l = elim (Bool-cases (p a)) [
  | inl e ↦ rw e elim (Bool-cases (p b)) [
    | inl f ↦ rw f (Permᴰ.swap refl refl)
    | inr f ↦ rw f (Permᴰ.refl (a ∷ keep p l))
  ]
  | inr e ↦ rw e elim (Bool-cases (p b)) [
    | inl f ↦ rw f (Permᴰ.refl (b ∷ keep p l))
    | inr f ↦ rw f (Permᴰ.refl (keep p l))
  ]
]

keep-perm :
    {A : Type 0} (p : A → Bool) {xs ys : List A} → Permᴰ xs ys → Permᴰ (keep p xs) (keep p ys)
keep-perm p Permᴰ.nil = Permᴰ.nil
keep-perm p (Permᴰ.cons {a} {b} {l₁} {l₂} e h) =
    subst (λ c. Permᴰ (keep p (a ∷ l₁)) (keep p (c ∷ l₂))) e
      (keep-cons_perm p a l₁ l₂ (keep-perm p h))
keep-perm p (Permᴰ.swap {a} {b} {a' = a'} {b' = b'} {l} e f) =
    subst (λ c. Permᴰ (keep p (a ∷ b ∷ l)) (keep p (a' ∷ c ∷ l))) e
      (subst (λ c. Permᴰ (keep p (a ∷ b ∷ l)) (keep p (c ∷ a ∷ l))) f (keep-swap_perm p a b l))
keep-perm p (Permᴰ.trans h k) = Permᴰ.trans (keep-perm p h) (keep-perm p k)

stored_bytes-perm : {xs ys : Index} → Permᴰ xs ys → stored_bytes xs ≡ stored_bytes ys
stored_bytes-perm Permᴰ.nil = refl
stored_bytes-perm (Permᴰ.cons e h) =
    omega (arith, ap (λ r. pos_part r.bytes) e, stored_bytes-perm h)
stored_bytes-perm (Permᴰ.swap e f) =
    omega (arith, ap (λ r. pos_part r.bytes) e, ap (λ r. pos_part r.bytes) f)
stored_bytes-perm (Permᴰ.trans h k) = stored_bytes-perm h ∙ stored_bytes-perm k

-- No two rows have one id.
abbrev pub IsKeyed : List FileRow → Type 0
IsKeyed [] = Unit
IsKeyed (row ∷ rows) = All (λ r. has_id row.id r ≡ false) rows × IsKeyed rows

pub other_sym : (a b : FileRow) → has_id a.id b ≡ false → has_id b.id a ≡ false
other_sym a b h = elim (Bool-cases (has_id b.id a)) [
  | inl e ↦ absurd (ground (arith, (==_iff b.id a.id).1 (sym ((==_iff a.id b.id).0 e))))
  | inr e ↦ e
]

IsKeyed-swap : (a b : FileRow) (l : List FileRow) → IsKeyed (a ∷ b ∷ l) → IsKeyed (b ∷ a ∷ l)
IsKeyed-swap a b l k = ((other_sym a b k.0.0, k.1.0), (k.0.1, k.1.1))

IsKeyed-perm : {xs ys : List FileRow} → Permᴰ xs ys → IsKeyed xs → IsKeyed ys
IsKeyed-perm Permᴰ.nil k = k
IsKeyed-perm (Permᴰ.cons {a} {b} {l₁} {l₂} e h) k =
    subst (λ c. IsKeyed (c ∷ l₂)) e
      (All-perm (λ r. has_id a.id r ≡ false) h k.0, IsKeyed-perm h k.1)
IsKeyed-perm (Permᴰ.swap {a} {b} {a' = a'} {b' = b'} {l} e f) k =
    subst (λ c. IsKeyed (a' ∷ c ∷ l)) e (subst (λ c. IsKeyed (c ∷ a ∷ l)) f (IsKeyed-swap a b l k))
IsKeyed-perm (Permᴰ.trans h h') k = IsKeyed-perm h' (IsKeyed-perm h k)

pub keep-others :
    (id : String) (rows : List FileRow)
    → All (λ r. has_id id r ≡ false) rows
    → keep (λ r. not (has_id id r)) rows ≡ rows
keep-others id [] h = refl
keep-others id (r ∷ rows) h = rw h.0 (ap (λ rs. r ∷ rs) (keep-others id rows h.1))

keep-first :
    (row : FileRow) (rows : List FileRow)
    → keep (λ r. not (has_id row.id r)) (row ∷ rows) ≡ keep (λ r. not (has_id row.id r)) rows
keep-first row rows = rw (==_refl row.id) refl

delete-perm :
    (row : FileRow) (rows : List FileRow) (index : Index)
    → IsKeyed (row ∷ rows)
    → Permᴰ (row ∷ rows) index
    → Permᴰ rows (delete_where (has_id row.id) index)
unfolding delete_where
delete-perm row rows index k h =
    subst (λ rs. Permᴰ rs (keep (λ r. not (has_id row.id r)) index))
      (keep-first row rows ∙ keep-others row.id rows k.0) (keep-perm (λ r. not (has_id row.id r)) h)

find-own :
    (row : FileRow) (index : Index)
    → Memᴰ row index
    → (found : FileRow) × (find (has_id row.id) index ≡ some found)
find-own row [] m = elim m [ ]
find-own row (r ∷ index) (Memᴰ.head e) =
    let own = ap (λ q. has_id row.id q) (sym e) ∙ ==_refl row.id in (r, rw own refl)
find-own row (r ∷ index) (Memᴰ.tail m) = elim (Bool-cases (has_id row.id r)) [
  | inl h ↦ (r, rw h refl)
  | inr h ↦ let found = find-own row index m in (found.0, rw h found.1)
]

blob_key_for-perm :
    (row : FileRow) (rows : List FileRow) (index : Index)
    → Permᴰ (row ∷ rows) index
    → (key : String) × (blob_key_for row.id index ≡ ok key)
unfolding blob_key_for
blob_key_for-perm row rows index h =
    let found = find-own row index (mem-perm h (Memᴰ.head refl)) in
    (found.0.storage_key, rw found.1 refl)

perm-nil : {xs ys : List FileRow} → Permᴰ xs ys → xs ≡ [] → ys ≡ []
perm-nil Permᴰ.nil n = refl
perm-nil (Permᴰ.cons e h) n = absurd (cc n)
perm-nil (Permᴰ.swap e f) n = absurd (cc n)
perm-nil (Permᴰ.trans h k) n = perm-nil k (perm-nil h n)

module _ {Blobs : Type 0} (delete_blob : String → Blobs → Blobs) where
  -- What the loop leaves: enough is freed, or nothing is left.
  evict_rows-frees :
      (rows : List FileRow) (needed freed : ℕ) (store : Store Blobs)
      → IsKeyed rows
      → Permᴰ rows store.index
      → (after : Store Blobs) × (evict_rows delete_blob rows needed freed store ≡ (ok tt, after))
        × ((needed + stored_bytes after.index ≤ freed + stored_bytes store.index)
            ⊎ (after.index ≡ []))
  unfolding evict_rows
  evict_rows-frees [] needed freed store k h = (store, refl, inr (perm-nil h refl))
  evict_rows-frees (row ∷ rows) needed freed store k h = elim (Bool-cases (leb needed freed)) [
    | inl e ↦ rw e (store, refl, inl (ground arith))
    | inr e ↦
        let found = blob_key_for-perm row rows store.index h in
        let r =
          evict_rows-frees rows needed (freed + pos_part row.bytes)
            (evict delete_blob row found.0 store) k.1 (delete-perm row rows store.index k h) in
        rw e rw found.1 (
          r.0,
          r.1,
          elim r.2 [
            | inl le ↦ inl (
                omega (
                  arith,
                  le,
                  stored_bytes-perm h,
                  stored_bytes-perm (delete-perm row rows store.index k h),
                ))
            | inr n ↦ inr n
          ],
        )
  ]

  -- When no two rows have one id, an eviction for a quota on the total succeeds, and afterwards the
  -- incoming file fits beside the files that are left, or no file is left.
  pub evict_within_fits :
      (o : Ordering) (max_total incoming : ℕ) (store : Store Blobs)
      → IsKeyed store.index
      → (after : Store Blobs) × (evict_within delete_blob o max_total incoming store
          ≡ (ok tt, after))
        × ((stored_bytes after.index + incoming ≤ max_total) ⊎ (after.index ≡ []))
  unfolding evict_within
  evict_within_fits o max_total incoming store k =
      elim (Bool-cases (leb (stored_bytes store.index + incoming) max_total)) [
        | inl e ↦ rw e (store, refl, inl (ground arith))
        | inr e ↦
            let r =
              evict_rows-frees (o.order_by FileRow (λ r. r.created_at) store.index)
                (stored_bytes store.index + incoming - max_total) 0 store
                (IsKeyed-perm (Permᴰ.symm (o.order_by-perm FileRow (λ r. r.created_at) store.index))
                  k)
                (o.order_by-perm FileRow (λ r. r.created_at) store.index) in
            rw e (r.0, r.1, elim r.2 [ inl le ↦ inl (ground (arith, e, le)) | inr n ↦ inr n ])
      ]

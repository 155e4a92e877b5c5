-- ===== src/Config/Expansion/Lines.antt =====
-- The line that `locate` of cli/src/config.rs reports for a byte offset.
use coulisse.Prelude.{
  ℕ, suc, ◌+◌, ◌≤◌, min, ◌≡◌, ◌≢◌, ◌⊎◌, inl, inr, refl, ap, ◌∙◌, true, false, List, [], ◌∷◌, ◌++◌,
  if◌then◌else◌, leb, ◌==◌, ==_iff, nat_eq, length, length-append, All, arith, Bool-cases,
}
use coulisse.Config.Expansion.{scan_lines, drop, to_newline, locate}

abbrev pub newlines : List ℕ → ℕ
newlines [] = 0
newlines (b ∷ bs) = let rest = newlines bs in if b == 10 then suc rest else rest

abbrev start_after : ℕ → ℕ → List ℕ → ℕ
start_after i start [] = start
start_after i start (b ∷ bs) = start_after (i + 1) (if b == 10 then i + 1 else start) bs

moved :
    (clamped start : ℕ) (ys : List ℕ) {i j number later : ℕ}
    → i ≡ j
    → number ≡ later
    → scan_lines clamped i number start ys ≡ scan_lines clamped j later start ys
moved clamped start ys {i} {j} {number} {later} e n =
    ap (λ k. scan_lines clamped k number start ys) e ∙ ap (λ k. scan_lines clamped j k start ys) n

-- A list that ends before the offset is passed over.
scan_lines-append :
    (clamped i number start : ℕ) (xs ys : List ℕ)
    → i + length xs ≤ clamped
    → scan_lines clamped i number start (xs ++ ys)
      ≡ scan_lines clamped (i + length xs) (number + newlines xs) (start_after i start xs) ys
unfolding scan_lines
scan_lines-append clamped i number start [] ys h =
    moved clamped start ys (omega arith) (omega arith)
scan_lines-append clamped i number start (x ∷ xs) ys h =
    let below : leb clamped i ≡ false = ground arith in
    elim (Bool-cases (x == 10)) [
      | inl t ↦ rw t rw below (
          scan_lines-append clamped (i + 1) (number + 1) (i + 1) xs ys (omega arith)
          ∙ moved clamped _ ys (omega arith) (omega arith))
      | inr t ↦ rw t rw below (
          scan_lines-append clamped (i + 1) number start xs ys (omega arith)
          ∙ moved clamped _ ys (omega arith) refl)
    ]

-- Within a line, the number and the start stay.
scan_lines-within :
    (clamped i number start : ℕ) (xs ys : List ℕ)
    → All (λ b. b ≢ 10) xs
    → clamped ≤ i + length xs
    → scan_lines clamped i number start (xs ++ ys) ≡ (number, start)
unfolding scan_lines
scan_lines-within clamped i number start [] [] p h = refl
scan_lines-within clamped i number start [] (y ∷ ys) p h =
    let reached : leb clamped i ≡ true = ground arith in rw reached refl
scan_lines-within clamped i number start (x ∷ xs) ys p h = elim (Bool-cases (leb clamped i)) [
  | inl t ↦ rw t refl
  | inr t ↦ elim (Bool-cases (x == 10)) [
    | inl e ↦ absurd (p.0 ((==_iff x 10).0 e))
    | inr e ↦ rw t rw e (scan_lines-within clamped (i + 1) number start xs ys p.1 (omega arith))
  ]
]

start_after-newline :
    (i start : ℕ) (xs : List ℕ) → start_after i start (xs ++ 10 ∷ []) ≡ i + length (xs ++ 10 ∷ [])
start_after-newline i start [] = refl
start_after-newline i start (x ∷ xs) =
    start_after-newline (i + 1) (if x == 10 then i + 1 else start) xs ∙ omega arith

-- Nothing, or lines that are complete.
abbrev pub AreLines : List ℕ → Type 0
AreLines before = (before ≡ []) ⊎ ((bs : List ℕ) × (before ≡ bs ++ 10 ∷ []))

-- The end of the file, or of the line.
abbrev pub EndsLine : List ℕ → Type 0
EndsLine [] = Unit
EndsLine (b ∷ bs) = b ≡ 10

start_after-lines : (before : List ℕ) → AreLines before → start_after 0 0 before ≡ length before
start_after-lines before (inl e) = rw e refl
start_after-lines before (inr (bs, e)) = rw e (start_after-newline 0 0 bs ∙ omega arith)

drop-append : (xs ys : List ℕ) → drop (length xs) (xs ++ ys) ≡ ys
drop-append [] ys = refl
drop-append (x ∷ xs) ys = drop-append xs ys

to_newline-append :
    (line after : List ℕ)
    → All (λ b. b ≢ 10) line
    → EndsLine after
    → to_newline (line ++ after) ≡ line
to_newline-append [] [] p e = refl
to_newline-append [] (b ∷ bs) p e = rw e refl
to_newline-append (x ∷ line) after p e = elim (Bool-cases (x == 10)) [
  | inl t ↦ absurd (p.0 ((==_iff x 10).0 t))
  | inr t ↦ rw t (ap (λ bs. x ∷ bs) (to_newline-append line after p.1 e))
]

-- For an offset on a line of the source, or on the newline that ends it, the line's number is one
-- more than the newlines before it, and its content is the line without its newline.
pub locate-line :
    (before line after : List ℕ) (offset : ℕ)
    → AreLines before
    → All (λ b. b ≢ 10) line
    → EndsLine after
    → length before ≤ offset
    → offset ≤ length before + length line
    → locate (before ++ (line ++ after)) offset ≡ (1 + newlines before, line)
unfolding locate
locate-line before line after offset lines plain ends low high =
    let source = before ++ (line ++ after) in
    let long = length-append before (line ++ after) in
    let rest = length-append line after in
    let clamped = min offset (length source) in
    let within : clamped ≤ length before + length line = omega arith in
    let beyond : 0 + length before ≤ clamped = omega (arith, long, rest) in
    let found : scan_lines clamped 0 1 0 source ≡ (1 + newlines before, length before) =
      scan_lines-append clamped 0 1 0 before (line ++ after) beyond
      ∙ (scan_lines-within clamped (0 + length before) (1 + newlines before)
            (start_after 0 0 before) line after plain (omega (arith, within))
          ∙ ap (λ k. (1 + newlines before, k)) (start_after-lines before lines)) in
    rw found (
      ap (λ text. (1 + newlines before, to_newline text)) (drop-append before (line ++ after))
      ∙ ap (λ text. (1 + newlines before, text)) (to_newline-append line after plain ends))

-- ===== src/StateStore/Window.antt =====
-- The rows of one list, as they stand in chat_sdk_lists: consecutive indices, no expiry.
use paraclaw.Prelude.{
  ℕ, zero, suc, ◌+◌, ◌-◌, ◌≤◌, ◌<◌, ◌≡◌, refl, ap, false, not, Text, none, some, List, [], ◌∷◌,
  ◌++◌, filter, any, drop, length, leb, ◌==◌, Bool-cases, inl, inr, arith,
}
use paraclaw.StateStore.{ListRow, is_past, max_idx, by_idx, insert_by_idx}

-- The entries `q`, oldest first, at the indices from `n` on.
pub data Window : ℕ → List Text → List ListRow → Type 0 where
  over : {n : ℕ} → Window n [] []
  next :
      {n : ℕ} {q : List Text} {rows : List ListRow} (r : ListRow)
      → r.idx ≡ n
      → r.expires_at ≡ none
      → Window (suc n) q rows
      → Window n (r.value ∷ q) (r ∷ rows)

pub length-Window :
    {n : ℕ} {q : List Text} {rows : List ListRow} → Window n q rows → length rows ≡ length q
length-Window over = refl
length-Window (next r i e w) = ap suc (length-Window w)

-- A row appended at the next index extends the window.
pub Window-append :
    {n : ℕ} {q : List Text} {rows : List ListRow} (r : ListRow)
    → Window n q rows
    → r.idx ≡ n + length q
    → r.expires_at ≡ none
    → Window n (q ++ (r.value ∷ [])) (rows ++ (r ∷ []))
Window-append r over i e = next r (omega arith) e over
Window-append r (next r' i' e' w) i e = next r' i' e' (Window-append r w (omega arith) e)

-- The greatest index of a window with rows is its last one.
pub max_idx-Window :
    {n : ℕ} {x : Text} {q : List Text} {rows : List ListRow}
    → Window n (x ∷ q) rows
    → max_idx rows ≡ some (n + length q)
unfolding max_idx
max_idx-Window (next r i e over) = ground arith
max_idx-Window (next r i e (next r' i' e' w)) =
    ground (arith, max_idx-Window {x = r'.value} (next r' i' e' w))

-- No row has an index past the end.
pub any-Window :
    {n : ℕ} (i : ℕ) {q : List Text} {rows : List ListRow}
    → Window n q rows
    → n + length q ≤ i
    → any (λ r. r.idx == i) rows ≡ false
any-Window i over h = refl
any-Window i (next r j e w) h = ground (arith, any-Window i w (omega arith))

-- A cut below the window removes nothing, one inside it removes the oldest entries.
filter-Window_below :
    {n : ℕ} (c : ℕ) {q : List Text} {rows : List ListRow}
    → Window n q rows
    → c < n
    → filter (λ r. not (leb r.idx c)) rows ≡ rows
filter-Window_below c over h = refl
filter-Window_below c (next r i e w) h = ground (arith, filter-Window_below c w (omega arith))

drop_nil : (k : ℕ) → drop {A = Text} k [] ≡ []
drop_nil zero = refl
drop_nil (suc k) = refl

pub filter-Window :
    {n : ℕ} (c : ℕ) {q : List Text} {rows : List ListRow}
    → Window n q rows
    → (m : ℕ) × Window m (drop (suc c - n) q) (filter (λ r. not (leb r.idx c)) rows)
filter-Window {n} c over = (n, rw (drop_nil (suc c - n)) over)
filter-Window {n} c {rows = r ∷ rows} (next _ i e w) = elim (Bool-cases (leb n c)) [
  | inl inside ↦
      let (m, rest) = filter-Window c w in
      let count : suc c - n ≡ suc (suc c - suc n) = ground arith in
      let gone : filter (λ r. not (leb r.idx c)) (r ∷ rows) ≡ filter (λ r. not (leb r.idx c)) rows =
        ground arith in
      (m, rw (count, gone) rest)
  | inr below ↦
      let count : suc c - n ≡ 0 = ground arith in
      let kept = filter-Window_below c (next r i e w) (ground arith) in
      (n, rw (count, kept) (next r i e w))
]

-- Taking out the row at the first index leaves the others.
filter-Window_other :
    {n : ℕ} (i : ℕ) {q : List Text} {rows : List ListRow}
    → Window n q rows
    → i < n
    → filter (λ r. not (r.idx == i)) rows ≡ rows
filter-Window_other i over h = refl
filter-Window_other i (next r j e w) h = ground (arith, filter-Window_other i w (omega arith))

pub filter-Window_first :
    {n : ℕ} {q : List Text} (r : ListRow) {rows : List ListRow}
    → r.idx ≡ n
    → Window (suc n) q rows
    → filter (λ s. not (s.idx == r.idx)) (r ∷ rows) ≡ rows
filter-Window_first r i w = ground (arith, filter-Window_other r.idx w (omega arith))

-- A cleanup leaves a window alone: nothing in it expires.
pub filter-Window_past :
    {n : ℕ} (now : ℕ) {q : List Text} {rows : List ListRow}
    → Window n q rows
    → filter (λ r. not (is_past now r.expires_at)) rows ≡ rows
filter-Window_past now over = refl
filter-Window_past now (next r i e w) = rw (e, filter-Window_past now w) refl

-- A window is in the order of its indices.
pub by_idx-Window :
    {n : ℕ} {q : List Text} {rows : List ListRow} → Window n q rows → by_idx rows ≡ rows
unfolding by_idx insert_by_idx
by_idx-Window over = refl
by_idx-Window (next r i e over) = refl
by_idx-Window (next r i e (next r' i' e' w)) = rw (by_idx-Window (next r' i' e' w)) (ground arith)

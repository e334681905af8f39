-- ===== src/StateStore/Select.antt =====
-- The rows of one key after an insertion or a deletion.
use paraclaw.Prelude.{
  ℕ, zero, suc, ◌+◌, ◌-◌, ◌≡◌, refl, ap, ◌∙◌, Bool, true, false, not, ◌&&◌, Text, text_eq,
  text_eq_iff, text_eq_refl, none, some, List, [], ◌∷◌, ◌++◌, filter, any, length, length-append,
  leb, ◌==◌, Bool-cases, inl, inr, arith,
}
use mathlib.Core.List.{append-nil}
use paraclaw.StateStore.{ListRow, in_list, at_idx, max_idx, next_idx, trim_list, queue_key}
use paraclaw.StateStore.Window.{Window, over, next, Window-append, max_idx-Window, filter-Window}
use paraclaw.StateStore.Calls.{newest}

-- A selection inside another.
pub filter-filter :
    (p q q' : ListRow → Bool) (rows : List ListRow)
    → ((r : ListRow) → p r ≡ true → q r ≡ q' r)
    → filter p (filter q rows) ≡ filter q' (filter p rows)
filter-filter p q q' [] same = refl
filter-filter p q q' (r ∷ rows) same = elim (Bool-cases (p r)) [
  | inl chosen ↦ ground (arith, filter-filter p q q' rows same, same r chosen)
  | inr passed ↦ ground (arith, filter-filter p q q' rows same)
]

filter_all : (rows : List ListRow) → filter (λ r. true) rows ≡ rows
filter_all [] = refl
filter_all (r ∷ rows) = ap (λ rest. r ∷ rest) (filter_all rows)

-- A deletion under one key leaves the rows of another.
pub filter-filter_apart :
    (p q : ListRow → Bool) (rows : List ListRow)
    → ((r : ListRow) → p r ≡ true → q r ≡ true)
    → filter p (filter q rows) ≡ filter p rows
filter-filter_apart p q rows kept =
    filter-filter p q (λ r. true) rows kept ∙ filter_all (filter p rows)

filter-append :
    (p : ListRow → Bool) (rows more : List ListRow)
    → filter p (rows ++ more) ≡ filter p rows ++ filter p more
filter-append p [] more = refl
filter-append p (r ∷ rows) more = ground (arith, filter-append p rows more)

pub any-filter :
    (key : Text) (i : ℕ) (rows : List ListRow)
    → any (at_idx key i) rows ≡ any (λ r. r.idx == i) (filter (in_list key) rows)
any-filter key i [] = refl
any-filter key i (r ∷ rows) = ground (arith, any-filter key i rows)

-- The next index comes after the last row, and is 0 without one.
following :
    {n : ℕ} {q : List Text} {rows : List ListRow}
    → Window n q rows
    → (m : ℕ) × Window m q rows
      × ((elim (max_idx rows) [ none ↦ 0 | some last ↦ last + 1 ]) ≡ m + length q)
unfolding max_idx
following over = (0, over, refl)
following {n} {q = x ∷ q} (next r i e w) =
    (n, next r i e w, rw (max_idx-Window (next r i e w)) (omega arith))

pub next_idx-Window :
    {n : ℕ} {q : List Text} (key : Text) (rows : List ListRow)
    → Window n q (filter (in_list key) rows)
    → (m : ℕ) × Window m q (filter (in_list key) rows) × (next_idx key rows ≡ m + length q)
unfolding next_idx
next_idx-Window key rows w = following w

-- Trimming leaves the newest entries.
trim_list-Window :
    {m : ℕ} {q : List Text} (key : Text) (idx max_size : ℕ) (rows : List ListRow)
    → Window m q (filter (in_list key) rows)
    → idx + 1 ≡ m + length q
    → (k : ℕ) × Window k
        (newest max_size q)
        (filter (in_list key) (trim_list key idx (some max_size) rows))
unfolding trim_list
trim_list-Window {m} key idx zero rows w e = (m, w)
trim_list-Window {m} {q} key idx (suc n) rows w e = elim (Bool-cases (leb (suc n) idx)) [
  | inl full ↦
      let (k, cut) = filter-Window (idx - suc n) w in
      let count : length q - suc n ≡ suc (idx - suc n) - m = ground arith in
      let kept : filter (in_list key)
            (filter (λ r. not (in_list key r && leb r.idx (idx - suc n))) rows)
          ≡ filter (λ r. not (leb r.idx (idx - suc n))) (filter (in_list key) rows) =
        filter-filter (in_list key) (λ r. not (in_list key r && leb r.idx (idx - suc n)))
          (λ r. not (leb r.idx (idx - suc n))) rows (λ r h. rw h refl) in
      (k, rw (full, count) (rw kept cut))
  | inr short ↦ let count : length q - suc n ≡ 0 = ground arith in (m, rw (short, count) w)
]

queue_key_inj : (t u : Text) → text_eq (queue_key t) (queue_key u) ≡ text_eq t u
unfolding text_eq queue_key
queue_key_inj t u = refl

-- A row of one queue is in no other one.
pub apart :
    (t u : Text) (r : ListRow)
    → text_eq u t ≡ false
    → in_list (queue_key u) r ≡ true
    → in_list (queue_key t) r ≡ false
apart t u r ne h = rw ((text_eq_iff r.key (queue_key u)).0 h, queue_key_inj u t) ne

trim_list_apart :
    (t u : Text) (idx max_size : ℕ) (rows : List ListRow)
    → text_eq u t ≡ false
    → filter (in_list (queue_key u)) (trim_list (queue_key t) idx (some max_size) rows)
      ≡ filter (in_list (queue_key u)) rows
unfolding trim_list
trim_list_apart t u idx zero rows ne = refl
trim_list_apart t u idx (suc n) rows ne = elim (Bool-cases (leb (suc n) idx)) [
  | inl full ↦ rw full (
      filter-filter_apart (in_list (queue_key u))
        (λ r. not (in_list (queue_key t) r && leb r.idx (idx - suc n))) rows
        (λ r h. rw (apart t u r ne h) refl))
  | inr short ↦ rw short refl
]

-- The row that `appendToList` inserts for a queue.
abbrev pub queued : Text → ℕ → Text → ListRow
queued key idx text = record { key = key; idx = idx; value = text; expires_at = none }

-- The list that is appended to.
pub append_own :
    {m : ℕ} {q : List Text} (key : Text) (idx : ℕ) (text : Text) (max_size : ℕ)
    (rows : List ListRow)
    → Window m q (filter (in_list key) rows)
    → idx ≡ m + length q
    → (k : ℕ) × Window k (newest max_size (q ++ (text ∷ []))) (
        filter
          (in_list key)
          (trim_list key idx (some max_size) (rows ++ (queued key idx text ∷ []))))
append_own {m} {q} key idx text max_size rows w at =
    trim_list-Window {m = m} {q = q ++ (text ∷ [])} key idx max_size
      (rows ++ (queued key idx text ∷ []))
      (rw (filter-append (in_list key) rows (queued key idx text ∷ []), text_eq_refl key)
        (Window-append (queued key idx text) w at refl))
      (omega (arith, length-append q (text ∷ [])))

-- Another thread's list.
pub append_apart :
    (t u : Text) (idx : ℕ) (text : Text) (max_size : ℕ) (rows : List ListRow)
    → text_eq t u ≡ false
    → text_eq u t ≡ false
    → filter
        (in_list (queue_key u))
        (trim_list (queue_key t) idx (some max_size) (rows ++ (queued (queue_key t) idx text ∷ [])))
      ≡ filter (in_list (queue_key u)) rows
append_apart t u idx text max_size rows ne en =
    trim_list_apart t u idx max_size (rows ++ (queued (queue_key t) idx text ∷ [])) en
    ∙ (filter-append (in_list (queue_key u)) rows (queued (queue_key t) idx text ∷ [])
        ∙ rw (queue_key_inj t u, ne) (append-nil (filter (in_list (queue_key u)) rows)))

pub text_eq_flip : (t u : Text) → text_eq u t ≡ false → text_eq t u ≡ false
text_eq_flip t u ne = ground (arith, text_eq_iff t u, text_eq_iff u t)

-- The first row of a window with entries.
pub oldest :
    {n : ℕ} {x : Text} {q : List Text} {rows : List ListRow}
    → Window n (x ∷ q) rows
    → (r : ListRow) × (rest : List ListRow) × (rows ≡ r ∷ rest)
      × (r.value ≡ x)
      × (r.idx ≡ n)
      × Window (suc n) q rest
oldest {rows = []} x = elim x [ ]
oldest {rows = r ∷ rest} (next _ i e w) = (r, rest, refl, refl, i, w)

pub empty : {n : ℕ} {rows : List ListRow} → Window n [] rows → rows ≡ []
empty over = refl

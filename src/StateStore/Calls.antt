-- ===== src/StateStore/Calls.antt =====
-- Calls on the queues of all threads, and the bounded queues they stand for.
use paraclaw.Prelude.{
  ℕ, zero, suc, ◌-◌, not, Text, text_eq, Option, none, some, List, [], ◌∷◌, ◌++◌, filter, drop,
  length, if◌then◌else◌,
}
use paraclaw.StateStore.{ListRow, is_past, enqueue, dequeue}

-- What a caller of the adapter asks for, on any thread.
pub data Op : Type 0 where
  put : (now : ℕ) (thread entry : Text) (max_size : ℕ) → Op
  pull : (thread : Text) → Op
  tidy : (now : ℕ) → Op

-- What it sees.
pub data Reply : Type 0 where
  depth : ℕ → Reply
  entry : Option Text → Reply
  tidied : Reply

-- The adapter's answer and rows; `none` is a database error.
unfoldable pub step : Op → List ListRow → Option (Reply × List ListRow)
unfolding enqueue dequeue
step (put now thread text max_size) rows = elim (enqueue now thread text max_size rows) [
  | none ↦ none
  | some (n, after) ↦ some (depth n, after)
]
step (pull thread) rows = let (out, after) = dequeue thread rows in some (entry out, after)
step (tidy now) rows = some (tidied, filter (λ r. not (is_past now r.expires_at)) rows)

unfoldable pub run : List Op → List ListRow → Option (List Reply)
unfolding step
run [] rows = some []
run (op ∷ ops) rows = elim (step op rows) [
  | none ↦ none
  | some (reply, after) ↦ elim (run ops after) [
    | none ↦ none
    | some replies ↦ some (reply ∷ replies)
  ]
]

-- One queue per thread, oldest entry first.
abbrev pub Queues : Type 0
Queues = Text → List Text

abbrev pub put_queue : Text → List Text → Queues → Queues
put_queue thread q queues t = if text_eq t thread then q else queues t

-- The newest `max_size` entries; a size of 0 is no bound.
abbrev pub newest : ℕ → List Text → List Text
newest zero q = q
newest (suc n) q = drop (length q - suc n) q

unfoldable pub model_step : Op → Queues → Reply × Queues
model_step (put now thread text max_size) queues =
    let q = newest max_size (queues thread ++ (text ∷ [])) in
    (depth (length q), put_queue thread q queues)
model_step (pull thread) queues = elim (queues thread) [
  | [] ↦ (entry none, queues)
  | x ∷ q ↦ (entry (some x), put_queue thread q queues)
]
model_step (tidy now) queues = (tidied, queues)

unfoldable pub model_run : List Op → Queues → List Reply
unfolding model_step
model_run [] queues = []
model_run (op ∷ ops) queues =
    let (reply, after) = model_step op queues in reply ∷ model_run ops after

-- ===== src/StateStore.antt =====
-- src/state-sqlite.ts, SqliteStateAdapter, with the four tables of
-- src/db/migrations/002-chat-sdk-state.ts: the key-value pairs, subscriptions, locks and lists that
-- the chat adapters keep. `Date.now()` and the random lock token are arguments, a value is the JSON
-- text that is stored, and a call runs to its end before the next one starts.
pub mod Window
pub mod Calls
pub mod Select
pub mod Queue
pub mod Locks
pub mod KeyValue
mod Tests
use paraclaw.Prelude.{
  ℕ, zero, suc, ◌+◌, ◌-◌, Bool, true, false, not, ◌&&◌, ◌||◌, Text, lit, text_eq, Option, none,
  some, List, [], ◌∷◌, ◌++◌, map, filter, find?, any, update, has, length, max, leb, ltb, ◌==◌,
  is_some, if◌then◌else◌,
}

-- A row of chat_sdk_kv.
pub record KvRow : Type 0 where
  pub key : Text
  pub value : Text
  pub expires_at : Option ℕ

-- A row of chat_sdk_locks.
pub record LockRow : Type 0 where
  pub thread_id : Text
  pub token : Text
  pub expires_at : ℕ

-- A row of chat_sdk_lists.
pub record ListRow : Type 0 where
  pub key : Text
  pub idx : ℕ
  pub value : Text
  pub expires_at : Option ℕ

pub record Store : Type 0 where
  pub kv : List KvRow
  pub subscriptions : List Text
  pub locks : List LockRow
  pub lists : List ListRow

-- `expires_at IS NOT NULL AND expires_at < now`
abbrev pub is_past : ℕ → Option ℕ → Bool
is_past now none = false
is_past now (some e) = ltb e now

-- `row.expires_at && row.expires_at < Date.now()`: an expiry of 0 does not count.
abbrev pub is_stale : ℕ → Option ℕ → Bool
is_stale now none = false
is_stale now (some e) = not (e == 0) && ltb e now

-- `ttlMs ? Date.now() + ttlMs : null`
abbrev pub expiry : ℕ → Option ℕ → Option ℕ
expiry now none = none
expiry now (some zero) = none
expiry now (some (suc ttl)) = some (now + suc ttl)

unfoldable pub cleanup : ℕ → Store → Store
cleanup now s = record s {
  kv = filter (λ r. not (is_past now r.expires_at)) s.kv;
  locks = filter (λ r. not (ltb r.expires_at now)) s.locks;
  lists = filter (λ r. not (is_past now r.expires_at)) s.lists;
}

abbrev pub has_key : Text → KvRow → Bool
has_key key r = text_eq r.key key

-- `delete`
abbrev pub delete : Text → List KvRow → List KvRow
delete key = filter (λ r. not (has_key key r))

-- What `get` returns and leaves, after its cleanup.
unfoldable pub get : ℕ → Text → Store → Option Text × Store
unfolding cleanup
get now key s =
    let t = cleanup now s in
    elim (find? (has_key key) t.kv) [
      | none ↦ (none, t)
      | some row ↦
          if is_stale now row.expires_at
          then (none, record t { kv = delete key t.kv })
          else (some row.value, t)
    ]

abbrev pub kv_row : ℕ → Text → Text → Option ℕ → KvRow
kv_row now key value ttl = record { key = key; value = value; expires_at = expiry now ttl }

-- `set`: INSERT OR REPLACE
unfoldable pub set : ℕ → Text → Text → Option ℕ → Store → Store
set now key value ttl s = record s { kv = delete key s.kv ++ (kv_row now key value ttl ∷ []) }

-- The deletion of a stale row in `setIfNotExists`.
unfoldable pub drop_stale : ℕ → Text → List KvRow → List KvRow
drop_stale now key rows = elim (find? (has_key key) rows) [
  | none ↦ rows
  | some row ↦ if is_stale now row.expires_at then delete key rows else rows
]

-- INSERT OR IGNORE; the flag is `result.changes > 0`.
unfoldable pub set_if_not_exists : ℕ → Text → Text → Option ℕ → Store → Bool × Store
unfolding drop_stale
set_if_not_exists now key value ttl s =
    let rows = drop_stale now key s.kv in
    if any (has_key key) rows
    then (false, record s { kv = rows })
    else (true, record s { kv = rows ++ (kv_row now key value ttl ∷ []) })

abbrev pub subscribe : Text → Store → Store
subscribe thread s = record s {
  subscriptions = filter (λ t. not (text_eq t thread)) s.subscriptions ++ (thread ∷ []);
}

abbrev pub unsubscribe : Text → Store → Store
unsubscribe thread s = record s {
  subscriptions = filter (λ t. not (text_eq t thread)) s.subscriptions;
}

abbrev pub is_subscribed : Text → Store → Bool
is_subscribed thread s = has s.subscriptions thread

abbrev pub on_thread : Text → LockRow → Bool
on_thread thread r = text_eq r.thread_id thread

-- `thread_id = ? AND token = ?`
abbrev pub is_lock : LockRow → LockRow → Bool
is_lock lock r = text_eq r.thread_id lock.thread_id && text_eq r.token lock.token

-- `acquireLock`: the lock that is returned, and the rows it leaves.
unfoldable pub acquire_lock : ℕ → Text → Text → ℕ → List LockRow → Option LockRow × List LockRow
acquire_lock now token thread ttl rows =
    let lock : LockRow = record { thread_id = thread; token = token; expires_at = now + ttl } in
    let kept = filter (λ r. not (on_thread thread r && ltb r.expires_at now)) rows in
    if any (on_thread thread) kept then (none, kept) else (some lock, kept ++ (lock ∷ []))

unfoldable pub release_lock : LockRow → List LockRow → List LockRow
release_lock lock = filter (λ r. not (is_lock lock r))

-- `extendLock`: whether a row was updated, the rows, and the caller's lock.
unfoldable pub extend_lock : ℕ → LockRow → ℕ → List LockRow → Bool × List LockRow × LockRow
extend_lock now lock ttl rows =
    let expires = now + ttl in
    let after = update (is_lock lock) (λ r. record r { expires_at = expires }) rows in
    if any (is_lock lock) rows
    then (true, after, record lock { expires_at = expires })
    else (false, after, lock)

unfoldable pub force_release_lock : Text → List LockRow → List LockRow
force_release_lock thread = filter (λ r. not (on_thread thread r))

abbrev pub in_list : Text → ListRow → Bool
in_list key r = text_eq r.key key

-- MAX(idx) of the rows, NULL without one.
unfoldable pub max_idx : List ListRow → Option ℕ
max_idx [] = none
max_idx (r ∷ rows) = elim (max_idx rows) [ none ↦ some r.idx | some m ↦ some (max r.idx m) ]

-- `(maxRow?.maxIdx ?? -1) + 1`
unfoldable pub next_idx : Text → List ListRow → ℕ
unfolding max_idx
next_idx key rows = elim (max_idx (filter (in_list key) rows)) [ none ↦ 0 | some m ↦ m + 1 ]

abbrev pub at_idx : Text → ℕ → ListRow → Bool
at_idx key idx r = in_list key r && r.idx == idx

-- The deletion of the oldest entries under `maxLength`; 0 and undefined set no limit.
unfoldable pub trim_list : Text → ℕ → Option ℕ → List ListRow → List ListRow
trim_list key next none rows = rows
trim_list key next (some zero) rows = rows
trim_list key next (some (suc n)) rows =
    if leb (suc n) next
    then filter (λ r. not (in_list key r && leb r.idx (next - suc n))) rows
    else rows

-- `appendToList`; `none` is the error of the primary key (key, idx).
unfoldable pub append_to_list :
    ℕ → Text → Text → Option ℕ → Option ℕ → List ListRow → Option (List ListRow)
unfolding next_idx trim_list
append_to_list now key value max_length ttl rows =
    let next = next_idx key rows in
    let row : ListRow = record {
      key = key;
      idx = next;
      value = value;
      expires_at = expiry now ttl;
    } in
    if any (at_idx key next) rows
    then none
    else some (trim_list key next max_length (rows ++ (row ∷ [])))

-- ORDER BY idx ASC
unfoldable pub insert_by_idx : ListRow → List ListRow → List ListRow
insert_by_idx r [] = r ∷ []
insert_by_idx r (s ∷ rows) =
    let rest = insert_by_idx r rows in if leb r.idx s.idx then r ∷ s ∷ rows else s ∷ rest

unfoldable pub by_idx : List ListRow → List ListRow
unfolding insert_by_idx
by_idx [] = []
by_idx (r ∷ rows) = insert_by_idx r (by_idx rows)

-- `expires_at IS NULL OR expires_at > ?`
abbrev is_live : ℕ → Option ℕ → Bool
is_live now none = true
is_live now (some e) = ltb now e

unfoldable pub get_list : ℕ → Text → List ListRow → List Text
unfolding by_idx
get_list now key rows =
    map (λ r. r.value) (by_idx (filter (λ r. in_list key r && is_live now r.expires_at) rows))

unfoldable pub queue_key : Text → Text
queue_key thread = lit "queue:" ++ thread

unfoldable pub queue_depth : Text → List ListRow → ℕ
queue_depth thread rows = length (filter (in_list (queue_key thread)) rows)

-- `enqueue`: the depth it returns, and the rows.
unfoldable pub enqueue : ℕ → Text → Text → ℕ → List ListRow → Option (ℕ × List ListRow)
unfolding append_to_list queue_depth queue_key
enqueue now thread entry max_size rows =
    elim (append_to_list now (queue_key thread) entry (some max_size) none rows) [
      | none ↦ none
      | some after ↦ some (queue_depth thread after, after)
    ]

unfoldable pub dequeue : Text → List ListRow → Option Text × List ListRow
unfolding by_idx
dequeue thread rows = elim (by_idx (filter (in_list (queue_key thread)) rows)) [
  | [] ↦ (none, rows)
  | row ∷ _ ↦ (some row.value, filter (λ r. not (at_idx (queue_key thread) row.idx r)) rows)
]

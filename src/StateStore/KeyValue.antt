-- ===== src/StateStore/KeyValue.antt =====
-- What `get` sees of what `set` wrote.
use paraclaw.Prelude.{
  ℕ, zero, suc, ◌+◌, ◌≡◌, refl, sym, ◌∙◌, ap, Bool, true, false, not, Text, text_eq, text_eq_iff,
  text_eq_refl, Option, none, some, List, [], ◌∷◌, ◌++◌, filter, find?, ltb, if◌then◌else◌,
  Bool-cases, inl, inr, arith,
}
use paraclaw.StateStore.{
  Store, KvRow, is_past, is_stale, expiry, cleanup, has_key, delete, get, kv_row, set,
}

-- The rows a cleanup leaves.
abbrev alive : ℕ → List KvRow → List KvRow
alive now = filter (λ r. not (is_past now r.expires_at))

find?-delete :
    (key : Text) (now : ℕ) (rows : List KvRow)
    → find? (has_key key) (alive now (delete key rows)) ≡ none
find?-delete key now [] = refl
find?-delete key now (r ∷ rows) = ground (arith, find?-delete key now rows)

find?-append :
    (p : KvRow → Bool) (rows more : List KvRow)
    → find? p rows ≡ none
    → find? p (rows ++ more) ≡ find? p more
find?-append p [] more h = refl
find?-append p (r ∷ rows) more h = ground (arith, find?-append p rows more)

alive-append :
    (now : ℕ) (rows more : List KvRow) → alive now (rows ++ more) ≡ alive now rows ++ alive now more
alive-append now [] more = refl
alive-append now (r ∷ rows) more = ground (arith, alive-append now rows more)

-- Another key's row is found as before.
find?-set :
    (key other : Text) (now : ℕ) (row : KvRow) (rows : List KvRow)
    → text_eq row.key key ≡ true
    → text_eq key other ≡ false
    → find? (has_key other) (alive now (delete key rows ++ (row ∷ [])))
      ≡ find? (has_key other) (alive now rows)
find?-set key other now row [] e ne =
    let mine : has_key other row ≡ false = rw ((text_eq_iff row.key key).0 e) ne in ground arith
find?-set key other now row (r ∷ rows) e ne = elim (Bool-cases (has_key key r)) [
  | inl same ↦
      let theirs : has_key other r ≡ false = rw ((text_eq_iff r.key key).0 same) ne in
      ground (arith, find?-set key other now row rows e ne)
  | inr different ↦ ground (arith, find?-set key other now row rows e ne)
]

value_of : ℕ → Option KvRow → Option Text
value_of now none = none
value_of now (some row) = if is_stale now row.expires_at then none else some row.value

-- `get` answers from the row that its cleanup leaves.
get-value_of :
    (now : ℕ) (key : Text) (s : Store)
    → (get now key s).0 ≡ value_of now (find? (has_key key) (alive now s.kv))
unfolding get cleanup value_of
get-value_of now key s = ground arith

-- The row that was set, once it is the only one of its key.
value_of-own :
    (now later : ℕ) (key value : Text) (ttl : Option ℕ)
    → value_of later (find? (has_key key) (alive later (kv_row now key value ttl ∷ [])))
      ≡ (if is_past later (expiry now ttl) then none else some value)
unfolding value_of
value_of-own now later key value none = rw (text_eq_refl key) refl
value_of-own now later key value (some zero) = rw (text_eq_refl key) refl
value_of-own now later key value (some (suc ttl)) = elim (Bool-cases (ltb (now + suc ttl) later)) [
  | inl past ↦ rw past refl
  | inr fresh ↦ ground (arith, text_eq_refl key)
]

-- The pairs are a map with expiry: after `set(key, value, ttl)`, `get` returns that value for the key
-- until the expiry time has passed and null from then on (a ttl that is absent or 0 never
-- expires), and for every other key what it would have returned without the `set`.
pub get-set :
    (now later : ℕ) (key other value : Text) (ttl : Option ℕ) (s : Store)
    → text_eq key other ≡ false
    → ((get later key (set now key value ttl s)).0
        ≡ (if is_past later (expiry now ttl) then none else some value))
      × ((get later other (set now key value ttl s)).0 ≡ (get later other s).0)
unfolding set value_of
get-set now later key other value ttl s ne = (
  get-value_of later key (set now key value ttl s)
      ∙ rw (alive-append later (delete key s.kv) (kv_row now key value ttl ∷ [])) (
          rw
            (find?-append (has_key key) (alive later (delete key s.kv))
              (alive later (kv_row now key value ttl ∷ [])) (find?-delete key later s.kv))
            (value_of-own now later key value ttl)),
  get-value_of later other (set now key value ttl s)
      ∙ (ap (value_of later)
            (find?-set key other later (kv_row now key value ttl) s.kv (text_eq_refl key) ne)
          ∙ sym (get-value_of later other s)),
)

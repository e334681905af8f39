-- ===== src/SenderGate/Known.antt =====
-- The sender that the resolver names is a row of users, and nobody's rights change.
use paraclaw.Prelude.{
  ◌≡◌, refl, true, Text, text_eq_refl, Option, none, some, List, [], ◌∷◌, ◌++◌, is_some, arith,
  Bool-cases, Option-cases, inl, inr,
}
use paraclaw.Json.{Json}
use paraclaw.Permissions.{Central, User, get_user, upsert_user}
use paraclaw.SenderGate.{
  extract_and_upsert_user, sender_of, ensure_user, raw_handle, namespaced, sender_name,
}

get_user-append : (users : List User) (u : User) → is_some (get_user (users ++ u ∷ []) u.id) ≡ true
unfolding get_user
get_user-append [] u = ground (arith, text_eq_refl u.id)
get_user-append (x ∷ users) u = ground (arith, get_user-append users u)

ensure_user-known :
    (db : Central) (id channel : Text) (name : Option Text) (now : Text)
    → is_some (get_user (ensure_user db id channel name now).users id) ≡ true
unfolding ensure_user upsert_user
ensure_user-known db id channel name now = elim (Bool-cases (is_some (get_user db.users id))) [
  | inl there ↦ ground (arith, there)
  | inr new ↦ ground (
    arith,
    new,
    get_user-append db.users
        (record { id = id; kind = channel; display_name = name; created_at = now }),
  )
]

ensure_user-rights :
    (db : Central) (id channel : Text) (name : Option Text) (now : Text)
    → ((ensure_user db id channel name now).user_roles ≡ db.user_roles)
      × ((ensure_user db id channel name now).agent_group_members ≡ db.agent_group_members)
unfolding ensure_user
ensure_user-rights db id channel name now = (ground arith, ground arith)

-- The user is known, and no role or membership has changed.
abbrev pub IsResolved : Central → Central → Text → Type 0
IsResolved db db' user =
    (is_some (get_user db'.users user) ≡ true)
    × (db'.user_roles ≡ db.user_roles)
    × (db'.agent_group_members ≡ db.agent_group_members)

sender_of-IsResolved :
    (content : Json) (channel now : Text) (db db' : Central) (user : Text)
    → sender_of content channel now db ≡ (db', some user)
    → IsResolved db db' user
unfolding sender_of
sender_of-IsResolved content channel now db db' user e = elim (Option-cases (raw_handle content)) [
  | inl missing ↦ absurd (ground (arith, missing, e))
  | inr ([], empty) ↦ absurd (ground (arith, empty, e))
  | inr (c ∷ handle, found) ↦
      let id = namespaced channel (c ∷ handle) in
      let made = ensure_user db id channel (sender_name content) now in
      let result : sender_of content channel now db ≡ (made, some id) =
        rw (found, sender_of) refl in
      let stored : made ≡ db' = ground (arith, result, e) in
      let named : id ≡ user = ground (arith, result, e) in
      rw (← stored, ← named)
        (
          ensure_user-known db id channel (sender_name content) now,
          (ensure_user-rights db id channel (sender_name content) now).0,
          (ensure_user-rights db id channel (sender_name content) now).1,
        )
]

-- When `extractAndUpsertUser` names a sender, the table users has a row for that user afterwards, and
-- no role and no membership has changed: being seen gives nobody a right.
pub extract_and_upsert_user-IsResolved :
    (parse : Text → Option Json) (content channel now : Text) (db db' : Central) (user : Text)
    → extract_and_upsert_user parse content channel now db ≡ some (db', some user)
    → IsResolved db db' user
unfolding extract_and_upsert_user
extract_and_upsert_user-IsResolved parse content channel now db db' user e =
    elim (Option-cases (parse content)) [
      | inl broken ↦ absurd (ground (arith, broken, e))
      | inr (v, read) ↦ by_value v read
    ]
  where
    throws : extract_and_upsert_user parse content channel now db ≡ none → ⊥
    throws broken = ground (arith, broken, e)

    sent :
        (v : Json)
        → extract_and_upsert_user parse content channel now db ≡ some (sender_of v channel now db)
        → IsResolved db db' user
    sent v result =
        let same : sender_of v channel now db ≡ (db', some user) = ground (arith, result, e) in
        sender_of-IsResolved v channel now db db' user same

    by_value : (v : Json) → parse content ≡ some v → IsResolved db db' user
    by_value Json.null read = absurd (throws (rw (read, extract_and_upsert_user) refl))
    by_value (Json.bool b) read = sent (Json.bool b) (rw (read, extract_and_upsert_user) refl)
    by_value (Json.num n) read = sent (Json.num n) (rw (read, extract_and_upsert_user) refl)
    by_value (Json.str t) read = sent (Json.str t) (rw (read, extract_and_upsert_user) refl)
    by_value (Json.arr xs) read = sent (Json.arr xs) (rw (read, extract_and_upsert_user) refl)
    by_value (Json.obj fs) read = sent (Json.obj fs) (rw (read, extract_and_upsert_user) refl)

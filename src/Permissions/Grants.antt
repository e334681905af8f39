-- ===== src/Permissions/Grants.antt =====
-- Granting and revoking roles: the invariant on owners, and what each leaves alone.
use paraclaw.Prelude.{
  ◌≡◌, refl, Bool, true, false, ◌&&◌, ◌||◌, Text, text_eq, text_eq_iff, text_eq_refl, Option, none,
  some, get_or, List, [], ◌∷◌, ◌++◌, All, All-append, any, is_some, arith, if◌then◌else◌,
  Bool-cases, inl, inr,
}
use paraclaw.Permissions.{
  Parents, UserRole, RoleKind, owner, matches_grant, has_grant, grant_role, revoke_role, role_eq,
}

-- An owner grant is global.
abbrev pub IsGlobalOwner : UserRole → Type 0
IsGlobalOwner row = row.role ≡ owner → row.agent_group_id ≡ none

-- After a grant that succeeds every owner row is global, if every one was.
pub grant_role-OwnersGlobal :
    (parents : Parents) (row : UserRole) (rows rows' : List UserRole)
    → All IsGlobalOwner rows
    → grant_role parents row rows ≡ some rows'
    → All IsGlobalOwner rows'
unfolding grant_role
grant_role-OwnersGlobal parents row rows rows' h e =
    elim (Bool-cases (is_some row.agent_group_id)) [
      | inl scoped ↦
          rw (← appended) (All-append IsGlobalOwner rows (row ∷ []) h (not_owner scoped, tt))
      | inr global ↦ rw (← appended) (All-append IsGlobalOwner rows (row ∷ []) h (ground arith, tt))
    ]
  where
    appended : rows ++ row ∷ [] ≡ rows'
    appended = ground arith

    not_owner : is_some row.agent_group_id ≡ true → IsGlobalOwner row
    not_owner scoped is_owner = ground arith

any-append {ℓ} :
    {A : Type ℓ} (p : A → Bool) (xs ys : List A) → any p (xs ++ ys) ≡ any p xs || any p ys
any-append p [] ys = refl
any-append p (x ∷ xs) ys = ground (arith, any-append p xs ys)

matches_grant_self :
    (row : UserRole) → matches_grant row.user_id row.role row.agent_group_id row ≡ true
unfolding matches_grant
matches_grant_self row =
    ground (arith, text_eq_refl row.user_id, text_eq_refl (get_or row.agent_group_id []))

-- A grant that succeeds gives the role asked for, and takes no grant away from anybody.
pub grant_role_gives :
    (parents : Parents) (row : UserRole) (rows rows' : List UserRole)
    → grant_role parents row rows ≡ some rows'
    → (has_grant rows' row.user_id row.role row.agent_group_id ≡ true)
      × ((user : Text) (role : RoleKind) (group : Option Text)
          → has_grant rows user role group ≡ true
          → has_grant rows' user role group ≡ true)
unfolding grant_role
grant_role_gives parents row rows rows' e = rw (← appended) (
  ground (
    arith,
    any-append (matches_grant row.user_id row.role row.agent_group_id) rows (row ∷ []),
    matches_grant_self row,
  ),
  λ user role group had. ground (arith, any-append (matches_grant user role group) rows (row ∷ [])),
)
  where
    appended : rows ++ row ∷ [] ≡ rows'
    appended = ground arith

-- The same user, role and scope.
unfoldable pub same_grant : Text → Text → RoleKind → RoleKind → Option Text → Option Text → Bool
same_grant user u role r none none = text_eq u user && role_eq r role
same_grant user u role r (some group) (some g) =
    text_eq u user && (role_eq r role && text_eq g group)
same_grant user u role r _ _ = false

module _ (user u : Text) (role r : RoleKind) where
  matches_grant_of_same :
      (group g : Option Text) (row : UserRole)
      → same_grant user u role r group g ≡ true
      → matches_grant u r g row ≡ matches_grant user role group row
  unfolding same_grant matches_grant
  matches_grant_of_same none none row h = ground (arith, text_eq_iff u user)
  matches_grant_of_same (some group) (some g) row h =
      ground (arith, text_eq_iff u user, text_eq_iff g group)
  matches_grant_of_same none (some g) row h = cc
  matches_grant_of_same (some group) none row h = cc

  matches_grant_unique :
      (group g : Option Text) (row : UserRole)
      → matches_grant user role group row ≡ true
      → matches_grant u r g row ≡ true
      → same_grant user u role r group g ≡ true
  unfolding same_grant matches_grant
  matches_grant_unique none none row h k =
      ground (arith, text_eq_iff row.user_id u, text_eq_iff row.user_id user, text_eq_iff u user)
  matches_grant_unique (some group) (some g) row h k = ground (
    arith,
    text_eq_iff row.user_id u,
    text_eq_iff row.user_id user,
    text_eq_iff u user,
    text_eq_iff g group,
    text_eq_iff (get_or row.agent_group_id []) g,
    text_eq_iff (get_or row.agent_group_id []) group,
  )
  matches_grant_unique none (some g) row h k = ground arith
  matches_grant_unique (some group) none row h k = ground arith

  -- Revoking a role takes away exactly that grant: its holder no longer has it, and any other
  -- user, role or scope has the answer it had before.
  pub has_grant-revoke_role :
      (group g : Option Text) (rows : List UserRole)
      → has_grant (revoke_role user role group rows) u r g
        ≡ (if same_grant user u role r group g then false else has_grant rows u r g)
  unfolding revoke_role
  has_grant-revoke_role group g [] = ground arith
  has_grant-revoke_role group g (row ∷ rows) = ground (
    arith,
    has_grant-revoke_role group g rows,
    matches_grant_of_same group g row,
    matches_grant_unique group g row,
  )

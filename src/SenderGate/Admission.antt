-- ===== src/SenderGate/Admission.antt =====
-- Who becomes a member through a card, and what that opens.
use paraclaw.Prelude.{
  ◌≡◌, refl, ◌∙◌, ap, sym, Bool, true, false, ◌&&◌, ◌||◌, ◌⊎◌, inl, inr, Text, text_eq, text_eq_iff,
  none, some, List, [], ◌∷◌, ◌++◌, arith, Option-cases, Bool-cases,
}
use paraclaw.Permissions.{AgentGroupMember, add_member, has_membership_row}
use paraclaw.SenderGate.Approval.{
  PendingSenderApproval, Board, ResponsePayload, get_pending_sender_approval, clicker,
  is_authorized, approves, admitted, admit_sender, answer_row, handle_sender_approval_response,
}

membership-append :
    (rows : List AgentGroupMember) (row : AgentGroupMember) (user group : Text)
    → has_membership_row (rows ++ row ∷ []) user group
      ≡ has_membership_row rows user group
        || (text_eq row.user_id user && text_eq row.agent_group_id group)
unfolding has_membership_row
membership-append [] row user group = ground arith
membership-append (r ∷ rows) row user group = ground (arith, membership-append rows row user group)

membership-add_member :
    (rows : List AgentGroupMember) (row : AgentGroupMember) (user group : Text)
    → has_membership_row (add_member row rows) user group ≡ true
    → (has_membership_row rows user group ≡ true)
      ⊎ ((row.user_id ≡ user) × (row.agent_group_id ≡ group))
unfolding add_member
membership-add_member rows row user group h =
    elim (Bool-cases (has_membership_row rows user group)) [
      | inl before ↦ inl before
      | inr new ↦ inr (
        ground (arith, new, h, membership-append rows row user group, text_eq_iff row.user_id user),
        ground (
          arith,
          new,
          h,
          membership-append rows row user group,
          text_eq_iff row.agent_group_id group,
        ),
      )
    ]

handle-missing :
    (parses : Text → Bool) (payload : ResponsePayload) (now : Text) (board : Board)
    → get_pending_sender_approval payload.question_id board.pending ≡ none
    → handle_sender_approval_response parses payload now board ≡ (board, false)
unfolding handle_sender_approval_response
handle-missing parses payload now board missing = rw (missing, handle_sender_approval_response) refl

handle-found :
    (parses : Text → Bool) (payload : ResponsePayload) (now : Text) (board : Board)
    (row : PendingSenderApproval)
    → get_pending_sender_approval payload.question_id board.pending ≡ some row
    → handle_sender_approval_response parses payload now board
      ≡ (answer_row parses row payload now board, true)
unfolding handle_sender_approval_response
handle-found parses payload now board row found = rw (found, handle_sender_approval_response) refl

-- How the answer leaves the members: as they were, or with the sender among them.
abbrev MembersAfter :
    (Text → Bool) → PendingSenderApproval → ResponsePayload → Text → Board → Type 0
MembersAfter parses row payload now board =
    ((answer_row parses row payload now board).central.agent_group_members
      ≡ board.central.agent_group_members)
    ⊎ ((is_authorized board.central row (clicker payload) ≡ true)
        × (approves payload ≡ true)
        × ((answer_row parses row payload now board).central.agent_group_members
            ≡ add_member (admitted row (clicker payload) now) board.central.agent_group_members))

answer_row-members :
    (parses : Text → Bool) (row : PendingSenderApproval) (payload : ResponsePayload) (now : Text)
    (board : Board)
    → MembersAfter parses row payload now board
unfolding answer_row admit_sender
answer_row-members parses row payload now board =
    elim (Bool-cases (is_authorized board.central row (clicker payload))) [
      | inr refused ↦ inl (ground (arith, refused))
      | inl authorized ↦ elim (Bool-cases (approves payload)) [
        | inr denied ↦ inl (ground (arith, authorized, denied))
        | inl approved ↦ inr (authorized, approved, ground (arith, authorized, approved))
      ]
    ]

-- The response that the payload gives to a row admits the user to the group.
abbrev pub IsAdmission : Board → ResponsePayload → Text → Text → Type 0
IsAdmission board payload user group =
    (row : PendingSenderApproval) × (get_pending_sender_approval payload.question_id board.pending
      ≡ some row)
    × (is_authorized board.central row (clicker payload) ≡ true)
    × (approves payload ≡ true)
    × (row.sender_identity ≡ user)
    × (row.agent_group_id ≡ group)

-- Nobody becomes a member by a click on a card unless the card is pending for that user and that group,
-- the value approves, and the clicker is the approver it was sent to or has an admin privilege over
-- the group.
pub handle_sender_approval_response-IsAdmission :
    (parses : Text → Bool) (payload : ResponsePayload) (now : Text) (board : Board)
    (user group : Text)
    → has_membership_row
        (handle_sender_approval_response parses payload now board).0.central.agent_group_members
        user
        group
      ≡ true
    → (has_membership_row board.central.agent_group_members user group ≡ true)
      ⊎ IsAdmission board payload user group
handle_sender_approval_response-IsAdmission parses payload now board user group h =
    elim (Option-cases (get_pending_sender_approval payload.question_id board.pending)) [
      | inl missing ↦ inl (
          ap (λ r. has_membership_row r.0.central.agent_group_members user group)
            (sym (handle-missing parses payload now board missing))
          ∙ h)
      | inr (row, found) ↦ by_row row found (answer_row-members parses row payload now board)
    ]
  where
    by_row :
        (row : PendingSenderApproval)
        → get_pending_sender_approval payload.question_id board.pending ≡ some row
        → MembersAfter parses row payload now board
        → (has_membership_row board.central.agent_group_members user group ≡ true)
          ⊎ IsAdmission board payload user group
    by_row row found after =
        let answered =
          ap (λ r. has_membership_row r.0.central.agent_group_members user group)
            (sym (handle-found parses payload now board row found))
          ∙ h in
        elim after [
          | inl same ↦ inl (ap (λ m. has_membership_row m user group) (sym same) ∙ answered)
          | inr (authorized, approved, added) ↦
              elim (membership-add_member board.central.agent_group_members
                (admitted row (clicker payload) now) user group
                (ap (λ m. has_membership_row m user group) (sym added) ∙ answered)) [
                  | inl before ↦ inl before
                  | inr (sender, here) ↦ inr (row, found, authorized, approved, sender, here)
                ]
        ]

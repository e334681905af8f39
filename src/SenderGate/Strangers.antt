-- ===== src/SenderGate/Strangers.antt =====
-- The router with the hooks of the permissions module.
use paraclaw.Prelude.{ℕ, ◌≡◌, ◌≢◌, refl, false, Text, Option, some, List, [], ◌∷◌, All, arith}
use paraclaw.Permissions.{Central, can_access_agent_group, allowed}
use paraclaw.Router.{Env, Wiring, MessagingGroup, InboundEvent, Host}
use paraclaw.Router.Fanout.{fan_out}
use paraclaw.Router.Gate.{permits, fan_out-woken}
use paraclaw.SenderGate.{
  UnknownSenderPolicy, strict, request_approval, public, SenderScope, access_gate, gate_sender,
  scope_gate,
}

module _ (db : Central) (policy : UnknownSenderPolicy) (scope : Wiring → SenderScope) where
  -- The router's surroundings with both gates registered, for one event of the user.
  abbrev pub guarded : Option Text → Env → Env
  guarded user env = record env {
    access_ok = λ group. (access_gate db policy user group).0;
    scope_ok = λ w. scope_gate db (scope w) user w.agent_group_id;
  }

  -- The user has no access to the agent group of the wiring.
  abbrev pub IsStranger : Text → Wiring → Type 0
  IsStranger user w = allowed (can_access_agent_group db user w.agent_group_id) ≡ false

access_gate-refuses :
    (db : Central) (policy : UnknownSenderPolicy) (c : ℕ) (user group : Text)
    → policy ≢ public
    → allowed (can_access_agent_group db (c ∷ user) group) ≡ false
    → (access_gate db policy (some (c ∷ user)) group).0 ≡ false
unfolding access_gate gate_sender
access_gate-refuses db strict c user group ne h = ground (arith, h)
access_gate-refuses db request_approval c user group ne h = ground (arith, h)
access_gate-refuses db public c user group ne h = absurd (ne refl)

none_permitted :
    (db : Central) (policy : UnknownSenderPolicy) (scope : Wiring → SenderScope) (env : Env) (c : ℕ)
    (user : Text) (wirings : List Wiring)
    → policy ≢ public
    → All (IsStranger db policy scope (c ∷ user)) wirings
    → All (λ w. permits (guarded db policy scope (some (c ∷ user)) env) w ≡ false) wirings
none_permitted db policy scope env c user [] ne h = tt
none_permitted db policy scope env c user (w ∷ wirings) ne (p, h) = (
  ground (arith, access_gate-refuses db policy c user w.agent_group_id ne p),
  none_permitted db policy scope env c user wirings ne h,
)

-- With the permissions module's gates registered, a user who has access to none of the agent groups
-- that are wired to a messaging group wakes no container through it, unless the messaging group is
-- public, whatever the message says and whatever the wirings ask of their senders.
pub fan_out-strangers :
    (db : Central) (policy : UnknownSenderPolicy) (scope : Wiring → SenderScope) (env : Env)
    (group : MessagingGroup) (event : InboundEvent) (c : ℕ) (user : Text) (wirings : List Wiring)
    (host : Host)
    → policy ≢ public
    → All (IsStranger db policy scope (c ∷ user)) wirings
    → (fan_out
        (guarded db policy scope (some (c ∷ user)) env)
        group
        event
        (some (c ∷ user))
        wirings
        host).0.woken
      ≡ host.woken
fan_out-strangers db policy scope env group event c user wirings host ne h =
    fan_out-woken (guarded db policy scope (some (c ∷ user)) env) group event (some (c ∷ user))
      wirings host (none_permitted db policy scope env c user wirings ne h)

-- ===== src/Inbound/Ends.antt =====
-- `routeInbound` calls itself at most once.
use paraclaw.Prelude.{
  ℕ, zero, suc, ◌≡◌, ◌⊎◌, refl, sym, ◌∙◌, Bool, true, false, Text, is_some, Bool-cases,
  Option-cases, List-cases, inl, inr, arith,
}
use paraclaw.ContainerDb.{non_empty}
use paraclaw.PlatformId.{decode_platform_id_as}
use paraclaw.TrustHint.{Hints, consume_trust_hint}
use paraclaw.TrustHint.Use.{consume_trust_hint_once}
use paraclaw.Channels.{
  Channels, GroupRow, get_messaging_group_with_agent_count, create_messaging_group,
}
use paraclaw.Inbound.{
  State, Inbound, Hooks, Next, done, failed, again, ask_hint, wire_trusted, get_all_agent_groups,
  collapse_thread, auto_group, route_unwired, route_once, route_inbound,
}

-- A second question about the same event is answered no.
ask_hint_twice :
    (now later : ℕ) (inbound : Inbound) (hints : Hints)
    → (ask_hint later inbound (ask_hint now inbound hints).0).1 ≡ false
unfolding ask_hint
ask_hint_twice now later inbound hints =
    elim (Option-cases
      (non_empty (decode_platform_id_as inbound.event.source.platform_id).bot_id)) [
        | inl lost ↦ rw (ask_hint, lost) refl
        | inr (bot, bot_is) ↦ elim (Option-cases (non_empty inbound.sender_id)) [
          | inl lost ↦ rw (ask_hint, bot_is, lost) refl
          | inr (sender, sender_is) ↦
              let asked : (at : ℕ) (known : Hints)
                  → ask_hint at inbound known
                    ≡ consume_trust_hint inbound.event.source.channel_type bot sender at known =
                λ at known. rw (ask_hint, bot_is, sender_is) refl in
              rw
                (
                  asked now hints,
                  asked later
                      (consume_trust_hint inbound.event.source.channel_type bot sender now hints).0,
                )
                (consume_trust_hint_once inbound.event.source.channel_type bot sender now later
                  hints)
        ]
      ]

-- The hints say no to the event at any time.
abbrev IsSpent : Inbound → State → Type 0
IsSpent inbound s = (later : ℕ) → (ask_hint later inbound s.hints).1 ≡ false

-- Is the function to be called again?
abbrev pub calls_again : Next → Bool
calls_again (again t) = true
calls_again _ = false

-- A call again is made with spent hints.
abbrev AgainIsSpent : Inbound → Next → Type 0
AgainIsSpent inbound (again t) = IsSpent inbound t
AgainIsSpent inbound _ = Unit

route_unwired-AgainIsSpent :
    (hooks : Hooks) (left : ℕ) (now : Text) (inbound : Inbound) (g : GroupRow) (s : State)
    → AgainIsSpent inbound (route_unwired hooks left now inbound g s)
unfolding route_unwired
route_unwired-AgainIsSpent hooks left now inbound g s =
    elim (Bool-cases (is_some (non_empty g.denied_at))) [
      | inl denied ↦ rw denied tt
      | inr open_chat ↦ elim (Bool-cases (ask_hint (hooks.clock left) inbound s.hints).1) [
        | inr untrusted ↦ rw (open_chat, untrusted) tt
        | inl trusted ↦ elim (List-cases (get_all_agent_groups s.db.agents)) [
          | inl nobody ↦ rw (open_chat, trusted, nobody) tt
          | inr (target, rest, targets) ↦
              elim (Option-cases (wire_trusted (hooks.draw left) inbound target g s.db)) [
                | inl refused ↦ rw (open_chat, trusted, targets, refused) tt
                | inr (db, wired) ↦
                    rw (open_chat, trusted, targets, wired)
                      (λ later. ask_hint_twice (hooks.clock left) later inbound s.hints)
              ]
        ]
      ]
    ]

-- With spent hints there is no further call.
route_unwired_spent :
    (hooks : Hooks) (left : ℕ) (now : Text) (inbound : Inbound) (g : GroupRow) (s : State)
    → (ask_hint (hooks.clock left) inbound s.hints).1 ≡ false
    → calls_again (route_unwired hooks left now inbound g s) ≡ false
unfolding route_unwired
route_unwired_spent hooks left now inbound g s spent =
    elim (Bool-cases (is_some (non_empty g.denied_at))) [
      | inl denied ↦ rw denied refl
      | inr open_chat ↦ rw (open_chat, spent) refl
    ]

abbrev collapsed : Hooks → Inbound → Inbound
collapsed hooks raw = record raw { event = collapse_thread hooks.keeps_threads raw.event }

-- A round either ends or is the round of an unwired chat.
route_once-cases :
    (hooks : Hooks) (left : ℕ) (raw : Inbound) (s : State)
    → (calls_again (route_once hooks left raw s) ≡ false)
      ⊎ ((g : GroupRow) × (db : Channels) × (route_once hooks left raw s
            ≡ route_unwired hooks left
                (hooks.draw left).now
                (collapsed hooks raw)
                g
                (record s { db = db })))
unfolding route_once
route_once-cases hooks left raw s =
    elim (Option-cases (
      get_messaging_group_with_agent_count (collapsed hooks raw).event.source.channel_type
        (collapsed hooks raw).event.source.platform_id s.db)) [
          | inl unknown ↦ elim (Bool-cases (collapsed hooks raw).event.is_mention) [
            | inr chatter ↦ inl (rw (route_once, unknown, chatter) refl)
            | inl mention ↦
                elim (Option-cases (
                  create_messaging_group (auto_group (hooks.draw left) (collapsed hooks raw))
                    s.db)) [
                      | inl refused ↦ inl (rw (route_once, unknown, mention, refused) refl)
                      | inr (db, created) ↦ inr (
                        auto_group (hooks.draw left) (collapsed hooks raw),
                        db,
                        rw (route_once, unknown, mention, created) refl,
                      )
                    ]
          ]
          | inr ((g, zero), found) ↦ elim (Bool-cases (collapsed hooks raw).event.is_mention) [
            | inr chatter ↦ inl (rw (route_once, found, chatter) refl)
            | inl mention ↦ inr (g, s.db, rw (route_once, found, mention) refl)
          ]
          | inr ((g, suc n), found) ↦ inl (rw (route_once, found) refl)
        ]

Next-cases : (x : Next) → (calls_again x ≡ false) ⊎ ((t : State) × (x ≡ again t))
Next-cases (done t) = inl refl
Next-cases (failed t) = inl refl
Next-cases (again t) = inr (t, refl)

route_once_spent :
    (hooks : Hooks) (left : ℕ) (raw : Inbound) (s : State)
    → (ask_hint (hooks.clock left) (collapsed hooks raw) s.hints).1 ≡ false
    → calls_again (route_once hooks left raw s) ≡ false
route_once_spent hooks left raw s spent = elim (route_once-cases hooks left raw s) [
  | inl ended ↦ ended
  | inr (g, db, same) ↦ rw same (
      route_unwired_spent hooks left (hooks.draw left).now (collapsed hooks raw) g
        (record s { db = db }) spent)
]

route_once-again :
    (hooks : Hooks) (left : ℕ) (raw : Inbound) (s t : State)
    → route_once hooks left raw s ≡ again t
    → IsSpent (collapsed hooks raw) t
route_once-again hooks left raw s t called = elim (route_once-cases hooks left raw s) [
  | inl ended ↦
      let no : calls_again (again t) ≡ false = rw called at ended in absurd (ground (arith, no))
  | inr (g, db, same) ↦
      let spent =
        route_unwired-AgainIsSpent hooks left (hooks.draw left).now (collapsed hooks raw) g
          (record s { db = db }) in
      rw (sym same ∙ called) at spent
]

-- A round that does not call again gives a result.
route_inbound-ended :
    (left : ℕ) (hooks : Hooks) (inbound : Inbound) (s : State)
    → calls_again (route_once hooks left inbound s) ≡ false
    → is_some (route_inbound (suc left) hooks inbound s) ≡ true
unfolding route_inbound
route_inbound-ended left hooks inbound s h = ground (arith, h)

-- The recursion of `routeInbound` ends: whatever the event, the databases, the hints and the times that
-- the clock shows, it calls itself at most once, so that two rounds always give a result.
pub route_inbound-ends :
    (more : ℕ) (hooks : Hooks) (inbound : Inbound) (s : State)
    → is_some (route_inbound (suc (suc more)) hooks inbound s) ≡ true
unfolding route_inbound
route_inbound-ends more hooks inbound s =
    elim (Next-cases (route_once hooks (suc more) inbound s)) [
      | inl ended ↦ route_inbound-ended (suc more) hooks inbound s ended
      | inr (t, called) ↦
          rw (route_inbound, called)
            (route_inbound-ended more hooks inbound t (
              route_once_spent hooks more inbound t
                (route_once-again hooks (suc more) inbound s t called (hooks.clock more))))
    ]

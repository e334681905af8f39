-- ===== src/Inbound/Trusted.antt =====
-- The operator's first message to a bot just wired.
use paraclaw.Prelude.{
  ℕ, ◌≡◌, true, false, Text, lit, text_eq, trim, Lacks, none, some, is_some, List, ◌∷◌, any, filter,
  find?, length, arith,
}
use paraclaw.ContainerDb.{non_empty}
use paraclaw.PlatformId.{encode_platform_id}
use paraclaw.SenderGate.{strict}
use paraclaw.Channels.{
  Channels, GroupRow, AgentGroup, on_platform, wires_group, update_messaging_group,
  get_messaging_group_with_agent_count, get_messaging_group_by_platform,
}
use paraclaw.Channels.Direct.{Draw}
use paraclaw.Inbound.{State, Inbound, Hooks, collapse_thread, get_all_agent_groups, ask_hint}
use paraclaw.Inbound.Quiet.{chat_of}

-- The update that makes the chat strict.
abbrev relaxed : GroupRow → Channels → Channels
relaxed g db =
    update_messaging_group g.id (record { name = none; is_group = none; policy = some strict }) db

-- The event is on Telegram in the direct chat of a user with a bot, both ids non-blank; the bot is
-- mentioned; the chat is known, without agents and not denied; an agent group exists; a hint is
-- alive for the sender; and the id drawn for the wiring is new.
pub record IsTrusted (draw : Draw) (now : ℕ) (inbound : Inbound) (s : State) (bot user : ℕ × Text)
    (group : GroupRow) (target : AgentGroup) (others : List AgentGroup) : Type 0 where
  pub bot_trim : trim (bot.0 ∷ bot.1) ≡ bot.0 ∷ bot.1
  pub user_trim : trim (user.0 ∷ user.1) ≡ user.0 ∷ user.1
  pub bot_plain : Lacks b':' (bot.0 ∷ bot.1)
  pub channel : inbound.event.source.channel_type ≡ lit "telegram"
  pub platform :
      inbound.event.source.platform_id
      ≡ encode_platform_id (lit "telegram") (bot.0 ∷ bot.1) (user.0 ∷ user.1)
  pub mention : inbound.event.is_mention ≡ true
  pub unwired : chat_of inbound s ≡ some (group, 0)
  pub open_chat : is_some (non_empty group.denied_at) ≡ false
  pub agents : get_all_agent_groups s.db.agents ≡ target ∷ others
  pub trusted : (ask_hint now inbound s.hints).1 ≡ true
  pub fresh : any (λ v. text_eq v.id draw.wiring_id) s.db.wirings ≡ false

abbrev collapsed : Hooks → Inbound → Inbound
collapsed hooks raw = record raw { event = collapse_thread hooks.keeps_threads raw.event }

-- What `chat_of` found.
pub chat_lookup :
    (inbound : Inbound) (s : State) (g : GroupRow)
    → chat_of inbound s ≡ some (g, 0)
    → (find?
          (on_platform inbound.event.source.channel_type inbound.event.source.platform_id)
          s.db.groups
        ≡ some g)
      × (length (filter (wires_group g.id) s.db.wirings) ≡ 0)
unfolding get_messaging_group_with_agent_count get_messaging_group_by_platform
chat_lookup inbound s g h = ground arith

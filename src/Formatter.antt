-- ===== src/Formatter.antt =====
-- container/agent-runner/src/formatter.ts: the prompt that is made of pending messages. The content of a
-- message comes parsed (`Content`); it may be null, and its text another value than a string, on both of
-- which the code throws (`none`). The other fields that the code reads are strings where they are there.
-- JSON.stringify, the local time and the destination table are parameters.
pub mod Escape
pub mod Readable
mod Tests
use paraclaw.Prelude.{
  bind, each, ℕ, zero, suc, Bool, true, false, not, ◌&&◌, ◌||◌, Text, lit, text_eq, has,
  starts_with, includes, is_space, trim, to_lower, Option, none, some, get_or, is_some, List, [],
  ◌∷◌, ◌++◌, map, filter, ◌==◌, if◌then◌else◌,
}
use paraclaw.ContainerDb.{non_empty}
use paraclaw.SessionDb.{MessageIn}

-- `.replace(/c/g, t)` for a single character
unfoldable pub replace_char : ℕ → Text → Text → Text
replace_char c t [] = []
replace_char c t (a ∷ s) = let rest = replace_char c t s in if a == c then t ++ rest else a ∷ rest

-- `escapeXml`
unfoldable pub escape_xml : Text → Text
unfolding replace_char
escape_xml s = replace_char b'"' (lit "&quot;") (
    replace_char b'>' (lit "&gt;")
      (replace_char b'<' (lit "&lt;") (replace_char b'&' (lit "&amp;") s)))

pub record Attachment : Type 0 where
  pub name : Option Text
  pub filename : Option Text
  pub type : Option Text
  pub local_path : Option Text
  pub url : Option Text

pub record ReplyTo : Type 0 where
  pub id : Option Text
  pub sender : Option Text
  pub text : Option Text

-- A field of a parsed content: absent or falsy, a string, or another value.
pub data TextField : Type 0 where
  absent : TextField
  text_value : Text → TextField
  other_value : TextField

-- What the code reads of a parsed content that is not null; a field that is absent is `none`. `raw` is the JSON text of
-- `payload || content`, `result` that of `result || null`.
pub record Content : Type 0 where
  pub text : TextField
  pub sender : Option Text
  pub full_name : Option Text
  pub user_name : Option Text
  pub sender_id : Option Text
  pub author_id : Option Text
  pub reply_to : Option ReplyTo
  pub attachments : List Attachment
  pub prompt : Option Text
  pub script_output : Option Text
  pub source : Option Text
  pub event : Option Text
  pub raw : Text
  pub action : Option Text
  pub status : Option Text
  pub result : Text

-- `parseContent` (`none` is null), `formatLocalTime`, the name of the destination of a routing (`findByRouting`), the
-- escaped time zone, and the decimal text of a sequence number.
pub record Reader : Type 0 where
  pub content : MessageIn → Option Content
  pub local_time : Text → Text
  pub destination : Option Text → Option Text → Option Text
  pub timezone : Text
  pub number : ℕ → Text

-- `a || b`
abbrev pub or_text : Option Text → Text → Text
or_text o t = get_or (non_empty o) t

pub data CommandCategory : Type 0 where
  admin filtered passthrough no_command : CommandCategory

-- `ADMIN_COMMANDS.has(command)`
unfoldable pub is_admin_command : Text → Bool
is_admin_command = has (
    lit "/remote-control"
    ∷ lit "/clear"
    ∷ lit "/compact"
    ∷ lit "/context"
    ∷ lit "/cost"
    ∷ lit "/files"
    ∷ [])

-- `FILTERED_COMMANDS.has(command)`
unfoldable pub is_filtered_command : Text → Bool
is_filtered_command =
    has (
      lit "/help"
      ∷ lit "/login"
      ∷ lit "/logout"
      ∷ lit "/doctor"
      ∷ lit "/config"
      ∷ lit "/start"
      ∷ [])

-- `text.split(/\s/)[0]`
unfoldable pub command_word : Text → Text
command_word [] = []
command_word (c ∷ s) = let rest = command_word s in if is_space c then [] else c ∷ rest

-- `content.text || ''`, read as a string
abbrev pub read_text : TextField → Option Text
read_text absent = some []
read_text (text_value t) = some t
read_text other_value = none

-- `extractSenderId`
unfoldable pub extract_sender_id : MessageIn → Content → Option Text
extract_sender_id msg content =
    elim (non_empty
      (elim (non_empty content.sender_id) [ none ↦ content.author_id | some id ↦ some id ])) [
        | none ↦ none
        | some raw ↦
            if includes raw (lit ":") then some raw else elim (non_empty msg.channel_type) [
              | none ↦ some raw
              | some channel ↦ some (channel ++ (lit ":" ++ raw))
            ]
      ]

pub record CommandInfo : Type 0 where
  pub category : CommandCategory
  pub command : Text
  pub text : Text
  pub sender_id : Option Text

-- `categorizeMessage`, from the text and the sender on
unfoldable pub command_info : Text → Option Text → CommandInfo
unfolding command_word is_admin_command is_filtered_command
command_info text sender_id =
    let command = to_lower (command_word text) in
    let info : CommandCategory → Text → CommandInfo = λ category.
      λ word. record { category = category; command = word; text = text; sender_id = sender_id } in
    if not (starts_with text (lit "/"))
    then info no_command []
    else if is_admin_command command
    then info admin command
    else if is_filtered_command command
    then info filtered command
    else info passthrough command

-- `categorizeMessage`
unfoldable pub categorize_message : Reader → MessageIn → Option CommandInfo
unfolding command_info extract_sender_id
categorize_message reader msg = bind (reader.content msg) (λ content.
    bind (read_text content.text)
      (λ text. some (command_info (trim text) (extract_sender_id msg content))))

-- `isClearCommand`
unfoldable pub is_clear_command : Reader → MessageIn → Option Bool
is_clear_command reader msg = bind (reader.content msg) (λ content.
    bind (read_text content.text)
      (λ text. some (starts_with (to_lower (trim text)) (lit "/clear"))))

pub record RoutingContext : Type 0 where
  pub platform_id : Option Text
  pub channel_type : Option Text
  pub thread_id : Option Text
  pub in_reply_to : Option Text

-- `extractRouting`
unfoldable pub extract_routing : List MessageIn → RoutingContext
extract_routing [] = record {
  platform_id = none;
  channel_type = none;
  thread_id = none;
  in_reply_to = none;
}
extract_routing (m ∷ _) = record {
  platform_id = m.platform_id;
  channel_type = m.channel_type;
  thread_id = m.thread_id;
  in_reply_to = some m.id;
}

abbrev pub is_chat : MessageIn → Bool
is_chat m = text_eq m.kind (lit "chat") || text_eq m.kind (lit "chat-sdk")

-- `xs.join(sep)`
unfoldable pub join : Text → List Text → Text
join sep [] = []
join sep (x ∷ []) = x
join sep (x ∷ y ∷ xs) = x ++ (sep ++ join sep (y ∷ xs))

-- `formatReplyContext`
unfoldable pub format_reply_context : Option ReplyTo → Text
unfolding escape_xml
format_reply_context none = []
format_reply_context (some r) = elim (non_empty r.sender) [
  | none ↦ []
  | some sender ↦ elim (non_empty r.text) [
    | none ↦ []
    | some text ↦
        lit "\n  <quoted_message from=\""
        ++ (escape_xml sender ++ (lit "\">" ++ (escape_xml text ++ lit "</quoted_message>\n")))
  ]
]

-- One part of `formatAttachments`.
unfoldable pub format_attachment : Attachment → Text
unfolding escape_xml
format_attachment a =
    let name = or_text a.name (or_text a.filename (lit "attachment")) in
    let head = lit "[" ++ (or_text a.type (lit "file") ++ (lit ": " ++ escape_xml name)) in
    elim (non_empty a.local_path) [
      | some path ↦
          head ++ (lit " — saved to " ++ (escape_xml (lit "/workspace/" ++ path) ++ lit "]"))
      | none ↦ elim (non_empty a.url) [
        | some url ↦ head ++ (lit " (" ++ (escape_xml url ++ lit ")]"))
        | none ↦ head ++ lit "]"
      ]
    ]

-- `formatAttachments`
unfoldable pub format_attachments : List Attachment → Text
unfolding join format_attachment
format_attachments [] = []
format_attachments (a ∷ more) = lit "\n" ++ join (lit "\n") (map format_attachment (a ∷ more))

-- The attribute that says where a message comes from.
unfoldable pub from_attr : Reader → MessageIn → Text
unfolding escape_xml
from_attr reader msg = elim (reader.destination msg.channel_type msg.platform_id) [
  | some name ↦ lit " from=\"" ++ (escape_xml name ++ lit "\"")
  | none ↦
      if is_some (non_empty msg.channel_type) || is_some (non_empty msg.platform_id)
      then lit " from=\"unknown:"
        ++ (escape_xml (or_text msg.channel_type [])
            ++ (lit ":" ++ (escape_xml (or_text msg.platform_id []) ++ lit "\"")))
      else []
]

unfoldable pub reply_attr : Option ReplyTo → Text
unfolding escape_xml
reply_attr none = []
reply_attr (some r) = elim (non_empty r.id) [
  | none ↦ []
  | some id ↦ lit " reply_to=\"" ++ (escape_xml id ++ lit "\"")
]

-- `formatSingleChat`, from the text on
unfoldable pub single_chat : Reader → MessageIn → Content → Text → Text
unfolding escape_xml from_attr reply_attr format_reply_context format_attachments
single_chat reader msg content text =
    let sender =
      or_text content.sender
        (or_text content.full_name (or_text content.user_name (lit "Unknown"))) in
    lit "<message id=\""
    ++ (reader.number msg.seq
        ++ (lit "\""
            ++ (from_attr reader msg
                ++ (lit " sender=\""
                    ++ (escape_xml sender
                        ++ (lit "\" time=\""
                            ++ (escape_xml (reader.local_time msg.timestamp)
                                ++ (lit "\""
                                    ++ (reply_attr content.reply_to
                                        ++ (lit ">"
                                            ++ (format_reply_context content.reply_to
                                                ++ (escape_xml text
                                                    ++ (format_attachments content.attachments
                                                        ++ lit "</message>")))))))))))))

-- `formatSingleChat`
unfoldable pub format_single_chat : Reader → MessageIn → Option Text
unfolding single_chat
format_single_chat reader msg =
    bind (reader.content msg) (λ content.
      bind (read_text content.text) (λ text. some (single_chat reader msg content text)))

-- `formatChatMessages`
unfoldable pub format_chat_messages : Reader → List MessageIn → Option Text
unfolding format_single_chat join
format_chat_messages reader (m ∷ []) = format_single_chat reader m
format_chat_messages reader ms =
    bind (each (format_single_chat reader) ms)
      (λ lines. some (join (lit "\n") (lit "<messages>" ∷ (lines ++ (lit "</messages>" ∷ [])))))

task_text : Content → Text
unfolding join
task_text content =
    let script : List Text = elim (non_empty content.script_output) [
      | none ↦ []
      | some out ↦ [] ∷ lit "Script output:" ∷ out ∷ []
    ] in
    join (lit "\n") (
      lit "[SCHEDULED TASK]"
      ∷ (script ++ ([] ∷ lit "Instructions:" ∷ or_text content.prompt [] ∷ [])))

-- `formatTaskMessage`
unfoldable pub format_task_message : Reader → MessageIn → Option Text
unfolding task_text
format_task_message reader msg = bind (reader.content msg) (λ content. some (task_text content))

-- `formatWebhookMessage`
unfoldable pub format_webhook_message : Reader → MessageIn → Option Text
format_webhook_message reader msg = bind (reader.content msg) (λ content. some (
    lit "[WEBHOOK: "
    ++ (or_text content.source (lit "unknown")
        ++ (lit "/" ++ (or_text content.event (lit "unknown") ++ (lit "]\n\n" ++ content.raw))))))

-- `formatSystemMessage`
unfoldable pub format_system_message : Reader → MessageIn → Option Text
format_system_message reader msg = bind (reader.content msg) (λ content. some (
    lit "[SYSTEM RESPONSE]\n\nAction: "
    ++ (or_text content.action (lit "unknown")
        ++ (lit "\nStatus: "
            ++ (or_text content.status (lit "unknown") ++ (lit "\nResult: " ++ content.result))))))

abbrev pub of_kind : Text → List MessageIn → List MessageIn
of_kind kind = filter (λ m. text_eq m.kind kind)

abbrev pub chat_part : Reader → List MessageIn → Option (List Text)
chat_part reader [] = some []
chat_part reader (m ∷ ms) = bind (format_chat_messages reader (m ∷ ms)) (λ text. some (text ∷ []))

-- `formatMessages`
unfoldable pub format_messages : Reader → List MessageIn → Option Text
unfolding join format_chat_messages format_task_message format_webhook_message format_system_message
format_messages reader ms = bind (chat_part reader (filter is_chat ms)) (λ chats.
    bind (each (format_task_message reader) (of_kind (lit "task") ms)) (λ tasks.
      bind (each (format_webhook_message reader) (of_kind (lit "webhook") ms)) (λ webhooks.
        bind (each (format_system_message reader) (of_kind (lit "system") ms)) (λ systems. some (
          lit "<context timezone=\""
          ++ (reader.timezone
              ++ (lit "\" />\n"
                  ++ join (lit "\n\n") (chats ++ (tasks ++ (webhooks ++ systems))))))))))

-- The flush of the batch in front of a raw command.
unfoldable pub flush : Reader → List MessageIn → Option (List Text)
unfolding format_messages
flush reader [] = some []
flush reader (m ∷ batch) = bind (format_messages reader (m ∷ batch)) (λ text. some (text ∷ []))

abbrev pub is_passed : CommandCategory → Bool
is_passed passthrough = true
is_passed admin = true
is_passed _ = false

-- The text that is handed over raw, where the message is a command of the provider.
abbrev pub raw_text : Reader → Bool → MessageIn → Option (Option Text)
raw_text reader native msg =
    if native && is_chat msg
    then bind (categorize_message reader msg)
        (λ info. some (if is_passed info.category then some info.text else none))
    else some none

-- One round of the loop: the message joins the batch, or is handed over raw behind it.
abbrev pub pass_on :
    Option (List Text) → Option (List Text) → Option (List Text) → Option Text → Option (List Text)
pass_on before after kept none = kept
pass_on before after kept (some text) =
    bind before (λ xs. bind after (λ ys. some (xs ++ (text ∷ ys))))

-- The loop of `formatMessagesWithCommands` (of poll-loop.ts), with the batch so far.
unfoldable pub parts_from : Reader → Bool → List MessageIn → List MessageIn → Option (List Text)
unfolding flush categorize_message
parts_from reader native batch [] = flush reader batch
parts_from reader native batch (m ∷ ms) =
    let after = parts_from reader native [] ms in
    let kept = parts_from reader native (batch ++ (m ∷ [])) ms in
    bind (raw_text reader native m) (pass_on (flush reader batch) after kept)

-- `formatMessagesWithCommands`
unfoldable pub format_messages_with_commands : Reader → Bool → List MessageIn → Option Text
unfolding parts_from join
format_messages_with_commands reader native ms =
    bind (parts_from reader native [] ms) (λ parts. some (join (lit "\n\n") parts))

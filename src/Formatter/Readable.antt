-- ===== src/Formatter/Readable.antt =====
-- A prompt is made of messages that can be read.
use paraclaw.Prelude.{
  ◌≡◌, refl, Bool, true, Text, lit, text_eq, Option, none, some, is_some, bind, each, List, [], ◌∷◌,
  ◌++◌, all, filter, Option-cases, inl, inr, arith,
}
use paraclaw.SessionDb.{MessageIn}
use paraclaw.ContainerDb.Pending.{all-filter}
use paraclaw.Formatter.{
  Reader, read_text, is_chat, is_clear_command, categorize_message, format_single_chat,
  format_chat_messages, format_task_message, format_webhook_message, format_system_message,
  format_messages, flush, parts_from, raw_text, pass_on, format_messages_with_commands, chat_part,
  of_kind,
}

-- The content is not null, and its text is a string where it is there.
abbrev pub is_readable : Reader → MessageIn → Bool
is_readable reader msg = is_some (bind (reader.content msg) (λ content. read_text content.text))

each-some :
    (f : MessageIn → Option Text) (reader : Reader)
    → ((m : MessageIn) → is_readable reader m ≡ true → is_some (f m) ≡ true)
    → (ms : List MessageIn) → all (is_readable reader) ms ≡ true
    → is_some (each f ms) ≡ true
each-some f reader h [] r = refl
each-some f reader h (m ∷ ms) r = ground (arith, h m, each-some f reader h ms, r)

pass_on-some :
    (before after kept : Option (List Text)) (raw : Option Text)
    → is_some before ≡ true
    → is_some after ≡ true
    → is_some kept ≡ true
    → is_some (pass_on before after kept raw) ≡ true
pass_on-some before after kept none b a k = k
pass_on-some (some xs) (some ys) kept (some text) b a k = refl
pass_on-some none after kept (some text) b a k = cc
pass_on-some (some xs) none kept (some text) b a k = cc

missing : {o : Option (Option Text)} → o ≡ none → is_some o ≡ true → ⊥
missing e h = ground (arith, e, h)

all-snoc :
    (p : MessageIn → Bool) (ms : List MessageIn) (m : MessageIn)
    → all p ms ≡ true
    → p m ≡ true
    → all p (ms ++ (m ∷ [])) ≡ true
all-snoc p [] m h k = ground (arith, k)
all-snoc p (x ∷ ms) m h k = ground (arith, all-snoc p ms m, h, k)

module _ (reader : Reader) where
  pub is_clear_command-some :
      (m : MessageIn) → is_readable reader m ≡ true → is_some (is_clear_command reader m) ≡ true
  unfolding is_clear_command
  is_clear_command-some m r = ground (arith, r)

  categorize_message-some :
      (m : MessageIn) → is_readable reader m ≡ true → is_some (categorize_message reader m) ≡ true
  unfolding categorize_message
  categorize_message-some m r = ground (arith, r)

  format_single_chat-some :
      (m : MessageIn) → is_readable reader m ≡ true → is_some (format_single_chat reader m) ≡ true
  unfolding format_single_chat
  format_single_chat-some m r = ground (arith, r)

  format_task_message-some :
      (m : MessageIn) → is_readable reader m ≡ true → is_some (format_task_message reader m) ≡ true
  unfolding format_task_message
  format_task_message-some m r = ground (arith, r)

  format_webhook_message-some :
      (m : MessageIn)
      → is_readable reader m ≡ true
      → is_some (format_webhook_message reader m) ≡ true
  unfolding format_webhook_message
  format_webhook_message-some m r = ground (arith, r)

  format_system_message-some :
      (m : MessageIn)
      → is_readable reader m ≡ true
      → is_some (format_system_message reader m) ≡ true
  unfolding format_system_message
  format_system_message-some m r = ground (arith, r)

  format_chat_messages-some :
      (m : MessageIn) (ms : List MessageIn)
      → all (is_readable reader) (m ∷ ms) ≡ true
      → is_some (format_chat_messages reader (m ∷ ms)) ≡ true
  unfolding format_chat_messages
  format_chat_messages-some m [] r = format_single_chat-some m (ground (arith, r))
  format_chat_messages-some m (n ∷ ms) r =
      ground
        (arith, each-some (format_single_chat reader) reader format_single_chat-some (m ∷ n ∷ ms) r)

  chat_part-some :
      (ms : List MessageIn)
      → all (is_readable reader) ms ≡ true
      → is_some (chat_part reader ms) ≡ true
  chat_part-some [] r = refl
  chat_part-some (m ∷ ms) r = ground (arith, format_chat_messages-some m ms r)

  pub format_messages-some :
      (ms : List MessageIn)
      → all (is_readable reader) ms ≡ true
      → is_some (format_messages reader ms) ≡ true
  unfolding format_messages
  format_messages-some ms r = ground (
    arith,
    chat_part-some (filter is_chat ms) (all-filter (is_readable reader) is_chat ms r),
    each-some (format_task_message reader) reader format_task_message-some (of_kind (lit "task") ms)
        (all-filter (is_readable reader) (λ m. text_eq m.kind (lit "task")) ms r),
    each-some (format_webhook_message reader) reader format_webhook_message-some
        (of_kind (lit "webhook") ms)
        (all-filter (is_readable reader) (λ m. text_eq m.kind (lit "webhook")) ms r),
    each-some (format_system_message reader) reader format_system_message-some
        (of_kind (lit "system") ms)
        (all-filter (is_readable reader) (λ m. text_eq m.kind (lit "system")) ms r),
  )

  flush-some :
      (ms : List MessageIn) → all (is_readable reader) ms ≡ true → is_some (flush reader ms) ≡ true
  unfolding flush
  flush-some [] r = refl
  flush-some (m ∷ ms) r = ground (arith, format_messages-some (m ∷ ms) r)

  raw_text-some :
      (native : Bool) (m : MessageIn)
      → is_readable reader m ≡ true
      → is_some (raw_text reader native m) ≡ true
  raw_text-some native m r = ground (arith, categorize_message-some m r)

  parts_from-some :
      (native : Bool) (batch ms : List MessageIn)
      → all (is_readable reader) batch ≡ true
      → all (is_readable reader) ms ≡ true
      → is_some (parts_from reader native batch ms) ≡ true
  unfolding parts_from
  parts_from-some native batch [] b r = flush-some batch b
  parts_from-some native batch (m ∷ ms) b r =
      let own : is_readable reader m ≡ true = ground (arith, r) in
      let later : all (is_readable reader) ms ≡ true = ground (arith, r) in
      let kept =
        parts_from-some native (batch ++ (m ∷ [])) ms (all-snoc (is_readable reader) batch m b own)
          later in
      elim (Option-cases (raw_text reader native m)) [
        | inl thrown ↦ absurd (missing thrown (raw_text-some native m own))
        | inr (raw, found) ↦
            rw (parts_from, found)
              (pass_on-some (flush reader batch) (parts_from reader native [] ms) _ raw
                (flush-some batch b) (parts_from-some native [] ms refl later) kept)
      ]

  pub format_messages_with_commands-some :
      (native : Bool) (ms : List MessageIn)
      → all (is_readable reader) ms ≡ true
      → is_some (format_messages_with_commands reader native ms) ≡ true
  unfolding format_messages_with_commands
  format_messages_with_commands-some native ms r =
      ground (arith, parts_from-some native [] ms refl r)

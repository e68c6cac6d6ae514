-- ===== src/Repositories/Telegram.antt =====
-- `TelegramProjectTopicRepository` and `TelegramMessageBindingRepository`: which forum topic shows a
-- project, and which job a message is about.
use remote_control_pjt.Prelude.{
  List, sort_by, string_leb, keep, ℕ, Bool, false, ◌&&◌, String, Option, none, some, [], ◌∷◌, ◌++◌,
  first, change, ◌==◌, string_eq, nat_eq, option_eq,
}
use remote_control_pjt.World.{Action, pure, gets, commit, ◌>>=◌, ◌>>◌}
use remote_control_pjt.Records.{TelegramProjectTopicRecord, TelegramMessageBindingRecord}

-- The composite key of a topic.
abbrev pub is_topic : String → String → TelegramProjectTopicRecord → Bool
is_topic user_id project_id r = r.user_id == user_id && r.project_id == project_id

unfoldable pub get_topic : String → String → Action (Option TelegramProjectTopicRecord)
get_topic user_id project_id = gets (λ w. first (is_topic user_id project_id) w.topics)

unfoldable pub find_by_thread : String → ℕ → Action (Option TelegramProjectTopicRecord)
find_by_thread chat_id message_thread_id =
    gets
      (λ w. first (λ r. r.chat_id == chat_id && r.message_thread_id == message_thread_id) w.topics)

unfoldable pub write_topic :
    TelegramProjectTopicRecord
    → Option TelegramProjectTopicRecord
    → Action TelegramProjectTopicRecord
write_topic fresh none = do
  commit false (λ w. record w { topics = w.topics ++ fresh ∷ [] })
  pure fresh
write_topic fresh (some r) = do
  let set = λ (t : TelegramProjectTopicRecord). record t {
    chat_id = fresh.chat_id;
    message_thread_id = fresh.message_thread_id;
    topic_name = fresh.topic_name;
  }
  commit false
      (λ w. record w { topics = change (is_topic fresh.user_id fresh.project_id) set w.topics })
  pure (set r)

unfoldable pub upsert_topic : TelegramProjectTopicRecord → Action TelegramProjectTopicRecord
unfolding write_topic
upsert_topic fresh = do
  r ← gets (λ w. first (is_topic fresh.user_id fresh.project_id) w.topics)
  write_topic fresh r

-- The composite key of a binding.
abbrev pub is_binding : String → ℕ → TelegramMessageBindingRecord → Bool
is_binding chat_id message_id r = r.chat_id == chat_id && r.message_id == message_id

unfoldable pub get_binding : String → ℕ → Action (Option TelegramMessageBindingRecord)
get_binding chat_id message_id = gets (λ w. first (is_binding chat_id message_id) w.bindings)

unfoldable pub write_binding :
    TelegramMessageBindingRecord
    → Option TelegramMessageBindingRecord
    → Action TelegramMessageBindingRecord
write_binding fresh none = do
  commit false (λ w. record w { bindings = w.bindings ++ fresh ∷ [] })
  pure fresh
write_binding fresh (some r) = do
  let set = λ (b : TelegramMessageBindingRecord). record b {
    message_thread_id = fresh.message_thread_id;
    user_id = fresh.user_id;
    project_id = fresh.project_id;
    job_id = fresh.job_id;
  }
  commit false (λ w. record w {
    bindings = change (is_binding fresh.chat_id fresh.message_id) set w.bindings;
  })
  pure (set r)

unfoldable pub upsert_binding : TelegramMessageBindingRecord → Action TelegramMessageBindingRecord
unfolding write_binding
upsert_binding fresh = do
  r ← gets (λ w. first (is_binding fresh.chat_id fresh.message_id) w.bindings)
  write_binding fresh r

unfoldable pub list_for_user : String → Action (List TelegramProjectTopicRecord)
list_for_user user_id = gets (λ w.
    sort_by (λ a b. string_leb a.project_id b.project_id)
      (keep (λ r. r.user_id == user_id) w.topics))

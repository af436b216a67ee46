-- ===== src/AiTeam/Memory.antt =====
-- What agents remember: ai_team/memory (schemas.py and store.py).
use tmis.Prelude.{
  ℕ, ◌+◌, ◌-◌, ◌≤◌, String, none, some, List, [], ◌∷◌, ◌++◌, arith, if◌then◌else◌, ◌==◌, nat_eq,
  string_eq, key_eq, length, drop, keep, any, length-append, length-drop,
}
use tmis.Prelude.Dict.{Dict, get, put}

pub record ShortTermMemoryEntry : Type 0 where
  pub agent_id : String
  pub mission_id : String
  pub content : String
  pub recorded_at : ℕ

-- `tags` is a set.
pub record LongTermMemoryEntry : Type 0 where
  pub agent_id : String
  pub summary : String
  pub tags : List String
  pub recorded_at : ℕ

pub record AgentPreferences : Type 0 where
  pub agent_id : String
  pub values_of : Dict String String

-- `InMemoryAgentMemoryStore`
pub record MemoryStore : Type 0 where
  pub short_term : Dict String (List ShortTermMemoryEntry)
  pub long_term : Dict String (List LongTermMemoryEntry)
  pub preferences : Dict String AgentPreferences

abbrev pub short_term_max_entries : ℕ
short_term_max_entries = 20

abbrev pub entries_of : {A : Type 0} → Dict String (List A) → String → List A
entries_of memory agent_id = elim (get memory agent_id) [ none ↦ [] | some xs ↦ xs ]

-- `append` of a `deque(maxlen=20)`, which drops the oldest entries.
unfoldable pub push_bounded :
    List ShortTermMemoryEntry → ShortTermMemoryEntry → List ShortTermMemoryEntry
push_bounded entries entry =
    drop (length entries + 1 - short_term_max_entries) (entries ++ entry ∷ [])

unfoldable pub remember_short_term : ℕ → MemoryStore → String → String → String → MemoryStore
unfolding push_bounded
remember_short_term now store agent_id mission_id content =
    let entry : ShortTermMemoryEntry = record {
      agent_id = agent_id;
      mission_id = mission_id;
      content = content;
      recorded_at = now;
    } in
    record store {
      short_term =
          put store.short_term agent_id (push_bounded (entries_of store.short_term agent_id) entry);
    }

-- `entries[-limit:]`, which is all entries if the limit is 0.
unfoldable pub recent_short_term : MemoryStore → String → ℕ → List ShortTermMemoryEntry
recent_short_term store agent_id limit =
    let entries = entries_of store.short_term agent_id in
    if limit == 0 then entries else drop (length entries - limit) entries

unfoldable pub remember_long_term : ℕ → MemoryStore → String → String → List String → MemoryStore
remember_long_term now store agent_id summary tags =
    let entry : LongTermMemoryEntry = record {
      agent_id = agent_id;
      summary = summary;
      tags = tags;
      recorded_at = now;
    } in
    record store {
      long_term = put store.long_term agent_id (entries_of store.long_term agent_id ++ entry ∷ []);
    }

unfoldable pub search_long_term : MemoryStore → String → String → List LongTermMemoryEntry
search_long_term store agent_id tag =
    keep (λ (e : LongTermMemoryEntry). any (λ t. t == tag) e.tags)
      (entries_of store.long_term agent_id)

-- `self._preferences.setdefault(agent_id, AgentPreferences(agent_id=agent_id))`
unfoldable pub get_preferences : MemoryStore → String → AgentPreferences × MemoryStore
get_preferences store agent_id = elim (get store.preferences agent_id) [
  | some found ↦ (found, store)
  | none ↦
      let fresh : AgentPreferences = record { agent_id = agent_id; values_of = [] } in
      (fresh, record store { preferences = put store.preferences agent_id fresh })
]

unfoldable pub set_preference : MemoryStore → String → String → String → MemoryStore
unfolding get_preferences
set_preference store agent_id key value =
    let (found, after) = get_preferences store agent_id in
    record after {
      preferences =
          put after.preferences agent_id
            (record found { values_of = put found.values_of key value });
    }

-- No more than 20 entries are kept.
length-push_bounded :
    (entries : List ShortTermMemoryEntry) (entry : ShortTermMemoryEntry)
    → length entries ≤ short_term_max_entries
    → length (push_bounded entries entry) ≤ short_term_max_entries
unfolding push_bounded
length-push_bounded entries entry h =
    let kept = length-drop (length entries + 1 - short_term_max_entries) (entries ++ entry ∷ []) in
    let all_entries = length-append entries (entry ∷ []) in omega (arith, kept, all_entries, h)

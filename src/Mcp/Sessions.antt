-- ===== src/Mcp/Sessions.antt =====
-- services/cortex-mcp-server/cortex_mcp_server/modes/multiturn.py: the sessions of a conversation
-- and the messages that a model gets. The clock is an argument; the metadata, the times of the
-- turns and the time of creation are left out.
use c_e.Common.{
  ℕ, ◌+◌, ◌-◌, ◌*◌, ◌≤◌, false, String, List, [], ◌∷◌, ◌++◌, map, Option, none, some, ◌≡◌, refl,
  arith, if◌then◌else◌, length, length-append, length-drop, take_last, str_eq,
}
use c_e.Common.Dict.{Dict, lookup, insert, lookup-insert-same}
use c_e.Common.Float.{Float}
use c_e.Mcp.Models.{ModelId}

pub record Turn : Type 0 where
  pub role : String
  pub content : String
  pub tokens : ℕ

pub record ConversationContext (F : Type 0) : Type 0 where
  pub session_id : String
  pub agent_id : String
  pub last_active : F
  pub turns : List Turn

pub record ChatMessage : Type 0 where
  pub role : String
  pub content : String

-- A model that is missing raises.
max_turns_per_model : ModelId → Option ℕ
max_turns_per_model ModelId.phi3_mini = some 3
max_turns_per_model ModelId.mistral_7b = some 6
max_turns_per_model ModelId.llama3_8b = some 8
max_turns_per_model ModelId.codellama_13b = some 12
max_turns_per_model ModelId.claude = some 50
max_turns_per_model _ = none

abbrev message_of : Turn → ChatMessage
message_of turn = record { role = turn.role; content = turn.content }

build_messages : List Turn → String → ModelId → String → Option (List ChatMessage)
unfolding max_turns_per_model
build_messages turns new_message model_id system_prompt = elim (max_turns_per_model model_id) [
  | none ↦ none
  | some max_turns ↦ some (
      (if str_eq system_prompt ""
        then []
        else record { role = "system"; content = system_prompt } ∷ [])
      ++ (map message_of (take_last max_turns turns)
          ++ record { role = "user"; content = new_message } ∷ []))
]

delete {ℓ} : {V : Type ℓ} → String → Dict V → Dict V
delete k [] = []
delete k ((j, v) ∷ d) = if str_eq j k then d else (j, v) ∷ delete k d

module _ {F : Type 0} ⦃o : Float F⦄ where
  -- A session that was last active too long ago is removed.
  load_context :
      ℕ
      → F
      → String
      → Dict (ConversationContext F)
      → Option (ConversationContext F) × Dict (ConversationContext F)
  unfolding delete
  load_context ttl now session_id store = elim (lookup session_id store) [
    | none ↦ (none, store)
    | some ctx ↦
        (if o.lt (o.lit (ttl * 1_000_000)) (o.sub now ctx.last_active)
          then (none, delete session_id store)
          else (some ctx, store))
  ]

  save_context :
      F → ConversationContext F → Dict (ConversationContext F) → Dict (ConversationContext F)
  save_context now ctx store = insert ctx.session_id (record ctx { last_active = now }) store

  -- A session that is loaded within its time to live is the one saved, with the time of saving.
  load_context-save_context :
      (ttl : ℕ) (saved now : F) (ctx : ConversationContext F) (store : Dict (ConversationContext F))
      → o.lt (o.lit (ttl * 1_000_000)) (o.sub now saved) ≡ false
      → load_context ttl now ctx.session_id (save_context saved ctx store)
        ≡ (some (record ctx { last_active = saved }), save_context saved ctx store)
  unfolding load_context save_context
  load_context-save_context ttl saved now ctx store fresh =
      ground (arith, lookup-insert-same ctx.session_id (record ctx { last_active = saved }) store)

length-map : (turns : List Turn) → length (map message_of turns) ≡ length turns
length-map [] = refl
length-map (t ∷ turns) = omega (arith, length-map turns)

bounded :
    (first : List ChatMessage) (last : ChatMessage) (turns : List Turn) (n : ℕ)
    → length first ≤ 1
    → length (first ++ (map message_of (take_last n turns) ++ last ∷ [])) ≤ n + 2
bounded first last turns n h = omega (
  arith,
  length-append first (map message_of (take_last n turns) ++ last ∷ []),
  length-append (map message_of (take_last n turns)) (last ∷ []),
  length-map (take_last n turns),
  length-drop (length turns - n) turns,
)

-- A model gets at most two messages more than its number of turns, whatever the session holds.
length-build_messages :
    (turns : List Turn) (new_message system_prompt : String) (model : ModelId) (max_turns : ℕ)
    (messages : List ChatMessage)
    → max_turns_per_model model ≡ some max_turns
    → build_messages turns new_message model system_prompt ≡ some messages
    → length messages ≤ max_turns + 2
unfolding build_messages
length-build_messages turns new_message system_prompt model max_turns messages known built =
    let last : ChatMessage = record { role = "user"; content = new_message } in
    let first : ChatMessage = record { role = "system"; content = system_prompt } in
    ground (
      arith,
      bounded [] last turns max_turns (omega arith),
      bounded (first ∷ []) last turns max_turns (omega arith),
    )

-- ===== src/Sandbox/Tools.antt =====
-- internal/sandbox/tools.go: whether the sandbox asks for a tool, and how it cuts the arguments.
use skyl.Prelude.{
  ◌/◌, String, Bool, ◌||◌, List, [], ◌∷◌, ◌++◌, length, take, ltb, ◌≡◌, ap, ◌∙◌, Option, none, some,
  str_eq, is_empty, if◌then◌else◌, Bool-cases, inl, inr, append-nil,
}
use skyl.Sandbox.{Runes, drop}
use skyl.Sandbox.Chunks.{together, take-drop}

pub record ToolCall : Type 0 where
  pub id : String
  pub name : String
  pub args : String

abbrev tool_call_args : String
tool_call_args = "{\"city\":\"Kampala\",\"units\":\"metric\"}"

abbrev sandbox_call : String → ToolCall
sandbox_call name = record { id = "call_sandbox_1"; name = name; args = tool_call_args }

-- The loop over the names for the one that is forced.
unfoldable pub forced_call : String → List String → Option ToolCall
forced_call forced [] = none
forced_call forced (n ∷ ns) =
    if str_eq n forced then some (sandbox_call n) else forced_call forced ns

module _ (mentions_weather : String → Bool) where
  -- The first name that mentions the weather, or else the first.
  unfoldable pub preferred : String → List String → String
  preferred first [] = first
  preferred first (n ∷ ns) = if mentions_weather n then n else preferred first ns

  -- `decideToolCall`; `mentions_weather` is the test on the text in lower case.
  unfoldable pub decide_tool_call : String → List String → String → String → Option ToolCall
  unfolding forced_call preferred
  decide_tool_call prompt [] choice forced = none
  decide_tool_call prompt (n ∷ ns) choice forced =
      if str_eq choice "none"
      then none
      else if is_empty forced
      then (if str_eq choice "required" || mentions_weather prompt
          then some (sandbox_call (preferred n (n ∷ ns)))
          else none)
      else forced_call forced (n ∷ ns)

-- `argChunks`: three parts, the last of which takes what is left.
unfoldable pub arg_chunks : Runes → List Runes
arg_chunks args =
    let size = length args / 3 in
    if ltb (length args) 3
    then args ∷ []
    else take size args ∷ take size (drop size args) ∷ drop size (drop size args) ∷ []

-- The arguments are cut into three parts that add up to them, or are left whole.
pub arg_chunks_lem : (args : Runes) → together (arg_chunks args) ≡ args
unfolding arg_chunks
arg_chunks_lem args = elim (Bool-cases (ltb (length args) 3)) [
  | inl short ↦ rw short (append-nil args)
  | inr long ↦
      let size = length args / 3 in
      rw long (
        ap (λ x. take size args ++ (take size (drop size args) ++ x))
          (append-nil (drop size (drop size args)))
        ∙ ap (λ x. take size args ++ x) (take-drop size (drop size args))
        ∙ take-drop size args)
]

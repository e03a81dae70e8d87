-- ===== src/Oai/Conversion.antt =====
-- Which messages the chat-completions format can carry, and that it carries them whole.
use skyl.Prelude.{
  ℕ, String, ◌≡◌, refl, sym, ap, ◌∙◌, false, List, [], ◌∷◌, ◌++◌, null, map, append-nil,
  append_assoc, str_eq, is_empty, ◌<>◌, concat, <>_assoc, <>-empty, empty-<>, if◌then◌else◌,
  Bool-cases, inl, inr, All, eq_iff,
}
use skyl.Message.{
  Part, ToolCall, Role, text, image, tool_call, tool_result, nil, role_user, role_assistant,
  role_tool, tool_calls_of,
}
use skyl.Message.Laws.{texts, IsReplyPart}
use skyl.Result.{ok, map_ok}
use skyl.Oai.{Library, Config, WireMessage, or_no_arguments, text_from_content, tool_call_from_wire}
use skyl.Oai.Payload.{
  Draft, no_draft, wire_call, draft_content, wire_message, finish_draft, convert_part,
  convert_parts, convert_message,
}
use skyl.Oai.Reply.{parts_from_wire, call_parts_from_wire}

-- The parts that a message of a role may have.
abbrev pub IsFor : Role → Part → Type 0
IsFor role (text t) = (str_eq role role_tool ≡ false)
IsFor role (image v) = role ≡ role_user
IsFor role (tool_call c) = role ≡ role_assistant
IsFor role (tool_result r) = role ≡ role_tool
IsFor role nil = ⊥

-- A call whose arguments are `{}` where they were empty.
abbrev pub with_arguments : ToolCall → ToolCall
unfolding or_no_arguments
with_arguments c = record { id = c.id; name = c.name; arguments = or_no_arguments c.arguments }

or_no_arguments_twice : (a : String) → or_no_arguments (or_no_arguments a) ≡ or_no_arguments a
unfolding or_no_arguments
or_no_arguments_twice a = elim (Bool-cases (is_empty a)) [
  | inl e ↦ rw e refl
  | inr e ↦ rw (e, e) refl
]

module _ (lib : Library) (cfg : Config) (idx : ℕ) where
  -- The loop over the parts of an assistant message collects the texts and the calls.
  convert_reply :
      (ps : List Part) (d : Draft)
      → All IsReplyPart ps
      → (e : Draft) × (convert_parts lib cfg idx role_assistant ps d ≡ ok e)
        × (e.text_only ≡ d.text_only <> concat (texts ps))
        × (e.tool_calls ≡ d.tool_calls ++ map wire_call (tool_calls_of ps))
        × (e.multipart ≡ d.multipart)
  unfolding convert_parts convert_part tool_calls_of
  convert_reply [] d h = (d, refl, sym (<>-empty d.text_only), sym (append-nil d.tool_calls), refl)
  convert_reply (text t ∷ ps) d h =
      let (e, done, said, called, m) = convert_reply ps _ h.1 in
      (e, done, said ∙ <>_assoc d.text_only t (concat (texts ps)), called, m)
  convert_reply (tool_call c ∷ ps) d h =
      let (e, done, said, called, m) = convert_reply ps _ h.1 in
      (e, done, said, called ∙ append_assoc d.tool_calls (wire_call c ∷ []) _, m)
  convert_reply (image v ∷ ps) d h = absurd h.0
  convert_reply (tool_result r ∷ ps) d h = absurd h.0
  convert_reply (nil ∷ ps) d h = absurd h.0

  call_parts-wire_call :
      (cs : List ToolCall)
      → call_parts_from_wire (map wire_call cs) ≡ map tool_call (map with_arguments cs)
  unfolding call_parts_from_wire wire_call tool_call_from_wire with_arguments
  call_parts-wire_call [] = refl
  call_parts-wire_call (c ∷ cs) =
      rw (or_no_arguments_twice c.arguments)
        (ap (λ ps. tool_call (with_arguments c) ∷ ps) (call_parts-wire_call cs))

  draft_content-text :
      (e : Draft) → e.multipart ≡ false → text_from_content (draft_content e) ≡ e.text_only
  unfolding draft_content text_from_content
  draft_content-text e m = rw m (elim (Bool-cases (is_empty e.text_only)) [
    | inr said ↦ rw said refl
    | inl silent ↦ elim (Bool-cases (null e.tool_calls)) [
      | inl idle ↦ rw (silent, idle) (sym ((eq_iff e.text_only "").0 silent))
      | inr calls ↦ rw (silent, calls) (sym ((eq_iff e.text_only "").0 silent))
    ]
  ])

  parts_from_wire-draft :
      (e : Draft) (t : String) (cs : List ToolCall)
      → e.multipart ≡ false
      → e.text_only ≡ t
      → e.tool_calls ≡ map wire_call cs
      → parts_from_wire (wire_message role_assistant (draft_content e) e.tool_calls)
        ≡ (if is_empty t then [] else text t ∷ []) ++ map tool_call (map with_arguments cs)
  unfolding parts_from_wire
  parts_from_wire-draft e t cs m said called =
      ap
        (λ u.
          if is_empty u
          then call_parts_from_wire e.tool_calls
          else text u ∷ call_parts_from_wire e.tool_calls)
        (draft_content-text e m ∙ said)
      ∙ ap (λ ps. if is_empty t then ps else text t ∷ ps)
          (ap call_parts_from_wire called ∙ call_parts-wire_call cs)
      ∙ elim (Bool-cases (is_empty t)) [ inl k ↦ rw k refl | inr k ↦ rw k refl ]

  -- An assistant message of texts and tool calls, in any order, is sent as one wire message, which
  -- reads back as its whole text, if it has any, and then its calls, unchanged but for empty
  -- arguments, which become `{}`.
  pub parts-convert_message :
      (ps : List Part)
      → All IsReplyPart ps
      → (w : WireMessage) × (convert_message lib cfg idx
            (record { role = role_assistant; parts = ps })
          ≡ ok (w ∷ []))
        × (parts_from_wire w
            ≡ (if is_empty (concat (texts ps)) then [] else text (concat (texts ps)) ∷ [])
              ++ map tool_call (map with_arguments (tool_calls_of ps)))
  unfolding convert_message finish_draft
  parts-convert_message ps h =
      let (e, done, said, called, m) = convert_reply ps no_draft h in
      (
        wire_message role_assistant (draft_content e) e.tool_calls,
        ap (map_ok (finish_draft role_assistant)) done,
        parts_from_wire-draft e (concat (texts ps)) (tool_calls_of ps) m (said ∙ empty-<> _) called,
      )

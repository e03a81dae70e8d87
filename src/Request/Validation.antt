-- ===== src/Request/Validation.antt =====
-- What a validated request promises, stated without the code's tests.
use skyl.Prelude.{
  ℕ, suc, String, ◌≡◌, ◌≢◌, ◌↔◌, refl, Bool, true, false, List, [], ◌∷◌, ◌⊎◌, is_empty, not, null,
  Option, none, some, ℤ, pos, ◌≤ℤ◌, eq_iff, arith, All, ltb_ℤ,
}
use skyl.Json.{field_count}
use skyl.Message.{
  Part, Message, text, image, tool_call, tool_result, nil, valid, role_user, role_assistant,
  role_tool,
}
use skyl.Request.{
  Request, Tool, ToolChoice, ResponseFormat, Check, ◌then_check◌, fail_if, Invalid, validate_part,
  validate_parts, validate_messages, validate_tools, validate_choice, validate_format, validate,
  tool_choice_auto, tool_choice_none, tool_choice_required, tool_choice_specific,
}

abbrev pub IsPart : Part → Type 0
IsPart (text t) = Unit
IsPart (image v) = ((v.bytes ≢ []) ⊎ (v.url ≢ "")) × ((v.bytes ≡ []) ⊎ (v.media_type ≢ ""))
IsPart (tool_call v) = (v.id ≢ "") × (v.name ≢ "")
IsPart (tool_result v) = v.call_id ≢ ""
IsPart nil = ⊥

abbrev pub IsRole : String → Type 0
IsRole r = (r ≡ role_user) ⊎ ((r ≡ role_assistant) ⊎ (r ≡ role_tool))

abbrev pub IsMessage : Message → Type 0
IsMessage m = IsRole m.role × (m.parts ≢ []) × All IsPart m.parts

abbrev pub IsTool : Tool → Type 0
IsTool t = t.name ≢ ""

abbrev pub IsChoice : Option ToolChoice → Type 0
IsChoice none = Unit
IsChoice (some c) =
    (c.mode ≡ tool_choice_auto)
    ⊎ ((c.mode ≡ tool_choice_none)
        ⊎ ((c.mode ≡ tool_choice_required) ⊎ ((c.mode ≡ tool_choice_specific) × (c.name ≢ ""))))

abbrev pub IsFormat : Option ResponseFormat → Type 0
IsFormat none = Unit
IsFormat (some f) = field_count f.schema ≢ 0

pub record IsWellFormed (r : Request) : Type 0 where
  pub model : r.model ≢ ""
  pub messages_ne_nil : r.messages ≢ []
  pub max_tokens : pos 0 ≤ℤ r.max_tokens
  pub messages : All IsMessage r.messages
  pub tools : All IsTool r.tools
  pub choice : IsChoice r.tool_choice
  pub format : IsFormat r.response_format

abbrev Passes : Check → Type 0
Passes c = c ≡ none

-- a chain of checks passes exactly if each of them does
then_check_iff : (a b : Check) → Passes (a then_check b) ↔ (Passes a × Passes b)
then_check_iff none b = (λ h. (refl, h), λ h. h.1)
then_check_iff (some e) b = (λ h. cc, λ h. cc)

fail_if_iff : (b : Bool) (e : Invalid) → Passes (fail_if b e) ↔ (b ≡ false)
fail_if_iff true e = (λ h. cc, λ h. cc)
fail_if_iff false e = (λ h. refl, λ h. refl)

is_empty_iff : (s : String) → (is_empty s ≡ false) ↔ (s ≢ "")
is_empty_iff s = ground (arith, eq_iff s "")

null_iff {ℓ} : {A : Type ℓ} (xs : List A) → (null xs ≡ false) ↔ (xs ≢ [])
null_iff [] = (λ h. cc, λ h. absurd (h refl))
null_iff (x ∷ xs) = (λ _ h. cc, λ _. refl)

validate_part_iff : (i j : ℕ) (p : Part) → Passes (validate_part i j p) ↔ IsPart p
unfolding validate_part
validate_part_iff i j (text t) = (λ _. tt, λ _. refl)
validate_part_iff i j (image v) =
    ground (arith, eq_iff v.url "", eq_iff v.media_type "", null_iff v.bytes)
validate_part_iff i j (tool_call v) = ground (arith, eq_iff v.id "", eq_iff v.name "")
validate_part_iff i j (tool_result v) = ground (arith, eq_iff v.call_id "")
validate_part_iff i j nil = (λ h. cc, λ h. absurd h)

validate_parts_iff : (i j : ℕ) (ps : List Part) → Passes (validate_parts i j ps) ↔ All IsPart ps
unfolding validate_parts
validate_parts_iff i j [] = (λ _. tt, λ _. refl)
validate_parts_iff i j (p ∷ ps) =
    let split = then_check_iff (validate_part i j p) (validate_parts i (suc j) ps) in
    let first = validate_part_iff i j p in
    let rest = validate_parts_iff i (suc j) ps in
    (λ h. (first.0 (split.0 h).0, rest.0 (split.0 h).1), λ h. split.1 (first.1 h.0, rest.1 h.1))

valid_iff : (r : String) → (not (valid r) ≡ false) ↔ IsRole r
unfolding valid
valid_iff r = ground (arith, eq_iff r role_user, eq_iff r role_assistant, eq_iff r role_tool)

validate_tools_iff : (i : ℕ) (ts : List Tool) → Passes (validate_tools i ts) ↔ All IsTool ts
unfolding validate_tools
validate_tools_iff i [] = (λ _. tt, λ _. refl)
validate_tools_iff i (t ∷ ts) = ground (arith, eq_iff t.name "", validate_tools_iff (suc i) ts)

validate_choice_iff : (c : Option ToolChoice) → Passes (validate_choice c) ↔ IsChoice c
unfolding validate_choice
validate_choice_iff none = (λ _. tt, λ _. refl)
validate_choice_iff (some c) = ground (
  arith,
  eq_iff c.name "",
  eq_iff c.mode tool_choice_auto,
  eq_iff c.mode tool_choice_none,
  eq_iff c.mode tool_choice_required,
  eq_iff c.mode tool_choice_specific,
)

validate_format_iff : (f : Option ResponseFormat) → Passes (validate_format f) ↔ IsFormat f
unfolding validate_format
validate_format_iff none = (λ _. tt, λ _. refl)
validate_format_iff (some f) = ground arith

-- two halves of an equivalence, put side by side
×_iff : {A B C D : Type 0} → A ↔ B → C ↔ D → (A × C) ↔ (B × D)
×_iff f g = (λ h. (f.0 h.0, g.0 h.1), λ h. (f.1 h.0, g.1 h.1))

↔_trans : {A B C : Type 0} → A ↔ B → B ↔ C → A ↔ C
↔_trans f g = (λ a. g.0 (f.0 a), λ c. f.1 (g.1 c))

-- one check in front of a chain
check_iff :
    (a b : Check) {P Q : Type 0} → Passes a ↔ P → Passes b ↔ Q → Passes (a then_check b) ↔ (P × Q)
check_iff a b f g = ↔_trans (then_check_iff a b) (×_iff f g)

test_iff : (t : Bool) (e : Invalid) {P : Type 0} → (t ≡ false) ↔ P → Passes (fail_if t e) ↔ P
test_iff t e f = ↔_trans (fail_if_iff t e) f

validate_messages_iff :
    (i : ℕ) (ms : List Message) → Passes (validate_messages i ms) ↔ All IsMessage ms
unfolding validate_messages
validate_messages_iff i [] = (λ _. tt, λ _. refl)
validate_messages_iff i (m ∷ ms) =
    ↔_trans
      (check_iff _ _ (test_iff _ _ (valid_iff m.role)) (
        check_iff _ _ (test_iff _ _ (null_iff m.parts))
          (check_iff _ _ (validate_parts_iff i 0 m.parts) (validate_messages_iff (suc i) ms))))
      (λ h. ((h.0, h.1.0, h.1.1.0), h.1.1.1), λ h. (h.0.0, (h.0.1, (h.0.2, h.1))))

max_tokens_iff : (n : ℤ) → (ltb_ℤ n (pos 0) ≡ false) ↔ (pos 0 ≤ℤ n)
max_tokens_iff n = ground arith

-- `Validate` accepts exactly the well-formed requests: a model, a message, no negative token cap,
-- messages with a known role and at least one part, all parts complete, named tools, a tool choice of
-- a known mode with a name where one is forced, and a schema that is not empty.
pub validate_iff : (r : Request) → (validate (some r) ≡ none) ↔ IsWellFormed r
unfolding validate
validate_iff r =
    ↔_trans
      (check_iff _ _ (test_iff _ _ (is_empty_iff r.model)) (
        check_iff _ _ (test_iff _ _ (null_iff r.messages)) (
          check_iff _ _ (test_iff _ _ (max_tokens_iff r.max_tokens)) (
            check_iff _ _ (validate_messages_iff 0 r.messages) (
              check_iff _ _ (validate_tools_iff 0 r.tools) (
                check_iff _ _ (validate_choice_iff r.tool_choice)
                  (validate_format_iff r.response_format)))))))
      (
        λ h. record {
          model = h.0;
          messages_ne_nil = h.1.0;
          max_tokens = h.1.1.0;
          messages = h.1.1.1.0;
          tools = h.1.1.1.1.0;
          choice = h.1.1.1.1.1.0;
          format = h.1.1.1.1.1.1;
        },
        λ w. (
          w.model,
          (w.messages_ne_nil, (w.max_tokens, (w.messages, (w.tools, (w.choice, w.format))))),
        ),
      )

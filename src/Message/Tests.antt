-- ===== src/Message/Tests.antt =====
-- Tests of message.go, and the theorem at a concrete input.
use skyl.Prelude.{◌≡◌, refl, true, false, [], ◌∷◌, codes}
use skyl.Message.{
  text, tool_call, Message, message_text, user_image, valid, role_assistant, role_tool,
  append_texts, text_length,
}

abbrev reply : Message
reply = record {
  role = role_assistant;
  parts =
      text "Hel"
      ∷ tool_call (record { id = "1"; name = "clock"; arguments = "{}" })
      ∷ text "lo"
      ∷ [];
}

reply_text : message_text reply ≡ "Hello"
unfolding message_text append_texts text_length
reply_text = refl

picture_only : message_text (user_image "image/png" (codes "x") "") ≡ ""
unfolding message_text user_image
picture_only = refl

roles : (valid role_tool ≡ true) × (valid "system" ≡ false)
unfolding valid
roles = (refl, refl)

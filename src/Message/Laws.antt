-- ===== src/Message/Laws.antt =====
-- `Message.Text` is plain concatenation, its two fast paths included.
use Prim.Native.String.{len}
use skyl.Prelude.{
  String, ◌≡◌, refl, sym, ◌∙◌, List, [], ◌∷◌, ◌==◌, inl, inr, Bool-cases, ==_iff, if◌then◌else◌,
  ◌<>◌, concat, empty-<>, <>-empty, <>_assoc, len-eq-zero, len-<>, arith,
}
use skyl.Message.{
  Part, text, Message, text_length, append_texts, only_text, text_of_parts, message_text, tool_call,
}

-- The texts among the parts, in order.
abbrev pub texts : List Part → List String
texts [] = []
texts (text t ∷ ps) = t ∷ texts ps
texts (_ ∷ ps) = texts ps

append_texts-concat :
    (buf : String) (ps : List Part) → append_texts buf ps ≡ buf <> concat (texts ps)
unfolding append_texts
append_texts-concat buf [] = sym (<>-empty buf)
append_texts-concat buf (text t ∷ ps) =
    append_texts-concat (buf <> t) ps ∙ <>_assoc buf t (concat (texts ps))
append_texts-concat buf (_ ∷ ps) = append_texts-concat buf ps

text_length-len : (ps : List Part) → text_length ps ≡ len (concat (texts ps))
unfolding text_length
text_length-len [] = refl
text_length-len (text t ∷ ps) = omega (arith, text_length-len ps, len-<> t (concat (texts ps)))
text_length-len (_ ∷ ps) = text_length-len ps

loops-concat :
    (ps : List Part) → (if text_length ps == 0 then "" else append_texts "" ps) ≡ concat (texts ps)
loops-concat ps = elim (Bool-cases (text_length ps == 0)) [
  | inl none_written ↦ rw none_written (
      sym
        (len-eq-zero (concat (texts ps)) (sym (text_length-len ps) ∙ (==_iff _ 0).0 none_written)))
  | inr some_written ↦ rw some_written (append_texts-concat "" ps ∙ empty-<> (concat (texts ps)))
]

only_text-concat : (p : Part) → only_text p ≡ concat (texts (p ∷ []))
unfolding only_text
only_text-concat (text t) = sym (<>-empty t)
only_text-concat _ = refl

text_of_parts-concat : (ps : List Part) → text_of_parts ps ≡ concat (texts ps)
unfolding text_of_parts
text_of_parts-concat [] = refl
text_of_parts-concat (p ∷ []) = only_text-concat p
text_of_parts-concat (p ∷ q ∷ ps) = loops-concat (p ∷ q ∷ ps)

-- `Text` is the concatenation of the text parts in order, for every number of parts: the fast paths
-- for no and for one part and the early return for no text change nothing.
pub message_text-concat : (m : Message) → message_text m ≡ concat (texts m.parts)
unfolding message_text
message_text-concat m = text_of_parts-concat m.parts

-- The parts of a reply: texts and tool calls.
abbrev pub IsReplyPart : Part → Type 0
IsReplyPart (text t) = Unit
IsReplyPart (tool_call c) = Unit
IsReplyPart _ = ⊥

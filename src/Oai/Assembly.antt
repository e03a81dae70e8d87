-- ===== src/Oai/Assembly.antt =====
-- The tool calls of a streamed reply, described by the fragments that they arrive in.
use skyl.Prelude.{
  String, ◌≡◌, refl, sym, ap, ◌∙◌, List, [], ◌∷◌, ◌++◌, map, concat, Option, none, some, is_empty,
  ◌<>◌, <>_assoc, empty-<>, <>-empty, if◌then◌else◌, Bool-cases, inl, inr, ℤ,
}
use skyl.Message.{ToolCall}
use skyl.Sse.{Event}
use skyl.Oai.{Library, WireResponse, WireToolCall, or_no_arguments}
use skyl.Oai.Decoder.{PendingCall, Pending, merge_call, whole_call, accumulate, accumulate_all}
use skyl.Oai.Finish.{or_dropped, whole_calls}
use skyl.Oai.Fragments.{own, assembled, new_indices, calls_at, accumulate_all-calls_at}
use skyl.Oai.Frames.{Ledger, chunk_of, first_choice, choice_calls, enter, enter_choice, enter_all}

-- The last of some texts that is not empty, or else `d`.
abbrev pub last_filled : List String → String → String
last_filled [] d = d
last_filled (x ∷ xs) d = last_filled xs (if is_empty x then d else x)

-- The call that fragments make up: the last identifier and the last name that are not empty, and all
-- pieces of the arguments one behind the other, or an empty object. Without a name there is none.
abbrev pub described_call : List WireToolCall → List ToolCall
described_call ws =
    let name = last_filled (map (λ (w : WireToolCall). w.name) ws) "" in
    let pieces = concat (map (λ (w : WireToolCall). w.arguments) ws) in
    if is_empty name
    then []
    else (record {
      id = last_filled (map (λ (w : WireToolCall). w.id) ws) "";
      name = name;
      arguments = if is_empty pieces then "{}" else pieces;
    })
      ∷ []

-- The calls at some indices, each described by the fragments with its index only.
abbrev pub described_calls : List WireToolCall → List ℤ → List ToolCall
described_calls ws [] = []
described_calls ws (i ∷ is) = described_call (own i ws) ++ described_calls ws is

-- The calls of a reply, in the order of their first fragments.
abbrev pub reply_calls : List WireToolCall → List ToolCall
reply_calls ws = described_calls ws (new_indices [] ws)

assembled-some :
    (ws : List WireToolCall) (c : PendingCall)
    → assembled (some c) ws
      ≡ some (record {
        id = last_filled (map (λ (w : WireToolCall). w.id) ws) c.id;
        name = last_filled (map (λ (w : WireToolCall). w.name) ws) c.name;
        args = c.args <> concat (map (λ (w : WireToolCall). w.arguments) ws);
      })
unfolding merge_call
assembled-some [] c = ap (λ x. some (record c { args = x })) (sym (<>-empty c.args))
assembled-some (w ∷ ws) c =
    let spelt = λ (x : String). some (record {
      id = last_filled (map (λ (v : WireToolCall). v.id) (w ∷ ws)) c.id;
      name = last_filled (map (λ (v : WireToolCall). v.name) (w ∷ ws)) c.name;
      args = x;
    }) in
    assembled-some ws (merge_call w c)
    ∙ ap spelt (<>_assoc c.args w.arguments (concat (map (λ (v : WireToolCall). v.arguments) ws)))

whole_call-described_call :
    (ws : List WireToolCall) (rest : List ToolCall)
    → or_dropped (whole_call (assembled none ws)) rest ≡ described_call ws ++ rest
unfolding whole_call or_no_arguments merge_call
whole_call-described_call [] rest = refl
whole_call-described_call (w ∷ ws) rest =
    let start : PendingCall = record { id = ""; name = ""; args = "" } in
    let name = last_filled (map (λ (v : WireToolCall). v.name) (w ∷ ws)) "" in
    ap (λ c. or_dropped (whole_call c) rest) (assembled-some ws (merge_call w start))
    ∙ elim (Bool-cases (is_empty name)) [
      | inl e ↦ rw e refl
      | inr e ↦ rw (e, empty-<> w.arguments) refl
    ]

calls_at-described_calls :
    (ws : List WireToolCall) (is : List ℤ) → calls_at ws is ≡ described_calls ws is
unfolding calls_at
calls_at-described_calls ws [] = refl
calls_at-described_calls ws (i ∷ is) =
    ap (or_dropped (whole_call (assembled none (own i ws)))) (calls_at-described_calls ws is)
    ∙ whole_call-described_call (own i ws) (described_calls ws is)

-- Whatever the order in which fragments of several calls arrive: the calls that are given are those
-- of the indices of which some fragment has a name, in the order of their first fragments; each has
-- the last identifier and the last name of its own fragments that are not empty, and the pieces of
-- their arguments one behind the other, or an empty object if there are none.
pub whole_calls-accumulate_all :
    (ws : List WireToolCall)
    → (let s = accumulate_all ws ([], []) in whole_calls s.0 s.1) ≡ reply_calls ws
whole_calls-accumulate_all ws =
    accumulate_all-calls_at ws ∙ calls_at-described_calls ws (new_indices [] ws)

accumulate_all-append :
    (ws vs : List WireToolCall) (s : Pending × List ℤ)
    → accumulate_all (ws ++ vs) s ≡ accumulate_all vs (accumulate_all ws s)
unfolding accumulate_all
accumulate_all-append [] vs s = refl
accumulate_all-append (w ∷ ws) vs s = accumulate_all-append ws vs (accumulate w s)

-- The fragments of calls in a chunk, and in the frames of a reply.
abbrev pub chunk_fragments : Option WireResponse → List WireToolCall
chunk_fragments none = []
chunk_fragments (some w) = choice_calls (first_choice w.choices)

abbrev pub fragments : Library → List Event → List WireToolCall
fragments lib [] = []
fragments lib (ev ∷ evs) = chunk_fragments (chunk_of lib ev) ++ fragments lib evs

enter-fragments :
    (w : Option WireResponse) (l : Ledger)
    → (enter w l).calls ≡ accumulate_all (chunk_fragments w) l.calls
unfolding enter_choice accumulate_all
enter-fragments none l = refl
enter-fragments (some w) l = refl

-- The calls of a ledger are those of the fragments that were entered.
pub enter_all-fragments :
    (lib : Library) (evs : List Event) (l : Ledger)
    → (enter_all lib evs l).calls ≡ accumulate_all (fragments lib evs) l.calls
unfolding accumulate_all
enter_all-fragments lib [] l = refl
enter_all-fragments lib (ev ∷ evs) l =
    enter_all-fragments lib evs (enter (chunk_of lib ev) l)
    ∙ ap (accumulate_all (fragments lib evs)) (enter-fragments (chunk_of lib ev) l)
    ∙ sym (accumulate_all-append (chunk_fragments (chunk_of lib ev)) (fragments lib evs) l.calls)

-- ===== src/Sandbox/Tests.antt =====
-- The sandbox on small inputs, and witnesses of its properties.
use skyl.Prelude.{All, ◌≡◌, refl, [], ◌∷◌, codes}
use skyl.Sandbox.{join_words, is_space, fields, chunk}
use skyl.Sandbox.Chunks.{together, IsPiece, chunk-fields}

-- A run of spaces is one space in the deltas.
chunk_run :
    chunk (codes "The  capital is Kampala")
    ≡ codes "The " ∷ codes "capital" ∷ codes " " ∷ codes "is " ∷ codes "Kampala" ∷ []
unfolding chunk is_space
chunk_run = refl

chunk-fields_example :
    (together (chunk (codes "You said: hi")) ≡ join_words (fields (codes "You said: hi")))
    × All IsPiece (chunk (codes "You said: hi"))
chunk-fields_example = chunk-fields (codes "You said: hi")

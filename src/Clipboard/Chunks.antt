-- ===== src/Clipboard/Chunks.antt =====
-- `set_clipboard` and `set_clipboard_binary` of src/web/shared.rs: the pieces of a large clipboard.
use selkies_core.Prelude.{
  ℕ, zero, suc, ◌-◌, min, ◌≤◌, ◌<◌, ◌≡◌, refl, true, List, [], ◌∷◌, ◌++◌, map, some, Bytes, Text,
  codes, length, take, drop, All, show, ltb, lt→ltb, take-append-drop, length-drop, length-take,
  flatten, arith,
}
use selkies_core.Clipboard.{
  ClipboardReceiver, Services, Effect, chunks_fuel, chunks, in_pieces, text_messages, set_clipboard,
  binary_messages, set_clipboard_binary,
}

-- The messages for the pieces, between a start and an end.
abbrev pub pieces : Services → Text → ℕ → List Bytes → List Text
pieces sv mime total ps =
    (codes "clipboard_start," ++ mime ++ 44 ∷ show total)
      ∷ map (λ piece. codes "clipboard_data," ++ sv.encode piece) ps
    ++ codes "clipboard_finish" ∷ []

chunks_fuel-flatten :
    (fuel size : ℕ) (bytes : Bytes)
    → length bytes ≤ fuel
    → 0 < size
    → flatten (chunks_fuel fuel size bytes) ≡ bytes
unfolding chunks_fuel flatten
chunks_fuel-flatten zero size [] h p = refl
chunks_fuel-flatten zero size (x ∷ bytes) h p = absurd (omega arith)
chunks_fuel-flatten (suc fuel) size [] h p = refl
chunks_fuel-flatten (suc fuel) zero (x ∷ bytes) h p = elim p [ ]
chunks_fuel-flatten (suc fuel) (suc size) (x ∷ bytes) h p =
    let rest : length (drop (suc size) (x ∷ bytes)) ≡ length (x ∷ bytes) - suc size =
      length-drop (suc size) (x ∷ bytes) in
    rw (chunks_fuel-flatten fuel (suc size) (drop size bytes) (omega arith) p)
      (take-append-drop (suc size) (x ∷ bytes))

-- Put together, the pieces are the bytes.
pub chunks-flatten : (size : ℕ) (bytes : Bytes) → 0 < size → flatten (chunks size bytes) ≡ bytes
unfolding chunks
chunks-flatten size bytes p = chunks_fuel-flatten (length bytes) size bytes (omega arith) p

chunks_fuel-All :
    (fuel size : ℕ) (bytes : Bytes)
    → 0 < size
    → All (λ chunk. (0 < length chunk) × (length chunk ≤ size)) (chunks_fuel fuel size bytes)
unfolding chunks_fuel
chunks_fuel-All zero size bytes p = tt
chunks_fuel-All (suc fuel) size [] p = tt
chunks_fuel-All (suc fuel) zero (x ∷ bytes) p = elim p [ ]
chunks_fuel-All (suc fuel) (suc size) (x ∷ bytes) p =
    let taken : length (take (suc size) (x ∷ bytes)) ≡ min (suc size) (length (x ∷ bytes)) =
      length-take (suc size) (x ∷ bytes) in
    ((omega arith, omega arith), chunks_fuel-All fuel (suc size) (drop size bytes) p)

-- What a session gets for a clipboard of more than 8192 bytes, text or binary: a start that names
-- the type and the size, then messages that each carry the base64 of between 1 and 4096 bytes, then
-- an end; put together, the pieces `ps` are the clipboard. The codec is one that decodes what it
-- encodes.
pub set_clipboard-pieces :
    (sv : Services) (bytes : Bytes) (mime : Text) (s : ClipboardReceiver)
    → ((b : Bytes) → sv.decode (sv.encode b) ≡ some b)
    → 8192 < length bytes
    → (ps : List Bytes) × (flatten ps ≡ bytes)
      × All (λ piece. (0 < length piece) × (length piece ≤ 4096)) ps
      × ((set_clipboard sv (sv.encode bytes) s).effects
          ≡ s.effects ++ map Effect.send_text (pieces sv (codes "text/plain") (length bytes) ps))
      × ((set_clipboard_binary sv mime bytes s).effects
          ≡ s.effects ++ map Effect.send_text (pieces sv mime (length bytes) ps))
unfolding set_clipboard text_messages set_clipboard_binary binary_messages in_pieces chunks
set_clipboard-pieces sv bytes mime s inverse big =
    let large : ltb 8192 (length bytes) ≡ true = lt→ltb 8192 (length bytes) big in
    (
      chunks 4096 bytes,
      chunks-flatten 4096 bytes (omega arith),
      chunks_fuel-All (length bytes) 4096 bytes (omega arith),
      rw (text_messages, inverse bytes, large) refl,
      rw large refl,
    )

-- ===== src/Input/RoundTrip.antt =====
-- Messages of the protocol of src/webrtc/data_channel.rs, written and read back.
use selkies_core.Prelude.{
  ℕ, ◌≤◌, ◌≡◌, refl, ap, ◌∙◌, List, [], ◌∷◌, ◌++◌, Text, codes, same, split, join, join-split,
  split-cons, split-append, split-Free, Free, arith, ℤ, InRange, show, show_signed, show-Free,
  show_signed-Free, parse_signed-show, from_str_radix-show, ok,
}
use selkies_core.Input.{
  InputEvent, default, parse_m, parse_m2, parse_parts, parse_text, parse_input_text, on_parts,
  format_output_message,
}

parse_text-split :
    (kind : InputEvent) (message s : Text)
    → parse_text kind message (split b',' s) ≡ ok (record default { event_type = kind; text = s })
unfolding parse_text
parse_text-split kind message s =
    let (p, ps, e) = split-cons b',' s in
    let back : join b',' (p ∷ ps) ≡ s = rw (← e) (join-split b',' s) in rw (e, parse_text, back)

parse_input_text-tagged :
    (tag s : Text) (kind : InputEvent) (message : Text)
    → Free b',' tag
    → ((rest : List Text) → parse_parts tag rest ≡ parse_text kind message rest)
    → parse_input_text (tag ++ (b',' ∷ s)) ≡ ok (record default { event_type = kind; text = s })
unfolding parse_input_text
parse_input_text-tagged tag s kind message h arm =
    ap on_parts (split-append b',' tag s h) ∙ arm (split b',' s) ∙ parse_text-split kind message s

-- Text and clipboard messages carry their payload unchanged, whatever it holds, commas included.
pub parse_input_text-payload :
    (s : Text)
    → (parse_input_text (format_output_message (codes "t") s)
        ≡ ok (record default { event_type = InputEvent.text_input; text = s }))
      × (parse_input_text (format_output_message (codes "c") s)
          ≡ ok (record default { event_type = InputEvent.clipboard; text = s }))
unfolding format_output_message parse_parts same
parse_input_text-payload s = (
  parse_input_text-tagged (codes "t") s InputEvent.text_input (codes "Invalid text input format")
      (refl, tt) (λ rest. refl),
  parse_input_text-tagged (codes "c") s InputEvent.clipboard (codes "Invalid clipboard format")
      (refl, tt) (λ rest. refl),
)

-- The three parts of a move message.
abbrev pub move_message : Text → ℤ → ℤ → ℕ → Text
move_message tag x y mask =
    tag ++ (b',' ∷ (show_signed x ++ (b',' ∷ (show_signed y ++ (b',' ∷ show mask)))))

split-move_message :
    (tag : Text) (x y : ℤ) (mask : ℕ)
    → Free b',' tag
    → split b',' (move_message tag x y mask) ≡ tag ∷ show_signed x ∷ show_signed y ∷ show mask ∷ []
split-move_message tag x y mask h =
    split-append b',' tag _ h
    ∙ ap (◌∷◌ tag) (
        split-append b',' (show_signed x) _ (show_signed-Free b',' x (omega arith))
        ∙ ap (◌∷◌ (show_signed x)) (
            split-append b',' (show_signed y) _ (show_signed-Free b',' y (omega arith))
            ∙ ap (◌∷◌ (show_signed y))
                (split-Free b',' (show mask) (show-Free b',' mask (omega arith)))))

-- A mouse move written with any 32-bit coordinates and button mask is read back, as an absolute
-- move under the tag `m` and as a relative one under `m2`.
pub parse_input_text-move :
    (x y : ℤ) (mask : ℕ)
    → InRange 2147483647 x
    → InRange 2147483647 y
    → mask ≤ 4294967295
    → (parse_input_text (move_message (codes "m") x y mask)
        ≡ ok (record default { mouse_x = x; mouse_y = y; button_mask = mask }))
      × (parse_input_text (move_message (codes "m2") x y mask)
          ≡ ok (record default {
            mouse_x = x;
            mouse_y = y;
            button_mask = mask;
            text = codes "relative";
          }))
unfolding parse_input_text same parse_m parse_m2
parse_input_text-move x y mask hx hy hm =
    let px = parse_signed-show 2147483647 x hx in
    let py = parse_signed-show 2147483647 y hy in
    let pm = from_str_radix-show 4294967295 mask hm in
    (
      rw (split-move_message (codes "m") x y mask (refl, tt), px, py, pm),
      rw (split-move_message (codes "m2") x y mask (refl, (refl, tt)), px, py, pm),
    )

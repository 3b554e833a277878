-- ===== src/Mcp/Within.antt =====
-- src/mcp/mod.rs: where the tools send the mouse, and which calls they refuse.
use selkies_core.Prelude.{
  ℕ, ◌≡◌, ◌<◌, refl, Bool, true, false, Option, none, some, is_some, Text, All, Result, ok, err, ℤ,
  pos, negsuc, arith, leb, ◌↔◌, ◌⊎◌, inl, inr, Bool-cases, is_empty,
}
use selkies_core.Input.{InputEvent, InputEventData}
use selkies_core.Mcp.{
  McpState, Effect, is_off, as_i32, validate_coords, button_number, click, click_with, mouse_click,
  McpError, ToolResult, ◌>>=◌,
}

abbrev pub IsBelow : ℤ → ℕ → Type 0
IsBelow (pos x) w = x < w
IsBelow (negsuc n) w = ⊥

-- The point is on the display.
abbrev pub IsOn : ℤ → ℤ → ℕ × ℕ → Type 0
IsOn x y size = IsBelow x size.0 × IsBelow y size.1

-- The event is for the mouse, at the point.
abbrev pub EventAt : ℤ → ℤ → InputEvent → InputEventData → Type 0
EventAt x y InputEvent.mouse_move e = (e.mouse_x ≡ x) × (e.mouse_y ≡ y)
EventAt x y InputEvent.mouse_button e = (e.mouse_x ≡ x) × (e.mouse_y ≡ y)
EventAt x y _ e = ⊥

abbrev pub IsAt : ℤ → ℤ → Effect → Type 0
IsAt x y (Effect.input e) = EventAt x y e.event_type e
IsAt x y (Effect.clipboard_incoming t) = ⊥

abbrev pub is_ok {ℓ κ} : {E : Type ℓ} {A : Type κ} → Result E A → Bool
is_ok (ok a) = true
is_ok (err e) = false

pub Below-cases :
    (x : ℤ) (w : ℕ)
    → w < 2147483648
    → ((is_off x (as_i32 w) ≡ false) × IsBelow x w) ⊎ ((is_off x (as_i32 w) ≡ true) × ¬ IsBelow x w)
Below-cases (negsuc n) w h = inr (refl, λ b. b)
Below-cases (pos x) w h = elim (Bool-cases (leb w x)) [
  | inl e ↦ inr (ground arith, λ b. ground arith)
  | inr e ↦ inl (ground arith, ground arith)
]

On-cases :
    (x y : ℤ) (s : McpState)
    → s.display_size.0 < 2147483648
    → s.display_size.1 < 2147483648
    → ((validate_coords x y s ≡ ok tt) × IsOn x y s.display_size)
      ⊎ ((is_ok (validate_coords x y s) ≡ false) × ¬ IsOn x y s.display_size)
unfolding validate_coords
On-cases x y s w h = elim (Below-cases x s.display_size.0 w) [
  | inr (off, not_on) ↦ inr (rw off refl, λ on. not_on on.0)
  | inl (on, on_x) ↦ elim (Below-cases y s.display_size.1 h) [
    | inr (off, not_on) ↦ inr (rw (on, off) refl, λ both. not_on both.1)
    | inl (on', on_y) ↦ inl (rw (on, on') refl, (on_x, on_y))
  ]
]

-- All that a click sends, once it is valid.
click_with-IsAt :
    (name : Text) (x y : ℤ) (double : Bool) (b : Option ℕ)
    → (is_ok (click_with name x y double b).0 ≡ is_some b)
      × (is_empty (click_with name x y double b).1 ≡ false)
      × All (IsAt x y) (click_with name x y double b).1
unfolding click_with click
click_with-IsAt name x y double none = (refl, refl, ((refl, refl), tt))
click_with-IsAt name x y true (some b) =
    (refl, refl, ((refl, refl), ((refl, refl), ((refl, refl), ((refl, refl), ((refl, refl), tt))))))
click_with-IsAt name x y false (some b) =
    (refl, refl, ((refl, refl), ((refl, refl), ((refl, refl), tt))))

refused-IsAt {ℓ} :
    {A : Type ℓ} (x y : ℤ) (r : Result McpError A) (f : A → ToolResult)
    → is_ok r ≡ false
    → (is_ok (r >>= f).0 ≡ false) × (is_empty (r >>= f).1 ≡ true) × All (IsAt x y) (r >>= f).1
refused-IsAt x y (ok a) f h = cc
refused-IsAt x y (err e) f h = (refl, refl, tt)

-- A click succeeds exactly when the point is on the display and the button is known; it sends
-- anything at all exactly when the point is on the display, whether the button is known or not; and
-- all that it sends is for the mouse, at that point. Each side of the display is below 2 ^ 31.
pub mouse_click-IsOn :
    (button : Text) (x y : ℤ) (double : Bool) (s : McpState)
    → s.display_size.0 < 2147483648
    → s.display_size.1 < 2147483648
    → ((is_ok (mouse_click button x y double s).0 ≡ true)
        ↔ (IsOn x y s.display_size × (is_some (button_number button) ≡ true)))
      × ((is_empty (mouse_click button x y double s).1 ≡ false) ↔ IsOn x y s.display_size)
      × All (IsAt x y) (mouse_click button x y double s).1
unfolding mouse_click
mouse_click-IsOn button x y double s w h = elim (On-cases x y s w h) [
  | inl (valid, on) ↦ rw valid (
      let (answer, sent, at) = click_with-IsAt button x y double (button_number button) in
      (((λ e. (on, cc)), λ e. cc), ((λ e. on), λ e. sent), at))
  | inr (invalid, off) ↦
      (let (refused, nothing, at) =
          refused-IsAt x y (validate_coords x y s)
            (λ _. click_with button x y double (button_number button)) invalid in
        (((λ e. cc), λ e. absurd (off e.0)), ((λ e. cc), λ on. absurd (off on)), at))
]

-- ===== src/Input/Bounds.antt =====
-- The fields of a parsed event fit the integer types of src/input.rs.
use selkies_core.Prelude.{
  ℕ, ◌≤◌, ◌≡◌, ◌||◌, List, [], ◌∷◌, Option, some, none, Text, codes, split, starts_with, drop,
  arith, InRange, OnSome, from_str_radix-bound, parse_signed-InRange, parse_i32, parse_i16,
  parse_u8, parse_u32, parse_u64, from_str_radix, Result, ok, err, ◌>>=◌, Bool-cases, inl, inr,
  unwrap_or,
}
use selkies_core.Input.{
  InputEvent, InputEventData, Parsed, parsed, mask_of, parse_m, parse_m2, parse_b, parse_w, parse_k,
  parse_kd, parse_ku, parse_keysym, parse_p, parse_text, parse_parts, parse_input_text, on_parts,
}

pub record InBounds (e : InputEventData) : Type 0 where
  pub mouse_x_i32 : InRange 2147483647 e.mouse_x
  pub mouse_y_i32 : InRange 2147483647 e.mouse_y
  pub mouse_button_u8 : e.mouse_button ≤ 255
  pub wheel_delta_x_i16 : InRange 32767 e.wheel_delta_x
  pub wheel_delta_y_i16 : InRange 32767 e.wheel_delta_y
  pub keysym_u32 : e.keysym ≤ 4294967295
  pub button_mask_u32 : e.button_mask ≤ 4294967295
  pub timestamp_u64 : e.timestamp ≤ 18446744073709551615
  pub window_id_u32 : e.window_id ≤ 4294967295

abbrev OnOk {ℓ κ} : {E A : Type ℓ} → (A → Type κ) → Result E A → Type κ
OnOk P (ok a) = P a
OnOk P (err e) = Unit

bound_parsed :
    {A : Type 0} (P : A → Type 0) (o : Option A) (message : Text) (f : A → Parsed)
    → OnSome P o
    → ((a : A) → P a → OnOk InBounds (f a))
    → OnOk InBounds (parsed o message >>= f)
bound_parsed P none message f h k = tt
bound_parsed P (some a) message f h k = k a h

unwrap_or_le : (top : ℕ) (o : Option ℕ) → OnSome (λ n. n ≤ top) o → unwrap_or o 0 ≤ top
unwrap_or_le top none h = omega arith
unwrap_or_le top (some n) h = h

mask_of_le : (more : List Text) → mask_of more ≤ 4294967295
mask_of_le [] = omega arith
mask_of_le (m ∷ more) = unwrap_or_le 4294967295 (parse_u32 m) (from_str_radix-bound 10 4294967295 m)

parse_m-InBounds : (parts : List Text) → OnOk InBounds (parse_m parts)
unfolding parse_m
parse_m-InBounds (x ∷ y ∷ more) =
    bound_parsed (InRange 2147483647) (parse_i32 x) _ _ (parse_signed-InRange 2147483647 x) λ mx hx.
      bound_parsed (InRange 2147483647) (parse_i32 y) _ _ (parse_signed-InRange 2147483647 y)
        λ my hy. ground (arith, mask_of_le more)
parse_m-InBounds _ = tt

parse_m2-InBounds : (parts : List Text) → OnOk InBounds (parse_m2 parts)
unfolding parse_m2
parse_m2-InBounds (x ∷ y ∷ more) =
    bound_parsed (InRange 2147483647) (parse_i32 x) _ _ (parse_signed-InRange 2147483647 x) λ mx hx.
      bound_parsed (InRange 2147483647) (parse_i32 y) _ _ (parse_signed-InRange 2147483647 y)
        λ my hy. ground (arith, mask_of_le more)
parse_m2-InBounds _ = tt

parse_b-InBounds : (parts : List Text) → OnOk InBounds (parse_b parts)
unfolding parse_b
parse_b-InBounds (b ∷ p ∷ more) =
    bound_parsed (λ n. n ≤ 255) (parse_u8 b) _ _ (from_str_radix-bound 10 255 b) λ n h. ground arith
parse_b-InBounds _ = tt

parse_w-InBounds : (parts : List Text) → OnOk InBounds (parse_w parts)
unfolding parse_w
parse_w-InBounds (x ∷ y ∷ more) =
    bound_parsed (InRange 32767) (parse_i16 x) _ _ (parse_signed-InRange 32767 x) λ dx hx.
      bound_parsed (InRange 32767) (parse_i16 y) _ _ (parse_signed-InRange 32767 y)
        λ dy hy. ground arith
parse_w-InBounds _ = tt

bound_keysym :
    (s : Text) (f : ℕ → Parsed)
    → ((n : ℕ) → n ≤ 4294967295 → OnOk InBounds (f n))
    → OnOk InBounds (parse_keysym s >>= f)
unfolding parse_keysym
bound_keysym s f k = elim (Bool-cases (starts_with s (codes "0x") || starts_with s (codes "0X"))) [
  | inl hex ↦ rw hex (
      bound_parsed (λ n. n ≤ 4294967295) (from_str_radix 16 4294967295 (drop 2 s)) _ f
        (from_str_radix-bound 16 4294967295 (drop 2 s)) k)
  | inr decimal ↦ rw decimal (
      bound_parsed (λ n. n ≤ 4294967295) (parse_u32 s) _ f (from_str_radix-bound 10 4294967295 s) k)
]

parse_k-InBounds : (parts : List Text) → OnOk InBounds (parse_k parts)
unfolding parse_k
parse_k-InBounds (k ∷ p ∷ more) = bound_keysym k _ λ n h. ground arith
parse_k-InBounds _ = tt

parse_kd-InBounds : (parts : List Text) → OnOk InBounds (parse_kd parts)
unfolding parse_kd
parse_kd-InBounds (k ∷ more) = bound_keysym k _ λ n h. ground arith
parse_kd-InBounds _ = tt

parse_ku-InBounds : (parts : List Text) → OnOk InBounds (parse_ku parts)
unfolding parse_ku
parse_ku-InBounds (k ∷ more) = bound_keysym k _ λ n h. ground arith
parse_ku-InBounds _ = tt

parse_text-InBounds :
    (kind : InputEvent) (message : Text) (parts : List Text)
    → OnOk InBounds (parse_text kind message parts)
unfolding parse_text
parse_text-InBounds kind message [] = tt
parse_text-InBounds kind message (p ∷ ps) = ground arith

parse_p-InBounds : (parts : List Text) → OnOk InBounds (parse_p parts)
unfolding parse_p
parse_p-InBounds [] = ground arith
parse_p-InBounds (t ∷ more) = ground (
  arith,
  unwrap_or_le 18446744073709551615 (parse_u64 t) (from_str_radix-bound 10 18446744073709551615 t),
)

parse_parts-InBounds : (tag : Text) (rest : List Text) → OnOk InBounds (parse_parts tag rest)
unfolding parse_parts
parse_parts-InBounds tag rest = ground (
  arith,
  parse_m-InBounds rest,
  parse_m2-InBounds rest,
  parse_b-InBounds rest,
  parse_w-InBounds rest,
  parse_k-InBounds rest,
  parse_kd-InBounds rest,
  parse_ku-InBounds rest,
  parse_text-InBounds InputEvent.text_input (codes "Invalid text input format") rest,
  parse_text-InBounds InputEvent.clipboard (codes "Invalid clipboard format") rest,
  parse_p-InBounds rest,
)

on_parts-InBounds : (parts : List Text) → OnOk InBounds (on_parts parts)
on_parts-InBounds [] = tt
on_parts-InBounds (tag ∷ rest) = parse_parts-InBounds tag rest

-- Whatever text is parsed, every number of the event fits the type of its field.
pub parse_input_text-InBounds :
    (text : Text) {e : InputEventData} → parse_input_text text ≡ ok e → InBounds e
unfolding parse_input_text
parse_input_text-InBounds text h = rw h at (on_parts-InBounds (split b',' text))

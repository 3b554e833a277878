-- ===== src/Tests/Tools.antt =====
-- The tools of the MCP server at calls.
use selkies_core.Prelude.{
  ◌≡◌, true, false, List, [], ◌∷◌, ◌++◌, some, none, is_some, is_empty, codes, All, if◌then◌else◌,
  pos, arith, ◌↔◌,
}
use selkies_core.Mcp.{
  Codecs, McpState, button_number, mouse_click, keyboard_type, keyboard_type_multiline,
}
use selkies_core.Mcp.Calls.{Call, run_calls}
use selkies_core.Mcp.Released.{Held, follow_all, run_calls-follow}
use selkies_core.Mcp.Typed.{hear_all, ended, hear_all-typed}
use selkies_core.Mcp.Within.{IsOn, IsAt, is_ok, mouse_click-IsOn}

abbrev plain_codecs : Codecs
plain_codecs = record {
  encode = λ t. t;
  decode = λ t. some t;
  from_utf8_lossy = λ b. b;
  to_lowercase = λ t. t;
}

abbrev screen : McpState
screen = record { display_size = (1280, 720); clipboard = none; last_taskbar_json = none }

abbrev calls : List (Call × McpState)
calls =
    (Call.keyboard_key (codes "ctrl+shift+t"), screen)
    ∷ (Call.mouse_click (codes "side") (pos 3) (pos 4) true, screen)
    ∷ (Call.mouse_click (codes "left") (pos 3) (pos 4) true, screen)
    ∷ (Call.keyboard_type (codes "Hi!") true, screen)
    ∷ []

run_calls-follow_example :
    follow_all (run_calls plain_codecs calls) (Held.button 2 ∷ []) ≡ some (Held.button 2 ∷ [])
run_calls-follow_example = run_calls-follow plain_codecs calls (Held.button 2 ∷ [])

hear_all-typed_example :
    (hear_all (keyboard_type (codes "Hi!") true).1 (false, codes "> ")
      ≡ (false, codes "> " ++ (codes "Hi!" ++ (if true then 10 ∷ [] else []))))
    × (hear_all (keyboard_type_multiline (codes "a" ∷ codes "~B" ∷ [])).1 (false, codes "> ")
        ≡ (false, codes "> " ++ ended (codes "a" ∷ codes "~B" ∷ [])))
hear_all-typed_example =
    hear_all-typed (codes "Hi!") true (codes "a" ∷ codes "~B" ∷ []) (codes "> ")

mouse_click-IsOn_example :
    ((is_ok (mouse_click (codes "side") (pos 3) (pos 4) true screen).0 ≡ true)
      ↔ (IsOn (pos 3) (pos 4) (1280, 720) × (is_some (button_number (codes "side")) ≡ true)))
    × ((is_empty (mouse_click (codes "side") (pos 3) (pos 4) true screen).1 ≡ false)
        ↔ IsOn (pos 3) (pos 4) (1280, 720))
    × All (IsAt (pos 3) (pos 4)) (mouse_click (codes "side") (pos 3) (pos 4) true screen).1
mouse_click-IsOn_example =
    mouse_click-IsOn (codes "side") (pos 3) (pos 4) true screen (omega arith) (omega arith)

-- ===== src/Mcp/Calls.antt =====
-- src/mcp/mod.rs: a call of a tool, as `ToolRouter` hands it on, and a run of them.
use selkies_core.Prelude.{ℕ, Bool, List, [], ◌∷◌, ◌++◌, Text, ℤ}
use selkies_core.Mcp.{Codecs, McpState, Effect, ToolResult}
use selkies_core.Mcp

-- A tool's name with its parameters.
pub data Call : Type 0 where
  mouse_move : ℤ → ℤ → Call
  mouse_click : Text → ℤ → ℤ → Bool → Call
  mouse_scroll : ℤ → ℤ → Call
  keyboard_type : Text → Bool → Call
  keyboard_type_multiline : List Text → Call
  keyboard_key : Text → Call
  clipboard_read list_windows : Call
  clipboard_write : Text → Call
  window_focus window_close : ℕ → Call

unfoldable pub call_tool : Codecs → Call → McpState → ToolResult
call_tool k (Call.mouse_move x y) s = Mcp.mouse_move x y s
call_tool k (Call.mouse_click button x y double) s = Mcp.mouse_click button x y double s
call_tool k (Call.mouse_scroll dx dy) s = Mcp.mouse_scroll dx dy
call_tool k (Call.keyboard_type text enter) s = Mcp.keyboard_type text enter
call_tool k (Call.keyboard_type_multiline lines) s = Mcp.keyboard_type_multiline lines
call_tool k (Call.keyboard_key key) s = Mcp.keyboard_key k key
call_tool k Call.clipboard_read s = Mcp.clipboard_read k s
call_tool k Call.list_windows s = Mcp.list_windows s
call_tool k (Call.clipboard_write text) s = Mcp.clipboard_write k text
call_tool k (Call.window_focus id) s = Mcp.window_focus id
call_tool k (Call.window_close id) s = Mcp.window_close id

-- What a run of calls sends, each with the state it finds.
unfoldable pub run_calls : Codecs → List (Call × McpState) → List Effect
run_calls k [] = []
run_calls k ((c, s) ∷ calls) = (call_tool k c s).1 ++ run_calls k calls

-- ===== src/Events/Wire.antt =====
-- apps/control-plane/src/events/sse-stream.ts: the frames of the event stream and its cursor.
pub mod Cursor
use matrix_agent_workspace.Prelude.{
  ℕ, ◌-◌, ◌^◌, String, Bool, Option, none, some, List, [], ◌∷◌, ◌++◌, leb, if◌then◌else◌,
}
use matrix_agent_workspace.Texts.{Chars, codes, print_from, print, is_decimal, scan, number, trim}
use matrix_agent_workspace.Events.Service.{RunEventJson}

abbrev pub heartbeat_frame : Chars
heartbeat_frame = codes ": heartbeat\n\n"

-- `stringify` is `JSON.stringify` of the event.
unfoldable pub encode_event_frame : (RunEventJson → Chars) → RunEventJson → Chars
unfolding print
encode_event_frame stringify event =
    codes "id: "
    ++ print event.sequence
    ++ codes "\nevent: "
    ++ codes event.type'
    ++ codes "\ndata: "
    ++ stringify event
    ++ codes "\n\n"

-- `Number.isSafeInteger(value) && value >= 0 ? value : 0`.
abbrev safe_or_zero : ℕ → ℕ
safe_or_zero value = if leb value (2 ^ 53 - 1) then value else 0

unfoldable pub parse_after_value : Option Chars → ℕ
unfolding number trim
parse_after_value none = 0
parse_after_value (some raw) =
    let trimmed = trim raw in if is_decimal trimmed then safe_or_zero (number trimmed) else 0

-- ===== src/Mobile/SseFrames.antt =====
-- apps/mobile/src/api/run-events.ts: the frames of an event stream, cut out of its text and read.
pub mod Cuts
pub mod RoundTrip
use matrix_agent_workspace.Prelude.{
  ℕ, zero, suc, ◌-◌, ◌^◌, String, Bool, true, false, Option, none, some, List, [], ◌∷◌, ◌++◌, not,
  ◌&&◌, ◌||◌, ◌==◌, leb, nat_eq, any, if◌then◌else◌, length,
}
use matrix_agent_workspace.Json.{Json, str, num, obj, Fields, get}
use matrix_agent_workspace.Texts.{Chars, codes, chars_eq, is_empty, is_decimal, scan, number, trim}

pub record SseFrame : Type 0 where
  pub id : Option Chars
  pub event : Option Chars
  pub data' : Chars

-- `rawFrame.split(/\r?\n/)`.
abbrev pub onto_first : ℕ → List Chars → List Chars
onto_first c [] = (c ∷ []) ∷ []
onto_first c (line ∷ lines) = (c ∷ line) ∷ lines

abbrev pub starts_with_newline : Chars → Bool
starts_with_newline [] = false
starts_with_newline (c ∷ s) = nat_eq c b'\n'

-- A carriage return before a newline belongs to the line end.
unfoldable pub split_lines : Chars → List Chars
split_lines [] = [] ∷ []
split_lines (c ∷ s) =
    let rest = split_lines s in
    if nat_eq c b'\n'
    then [] ∷ rest
    else if nat_eq c b'\r' && starts_with_newline s
    then rest
    else onto_first c rest

-- The line before its first colon, and what follows it (empty where there is none).
unfoldable pub field_name : Chars → Chars
field_name [] = []
field_name (c ∷ s) = let rest = field_name s in if nat_eq c b':' then [] else c ∷ rest

unfoldable pub after_colon : Chars → Chars
after_colon [] = []
after_colon (c ∷ s) = let rest = after_colon s in if nat_eq c b':' then s else rest

-- `if (value.startsWith(' ')) value = value.slice(1)`.
abbrev pub without_space : Chars → Chars
without_space [] = []
without_space (c ∷ s) = if nat_eq c b' ' then s else c ∷ s

-- What the lines so far have given.
pub record Draft : Type 0 where
  pub id : Option Chars
  pub event : Option Chars
  pub data' : List Chars

abbrev pub with_field : Chars → Chars → Draft → Draft
with_field field value draft =
    if chars_eq field (codes "id") && not (any (nat_eq 0) value)
    then record draft { id = some value }
    else if chars_eq field (codes "event")
    then record draft { event = some value }
    else if chars_eq field (codes "data")
    then record draft { data' = draft.data' ++ value ∷ [] }
    else draft

abbrev pub starts_with_colon : Chars → Bool
starts_with_colon [] = false
starts_with_colon (c ∷ s) = nat_eq c b':'

unfoldable pub read_line : Chars → Draft → Draft
unfolding field_name after_colon
read_line line draft =
    if is_empty line || starts_with_colon line
    then draft
    else with_field (field_name line) (without_space (after_colon line)) draft

abbrev pub read_lines : List Chars → Draft → Draft
read_lines [] draft = draft
read_lines (line ∷ lines) draft = read_lines lines (read_line line draft)

-- `data.join('\n')`.
abbrev pub join_lines : List Chars → Chars
join_lines [] = []
join_lines (line ∷ []) = line
join_lines (line ∷ next ∷ lines) = line ++ b'\n' ∷ join_lines (next ∷ lines)

abbrev pub finish : Draft → Option SseFrame
finish draft = finish_data draft.data'
  where
    finish_data : List Chars → Option SseFrame
    finish_data [] = none
    finish_data (line ∷ lines) =
        some (record { id = draft.id; event = draft.event; data' = join_lines (line ∷ lines) })

unfoldable pub parse_sse_frame : Chars → Option SseFrame
unfolding split_lines read_line
parse_sse_frame raw =
    finish (read_lines (split_lines raw) (record { id = none; event = none; data' = [] }))

abbrev max_safe_integer : ℕ
max_safe_integer = 2 ^ 53 - 1

abbrev pub is_str : Chars → Option Json → Bool
is_str s (some (str t)) = chars_eq s (codes t)
is_str s _ = false

abbrev pub is_num : ℕ → Option Json → Bool
is_num n (some (num k)) = leb k max_safe_integer && nat_eq k n
is_num n _ = false

-- The object, if it is the announced event of the expected run.
abbrev pub event_from_object : ℕ → Option Chars → String → Option Json → Option Json
event_from_object sequence (some type') run_id (some (obj fields)) =
    if is_str (codes run_id) (get "runId" fields)
      && is_num sequence (get "sequence" fields)
      && is_str type' (get "type" fields)
    then some (obj fields)
    else none
event_from_object _ _ _ _ = none

-- `parse` is `JSON.parse`, none where it throws. The identifier of the frame comes first.
abbrev pub event_from_id : (Chars → Option Json) → Option Chars → SseFrame → String → Option Json
event_from_id parse none frame run_id = none
event_from_id parse (some id) frame run_id =
    if is_decimal id && leb (number id) max_safe_integer
    then event_from_object (number id) frame.event run_id (parse frame.data')
    else none

unfoldable pub event_from_frame : (Chars → Option Json) → SseFrame → String → Option Json
unfolding number scan
event_from_frame parse frame run_id = event_from_id parse frame.id frame run_id

-- What `consumeFrame` reads from a frame.
abbrev pub candidate_of : (Chars → Option Json) → String → Option SseFrame → Option Json
candidate_of parse run_id none = none
candidate_of parse run_id (some frame) = event_from_frame parse frame run_id

-- `text.replace(/\r\n/g, '\n')`.
unfoldable pub replace_crlf : Chars → Chars
replace_crlf [] = []
replace_crlf (c ∷ s) =
    let rest = replace_crlf s in if nat_eq c b'\r' && starts_with_newline s then rest else c ∷ rest

-- The buffer before its first empty line and after it, found by `indexOf('\n\n')`.
abbrev pub with_char : ℕ → Option (Chars × Chars) → Option (Chars × Chars)
with_char c none = none
with_char c (some (before, after)) = some (c ∷ before, after)

abbrev pub rest_of : Chars → Chars
rest_of [] = []
rest_of (c ∷ s) = s

unfoldable pub cut : Chars → Option (Chars × Chars)
cut [] = none
cut (c ∷ s) =
    let rest = cut s in
    if nat_eq c b'\n' && starts_with_newline s then some ([], rest_of s) else with_char c rest

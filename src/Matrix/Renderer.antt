-- ===== src/Matrix/Renderer.antt =====
-- apps/control-plane/src/matrix/message-renderer.ts: the text of an event in the room.
use Prim.Native.String.{◌++◌}
use matrix_agent_workspace.Prelude.{
  ℕ, suc, String, Bool, true, false, Option, some, List, [], ◌∷◌, ◌==◌, if◌then◌else◌, ltb, ◌||◌,
}
use matrix_agent_workspace.Json.{Json, Items, Fields, str, arr, nil, cons, get}
use matrix_agent_workspace.Security.{InlinePattern, redact_text, redact, redact_fields}

pub record RenderableEvent : Type 0 where
  pub run_id : String
  pub sequence : ℕ
  pub type' : String
  pub payload : Fields

abbrev pub is_terminal_event_type : String → Bool
is_terminal_event_type t =
    t == "run.completed" || (t == "run.failed" || (t == "run.partial" || t == "run.cancelled"))

-- `TERMINAL_LABELS[terminalStatusOf(type) ?? 'completed']`.
abbrev pub terminal_label : String → String
terminal_label type' =
    if type' == "run.failed"
    then "Run failed"
    else if type' == "run.partial"
    then "Run partially completed"
    else if type' == "run.cancelled"
    then "Run cancelled"
    else "Run completed"

abbrev pub text_or_empty : Option Json → String
text_or_empty (some (str s)) = s
text_or_empty _ = ""

abbrev pub is_text : Option Json → Bool
is_text (some (str s)) = true
is_text _ = false

abbrev pub count_items : Items → ℕ
count_items nil = 0
count_items (cons j items) = suc (count_items items)

abbrev pub count_of : Option Json → ℕ
count_of (some (arr items)) = count_items items
count_of _ = 0

-- `replace` and `lower` are as in the redaction, and `show` is the decimal text of a number.
module _ (replace : InlinePattern → String → String) (lower : String → String)
    (show : ℕ → String) where
  abbrev pub summarize_payload : Fields → String
  summarize_payload payload =
      let safe = redact_fields replace lower payload in
      if is_text (get "summary" safe)
      then text_or_empty (get "summary" safe)
      else text_or_empty (get "specialistId" safe)

  -- `parts.join(', ')`.
  abbrev pub join_parts : List String → String
  join_parts [] = ""
  join_parts (part ∷ []) = part
  join_parts (part ∷ next ∷ parts) = part ++ (", " ++ join_parts (next ∷ parts))

  abbrev pub counted : ℕ → String → List String → List String
  counted n what parts = if ltb 0 n then (show n ++ what) ∷ parts else parts

  abbrev pub coded : String → List String
  coded code = if code == "" then [] else ("code=" ++ code) ∷ []

  -- The code is read from the payload as it is.
  abbrev pub summarize_terminal : Fields → String
  summarize_terminal payload =
      let safe = redact_fields replace lower payload in
      join_parts (
        counted (count_of (get "completedSpecialists" safe)) " completed" (
          counted (count_of (get "failedSpecialists" safe)) " failed"
            (coded (text_or_empty (get "code" payload)))))

  abbrev pub render_terminal_message : RenderableEvent → String
  render_terminal_message event =
      let details = summarize_terminal event.payload in
      terminal_label event.type'
      ++ (" — run " ++ (event.run_id ++ (if details == "" then "" else " (" ++ (details ++ ")"))))

  abbrev pub render_progress_message : RenderableEvent → String
  render_progress_message event =
      let summary = summarize_payload event.payload in
      "Run "
      ++ (event.run_id
          ++ (" "
              ++ (event.type'
                  ++ (if summary == "" then "" else " — " ++ redact_text replace summary))))

  unfoldable pub render_message : RenderableEvent → String
  unfolding redact
  render_message event =
      if is_terminal_event_type event.type'
      then render_terminal_message event
      else render_progress_message event

-- ===== src/Security/Tests.antt =====
-- The redaction of a payload.
use matrix_agent_workspace.Prelude.{String, none, some, [], ◌∷◌, ◌==◌, if◌then◌else◌, ◌≡◌, refl}
use matrix_agent_workspace.Json.{Json, str, arr, obj, nil, cons, end, field}
use matrix_agent_workspace.Security.{InlinePattern, bearer, redact}
use matrix_agent_workspace.Security.Scrubbed.{value_at, redact-Scrubbed}

-- No text matches a pattern, and all keys are in lower case.
abbrev keep_text : InlinePattern → String → String
keep_text p s = s

abbrev same : String → String
same s = s

abbrev payload : Json
payload = obj (field "code" (str "abc") (field "note" (arr (cons (str "hello") nil)) end))

-- The first pattern matches the second text as a whole.
abbrev mask_hello : InlinePattern → String → String
mask_hello bearer s = if s == "hello" then "[REDACTED]" else s
mask_hello _ s = s

redact-Scrubbed_example :
    value_at (1 ∷ 0 ∷ []) (none, redact mask_hello same none payload)
    ≡ some (none, str "[REDACTED]")
redact-Scrubbed_example = redact-Scrubbed mask_hello same (1 ∷ 0 ∷ []) none payload

-- A text in a list under a sensitive key is not under the key any more.
list_escapes :
    redact keep_text same (some "token") (arr (cons (str "abc") nil)) ≡ arr (cons (str "abc") nil)
unfolding redact
list_escapes = refl

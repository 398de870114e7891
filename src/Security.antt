-- ===== src/Security.antt =====
-- apps/control-plane/src/security/redaction.ts: secrets are taken out of texts and values.
pub mod Scrubbed
mod Tests
use matrix_agent_workspace.Prelude.{
  String, Bool, true, false, Option, none, some, List, [], ◌∷◌, any, ◌==◌, if◌then◌else◌,
}
use matrix_agent_workspace.Json.{
  Json, Items, Fields, null, bool, num, other_num, str, arr, obj, nil, cons, end, field,
}

abbrev pub redacted : String
redacted = "[REDACTED]"

abbrev pub sensitive_keys : List String
sensitive_keys =
    "authorization" ∷ "accesstoken" ∷ "refreshtoken" ∷ "token" ∷ "apikey" ∷ "secret"
    ∷ "clientsecret" ∷ "password" ∷ "privatekey" ∷ "code" ∷ "oauthcode" ∷ "session" ∷ "cookie"
    ∷ "set-cookie" ∷ "setcookie" ∷ "matrixtoken" ∷ "matrixaccesstoken" ∷ "githubtoken"
    ∷ "providertoken" ∷ "x-api-key" ∷ "xapikey" ∷ "credential" ∷ "credentials" ∷ []

-- The regular expressions, in the order in which they are applied.
pub data InlinePattern : Type 0 where
  bearer basic synapse_token github_token anthropic_key openai_key : InlinePattern
  google_key slack_token aws_key private_key : InlinePattern

abbrev pub inline_patterns : List InlinePattern
inline_patterns =
    bearer ∷ basic ∷ synapse_token ∷ github_token ∷ anthropic_key ∷ openai_key ∷ google_key
    ∷ slack_token ∷ aws_key ∷ private_key ∷ []

-- `replace` is `text.replace(pattern, REDACTED)`, and `lower` is `toLowerCase`.
module _ (replace : InlinePattern → String → String) where
  abbrev pub replace_all : List InlinePattern → String → String
  replace_all [] out = out
  replace_all (pattern' ∷ patterns) out = replace_all patterns (replace pattern' out)

  abbrev pub redact_text : String → String
  redact_text text = replace_all inline_patterns text

module _ (replace : InlinePattern → String → String) (lower : String → String) where
  -- `key && SENSITIVE_KEYS.has(key.toLowerCase())`; the empty key is no key.
  abbrev pub is_sensitive : Option String → Bool
  is_sensitive none = false
  is_sensitive (some key) = if key == "" then false else any (λ k. k == lower key) sensitive_keys

  unfoldable mutual
    pub redact : Option String → Json → Json
    redact key null = null
    redact key (bool b) = bool b
    redact key (num n) = num n
    redact key other_num = other_num
    redact key (str s) = str (if is_sensitive key then redacted else redact_text replace s)
    redact key (arr items) = arr (redact_items items)
    redact key (obj fields) = obj (redact_fields fields)

    pub redact_items : Items → Items
    redact_items nil = nil
    redact_items (cons j items) = cons (redact none j) (redact_items items)

    pub redact_fields : Fields → Fields
    redact_fields end = end
    redact_fields (field key j fields) = field key (redact (some key) j) (redact_fields fields)

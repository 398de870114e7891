-- ===== src/Security/Scrubbed.antt =====
-- apps/control-plane/src/security/redaction.ts: what redaction makes of every text of a value.
use matrix_agent_workspace.Prelude.{
  ℕ, zero, suc, String, Bool, false, not, Option, none, some, List, [], ◌∷◌, any, ◌==◌, ◌&&◌, ◌≡◌,
  refl, Bool-cases, inl, inr, if◌then◌else◌,
}
use matrix_agent_workspace.Json.{
  Json, Items, Fields, null, bool, num, other_num, str, arr, obj, nil, cons, end, field,
}
use matrix_agent_workspace.Security.{
  InlinePattern, bearer, basic, synapse_token, github_token, anthropic_key, openai_key, google_key,
  slack_token, aws_key, private_key, is_sensitive, redact, redact_items, redact_fields,
}

-- A value with the key that it stands under, if it stands directly in an object.
abbrev pub Keyed : Type 0
Keyed = Option String × Json

abbrev item_at : ℕ → Items → Option Keyed
item_at n nil = none
item_at zero (cons j items) = some (none, j)
item_at (suc n) (cons j items) = item_at n items

abbrev field_at : ℕ → Fields → Option Keyed
field_at n end = none
field_at zero (field key j fields) = some (some key, j)
field_at (suc n) (field key j fields) = field_at n fields

abbrev child : ℕ → Json → Option Keyed
child n (arr items) = item_at n items
child n (obj fields) = field_at n fields
child n _ = none

abbrev descend : (Keyed → Option Keyed) → Option Keyed → Option Keyed
descend go none = none
descend go (some v) = go v

-- The value at the end of a path of positions.
abbrev pub value_at : List ℕ → Keyed → Option Keyed
value_at [] v = some v
value_at (n ∷ ns) v = descend (value_at ns) (child n v.1)

-- The names of secrets, in lower case.
abbrev secret_names : List String
secret_names =
    "authorization" ∷ "accesstoken" ∷ "refreshtoken" ∷ "token" ∷ "apikey" ∷ "secret"
    ∷ "clientsecret" ∷ "password" ∷ "privatekey" ∷ "code" ∷ "oauthcode" ∷ "session" ∷ "cookie"
    ∷ "set-cookie" ∷ "setcookie" ∷ "matrixtoken" ∷ "matrixaccesstoken" ∷ "githubtoken"
    ∷ "providertoken" ∷ "x-api-key" ∷ "xapikey" ∷ "credential" ∷ "credentials" ∷ []

module _ (replace : InlinePattern → String → String) (lower : String → String) where
  abbrev names_secret : Option String → Bool
  names_secret none = false
  names_secret (some key) = not (key == "") && any (λ name. name == lower key) secret_names

  -- The text without what matches a pattern: authorization headers first, then tokens, then keys.
  abbrev without_secrets : String → String
  without_secrets s =
      let headers = replace basic (replace bearer s) in
      let tokens = replace github_token (replace synapse_token headers) in
      let model_keys = replace openai_key (replace anthropic_key tokens) in
      replace private_key (replace aws_key (replace slack_token (replace google_key model_keys)))

  abbrev pub scrubbed_text : Option String → String → String
  scrubbed_text key s = if names_secret key then "[REDACTED]" else without_secrets s

  -- What stands where a value stood: a text is scrubbed, a list stays a list and an object an
  -- object, anything else stays as it is, and nothing comes in where there was nothing.
  abbrev pub Scrubbed : Option Keyed → Option Keyed → Type 0
  Scrubbed none after = after ≡ none
  Scrubbed (some (key, str s)) after = after ≡ some (key, str (scrubbed_text key s))
  Scrubbed (some (key, arr items)) after = (items' : Items) × (after ≡ some (key, arr items'))
  Scrubbed (some (key, obj fields)) after = (fields' : Fields) × (after ≡ some (key, obj fields'))
  Scrubbed (some (key, j)) after = after ≡ some (key, j)

  abbrev redact_keyed : Keyed → Keyed
  redact_keyed (key, j) = (key, redact replace lower key j)

  abbrev redact_found : Option Keyed → Option Keyed
  redact_found none = none
  redact_found (some v) = some (redact_keyed v)

  item_at-redact :
      (n : ℕ) (items : Items)
      → item_at n (redact_items replace lower items) ≡ redact_found (item_at n items)
  unfolding redact
  item_at-redact n nil = refl
  item_at-redact zero (cons j items) = refl
  item_at-redact (suc n) (cons j items) = item_at-redact n items

  field_at-redact :
      (n : ℕ) (fields : Fields)
      → field_at n (redact_fields replace lower fields) ≡ redact_found (field_at n fields)
  unfolding redact
  field_at-redact n end = refl
  field_at-redact zero (field key j fields) = refl
  field_at-redact (suc n) (field key j fields) = field_at-redact n fields

  child-redact :
      (n : ℕ) (key : Option String) (j : Json)
      → child n (redact replace lower key j) ≡ redact_found (child n j)
  unfolding redact
  child-redact n key null = refl
  child-redact n key (bool b) = refl
  child-redact n key (num m) = refl
  child-redact n key other_num = refl
  child-redact n key (str s) = refl
  child-redact n key (arr items) = item_at-redact n items
  child-redact n key (obj fields) = field_at-redact n fields

  sensitive_as_named : (key : Option String) → is_sensitive replace lower key ≡ names_secret key
  sensitive_as_named none = refl
  sensitive_as_named (some key) = elim (Bool-cases (key == "")) [
    | inl empty ↦ rw empty refl
    | inr named ↦ rw named refl
  ]

  here-Scrubbed : (v : Keyed) → Scrubbed (some v) (some (redact_keyed v))
  unfolding redact
  here-Scrubbed (key, null) = refl
  here-Scrubbed (key, bool b) = refl
  here-Scrubbed (key, num n) = refl
  here-Scrubbed (key, other_num) = refl
  here-Scrubbed (key, str s) = rw (sensitive_as_named key) refl
  here-Scrubbed (key, arr items) = (_, refl)
  here-Scrubbed (key, obj fields) = (_, refl)

  at-Scrubbed :
      (path : List ℕ) (v : Keyed) → Scrubbed (value_at path v) (value_at path (redact_keyed v))
  at-Scrubbed [] v = here-Scrubbed v
  at-Scrubbed (n ∷ ns) (key, j) = rw (child-redact n key j) (go (child n j) (at-Scrubbed ns))
    where
      go :
          (c : Option Keyed)
          → ((v : Keyed) → Scrubbed (value_at ns v) (value_at ns (redact_keyed v)))
          → Scrubbed (descend (value_at ns) c) (descend (value_at ns) (redact_found c))
      go none ih = refl
      go (some v) ih = ih v

  -- The value at any path of a redacted value: a text that stands directly under a key whose lower
  -- case names a secret is the mark; any other text has gone through the ten patterns in their order;
  -- a list stays a list, an object an object, anything else as it is, and nothing new comes in.
  pub redact-Scrubbed :
      (path : List ℕ) (key : Option String) (j : Json)
      → Scrubbed (value_at path (key, j)) (value_at path (key, redact replace lower key j))
  redact-Scrubbed path key j = at-Scrubbed path (key, j)

-- ===== src/Agents/Injection.antt =====
-- apps/control-plane/src/agents/prompt-envelope.ts: the prompt-injection detector and its policy.
pub mod Policy
use matrix_agent_workspace.Prelude.{
  ℕ, suc, String, Bool, Option, none, some, List, [], ◌∷◌, map, any, nat_eq, if◌then◌else◌,
}

pub data UntrustedSourceKind : Type 0 where
  matrix_message github_repository github_issue github_pull_request : UntrustedSourceKind
  web retrieved specialist_output : UntrustedSourceKind

pub record UntrustedSpan : Type 0 where
  pub source : UntrustedSourceKind
  pub source_id : String
  pub text : String

pub data PromptInjectionMode : Type 0 where
  exclude_span fail_run : PromptInjectionMode

-- The names of `INJECTION_PATTERNS`. Their regular expressions are run by the JavaScript engine, so
-- `pattern.test(text)` is the parameter `test`.
pub data InjectionPattern : Type 0 where
  instruction_override policy_override tool_or_write_grant role_change : InjectionPattern

abbrev pub injection_patterns : List InjectionPattern
injection_patterns = instruction_override ∷ policy_override ∷ tool_or_write_grant ∷ role_change ∷ []

pub record InjectionFinding : Type 0 where
  pub span_index : ℕ
  pub source : UntrustedSourceKind
  pub source_id : String
  pub matched_pattern : InjectionPattern

pub record AppliedInjectionPolicy : Type 0 where
  pub findings : List InjectionFinding
  pub kept_untrusted : List UntrustedSpan
  pub excluded_span_sources : List (UntrustedSourceKind × String)

-- The policy, or `PromptInjectionDetectedError` with its findings.
pub data PolicyResult : Type 0 where
  applied : AppliedInjectionPolicy → PolicyResult
  detected : List InjectionFinding → PolicyResult

abbrev pub is_excluded : List InjectionFinding → ℕ → Bool
is_excluded findings index = any (λ f. nat_eq f.span_index index) findings

-- `untrusted.filter((_, index) => !excluded.has(index))`, from `index` on.
pub drop_excluded : List InjectionFinding → ℕ → List UntrustedSpan → List UntrustedSpan
drop_excluded findings index [] = []
drop_excluded findings index (span ∷ spans) =
    let rest = drop_excluded findings (suc index) spans in
    if is_excluded findings index then rest else span ∷ rest

abbrev pub span_source : InjectionFinding → UntrustedSourceKind × String
span_source f = (f.source, f.source_id)

module _ (test : InjectionPattern → String → Bool) where
  -- The first pattern that a text matches.
  pub first_match : List InjectionPattern → String → Option InjectionPattern
  first_match [] text = none
  first_match (p ∷ ps) text = let rest = first_match ps text in if test p text then some p else rest

  abbrev pub finding : ℕ → UntrustedSpan → InjectionPattern → InjectionFinding
  finding index span pattern_name = record {
    span_index = index;
    source = span.source;
    source_id = span.source_id;
    matched_pattern = pattern_name;
  }

  -- One finding per span is enough.
  abbrev pub with_finding :
      ℕ → UntrustedSpan → Option InjectionPattern → List InjectionFinding → List InjectionFinding
  with_finding index span none rest = rest
  with_finding index span (some p) rest = finding index span p ∷ rest

  -- The loop of `detectPromptInjection`, from span `index` on.
  pub detect_from : ℕ → List UntrustedSpan → List InjectionFinding
  unfolding first_match
  detect_from index [] = []
  detect_from index (span ∷ spans) =
      with_finding index span (first_match injection_patterns span.text)
        (detect_from (suc index) spans)

  unfoldable pub detect_prompt_injection : List UntrustedSpan → List InjectionFinding
  unfolding detect_from
  detect_prompt_injection untrusted = detect_from 0 untrusted

  -- What `applyPromptInjectionPolicy` does with the findings.
  abbrev pub policy_for :
      List InjectionFinding → List UntrustedSpan → PromptInjectionMode → PolicyResult
  policy_for [] untrusted mode =
      applied (record { findings = []; kept_untrusted = untrusted; excluded_span_sources = [] })
  policy_for (f ∷ fs) untrusted fail_run = detected (f ∷ fs)
  policy_for (f ∷ fs) untrusted exclude_span = applied (record {
    findings = f ∷ fs;
    kept_untrusted = drop_excluded (f ∷ fs) 0 untrusted;
    excluded_span_sources = map span_source (f ∷ fs);
  })

  unfoldable pub apply_prompt_injection_policy :
      List UntrustedSpan → PromptInjectionMode → PolicyResult
  unfolding detect_prompt_injection drop_excluded
  apply_prompt_injection_policy untrusted mode =
      policy_for (detect_prompt_injection untrusted) untrusted mode

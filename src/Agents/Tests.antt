-- ===== src/Agents/Tests.antt =====
-- Runs of the injection policy on concrete spans, and of the configuration on concrete profiles.
use matrix_agent_workspace.Prelude.{String, Bool, List, [], ◌∷◌, ◌≡◌, map, ◌==◌, true, not, ◌&&◌}
use matrix_agent_workspace.Agents.Injection.{
  UntrustedSourceKind, UntrustedSpan, InjectionPattern, applied, detected, exclude_span, fail_run,
  span_source, detect_prompt_injection, apply_prompt_injection_policy,
}
use matrix_agent_workspace.Agents.Config.{
  GatewayProvider, SpecialistProfile, resolve_execution_order,
}
use matrix_agent_workspace.Agents.Config.Errors.{
  succeeds, no_repeats, is_nil, all, is_configured, succeeds-resolve_execution_order,
}
use matrix_agent_workspace.Agents.Injection.Policy.{excludes_suspicious, fails_on_suspicious}

abbrev span : String → UntrustedSpan
span t = record { source = UntrustedSourceKind.web; source_id = "page"; text = t }

-- Only the text `bad` matches, with every pattern.
abbrev matches_bad : InjectionPattern → String → Bool
matches_bad p t = t == "bad"

abbrev three_spans : List UntrustedSpan
three_spans = span "good" ∷ span "bad" ∷ span "fine" ∷ []

excludes_suspicious_example :
    apply_prompt_injection_policy matches_bad three_spans exclude_span
    ≡ applied (record {
      findings = detect_prompt_injection matches_bad three_spans;
      kept_untrusted = span "good" ∷ span "fine" ∷ [];
      excluded_span_sources = map span_source (detect_prompt_injection matches_bad three_spans);
    })
excludes_suspicious_example = excludes_suspicious matches_bad three_spans

fails_on_suspicious_example :
    apply_prompt_injection_policy matches_bad three_spans fail_run
    ≡ detected (detect_prompt_injection matches_bad three_spans)
fails_on_suspicious_example = fails_on_suspicious matches_bad three_spans

abbrev reader : String → SpecialistProfile
reader id = record {
  id = id;
  name = "reader";
  model = "model";
  gateway_provider = GatewayProvider.openai;
  system_policy = "read";
  tools_allowlist = "read_issue" ∷ [];
  timeout_ms = 1000;
  max_output_tokens = 4096;
  enabled = true;
}

abbrev readers : List SpecialistProfile
readers = reader "issue-reader" ∷ reader "pr-reader" ∷ []

succeeds-resolve_execution_order_example :
    succeeds (resolve_execution_order ("pr-reader" ∷ "pr-reader" ∷ []) readers) ≡ (
      not (is_nil ("pr-reader" ∷ "pr-reader" ∷ []))
      && (no_repeats ("pr-reader" ∷ "pr-reader" ∷ [])
          && all (is_configured readers) ("pr-reader" ∷ "pr-reader" ∷ [])))
succeeds-resolve_execution_order_example =
    succeeds-resolve_execution_order ("pr-reader" ∷ "pr-reader" ∷ []) readers

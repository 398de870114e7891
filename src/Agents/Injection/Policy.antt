-- ===== src/Agents/Injection/Policy.antt =====
-- Which spans the injection policy lets through.
use mathlib.Core.Bool.{not, ◌||◌}
use matrix_agent_workspace.Prelude.{
  ℕ, suc, ◌<◌, String, Bool, true, false, Option, none, some, List, [], ◌∷◌, any, keep, ◌≡◌, refl,
  arith, ◌∙◌, sym, ap, map, if◌then◌else◌,
}
use matrix_agent_workspace.Agents.Injection.{
  UntrustedSpan, InjectionPattern, injection_patterns, InjectionFinding, exclude_span, fail_run,
  applied, detected, is_excluded, drop_excluded, first_match, finding, with_finding, detect_from,
  detect_prompt_injection, policy_for, apply_prompt_injection_policy, span_source,
}

module _ (test : InjectionPattern → String → Bool) where
  -- Some pattern matches the text of the span.
  abbrev pub is_suspicious : UntrustedSpan → Bool
  is_suspicious span = any (λ p. test p span.text) injection_patterns

  abbrev pub is_clean : UntrustedSpan → Bool
  is_clean span = not (is_suspicious span)

  abbrev is_none : List InjectionFinding → Bool
  is_none [] = true
  is_none (f ∷ fs) = false

  abbrev is_some : Option InjectionPattern → Bool
  is_some none = false
  is_some (some p) = true

  first_match-any :
      (ps : List InjectionPattern) (text : String)
      → is_some (first_match test ps text) ≡ any (λ p. test p text) ps
  unfolding first_match
  first_match-any [] text = refl
  first_match-any (p ∷ ps) text = ground (arith, first_match-any ps text)

  -- Findings stand at their span's index, so none stands before the first index.
  before-detect_from :
      (k i : ℕ) (spans : List UntrustedSpan)
      → i < k
      → is_excluded (detect_from test k spans) i ≡ false
  unfolding detect_from
  before-detect_from k i [] h = refl
  before-detect_from k i (span ∷ spans) h =
      go (first_match test injection_patterns span.text)
        (before-detect_from (suc k) i spans (omega arith))
    where
      go :
          (o : Option InjectionPattern)
          → is_excluded (detect_from test (suc k) spans) i ≡ false
          → is_excluded (with_finding test k span o (detect_from test (suc k) spans)) i ≡ false
      go none ih = ih
      go (some p) ih = ground arith

  skip-drop_excluded :
      (f : InjectionFinding) (fs : List InjectionFinding) (i : ℕ) (spans : List UntrustedSpan)
      → f.span_index < i
      → drop_excluded (f ∷ fs) i spans ≡ drop_excluded fs i spans
  unfolding drop_excluded
  skip-drop_excluded f fs i [] h = refl
  skip-drop_excluded f fs i (span ∷ spans) h =
      let ih = skip-drop_excluded f fs (suc i) spans (omega arith) in ground arith

  drop-detect_from :
      (k : ℕ) (spans : List UntrustedSpan)
      → drop_excluded (detect_from test k spans) k spans ≡ keep is_clean spans
  unfolding detect_from drop_excluded
  drop-detect_from k [] = refl
  drop-detect_from k (span ∷ spans) =
      go (first_match test injection_patterns span.text)
        (first_match-any injection_patterns span.text) (drop-detect_from (suc k) spans)
        (before-detect_from (suc k) k spans (omega arith))
    where
      go :
          (o : Option InjectionPattern)
          → is_some o ≡ is_suspicious span
          → drop_excluded (detect_from test (suc k) spans) (suc k) spans ≡ keep is_clean spans
          → is_excluded (detect_from test (suc k) spans) k ≡ false
          → drop_excluded
              (with_finding test k span o (detect_from test (suc k) spans))
              k
              (span ∷ spans)
            ≡ keep is_clean (span ∷ spans)
      go none e ih none_yet = rw none_yet (rw (sym e) (ap (λ l. span ∷ l) ih))
      go (some p) e ih none_yet =
          let skipped =
            skip-drop_excluded (finding test k span p) (detect_from test (suc k) spans) (suc k)
              spans (omega arith) in
          rw (sym e) (ground arith)

  -- A run whose spans are all clean has no findings.
  detect_from-is_clean :
      (k : ℕ) (spans : List UntrustedSpan)
      → is_none (detect_from test k spans) ≡ not (any is_suspicious spans)
  unfolding detect_from
  detect_from-is_clean k [] = refl
  detect_from-is_clean k (span ∷ spans) =
      go (first_match test injection_patterns span.text)
        (first_match-any injection_patterns span.text) (detect_from-is_clean (suc k) spans)
    where
      go :
          (o : Option InjectionPattern)
          → is_some o ≡ is_suspicious span
          → is_none (detect_from test (suc k) spans) ≡ not (any is_suspicious spans)
          → is_none (with_finding test k span o (detect_from test (suc k) spans))
            ≡ not (is_suspicious span || any is_suspicious spans)
      go none e ih = rw (sym e) ih
      go (some p) e ih = rw (sym e) refl

  drop_excluded-nil : (k : ℕ) (spans : List UntrustedSpan) → drop_excluded [] k spans ≡ spans
  unfolding drop_excluded
  drop_excluded-nil k [] = refl
  drop_excluded-nil k (span ∷ spans) = ap (λ l. span ∷ l) (drop_excluded-nil (suc k) spans)

-- Under `exclude_span` the policy always applies, and it keeps exactly the spans that no pattern
-- matches, in their order; it names the source of each finding.
pub excludes_suspicious :
    (test : InjectionPattern → String → Bool) (spans : List UntrustedSpan)
    → let findings = detect_prompt_injection test spans in
      apply_prompt_injection_policy test spans exclude_span
      ≡ applied (record {
        findings = findings;
        kept_untrusted = keep (is_clean test) spans;
        excluded_span_sources = map span_source findings;
      })
unfolding apply_prompt_injection_policy detect_prompt_injection
excludes_suspicious test spans = go (detect_from test 0 spans) (drop-detect_from test 0 spans)
  where
    go :
        (fs : List InjectionFinding)
        → drop_excluded fs 0 spans ≡ keep (is_clean test) spans
        → policy_for test fs spans exclude_span
          ≡ applied (record {
            findings = fs;
            kept_untrusted = keep (is_clean test) spans;
            excluded_span_sources = map span_source fs;
          })
    go [] e = rw (sym e ∙ drop_excluded-nil test 0 spans) refl
    go (f ∷ fs) e = rw e refl

-- Under `fail_run` the policy refuses the spans exactly if a pattern matches one of them, and
-- otherwise keeps all of them without a finding.
pub fails_on_suspicious :
    (test : InjectionPattern → String → Bool) (spans : List UntrustedSpan)
    → apply_prompt_injection_policy test spans fail_run ≡ (
        if any (is_suspicious test) spans
        then detected (detect_prompt_injection test spans)
        else applied (record { findings = []; kept_untrusted = spans; excluded_span_sources = [] }))
unfolding apply_prompt_injection_policy detect_prompt_injection
fails_on_suspicious test spans =
    go (detect_from test 0 spans) (any (is_suspicious test) spans)
      (detect_from-is_clean test 0 spans)
  where
    go :
        (fs : List InjectionFinding) (b : Bool)
        → is_none test fs ≡ not b
        → policy_for test fs spans fail_run ≡ (
            if b
            then detected fs
            else applied
                (record { findings = []; kept_untrusted = spans; excluded_span_sources = [] }))
    go [] b e = ground arith
    go (f ∷ fs) b e = ground arith

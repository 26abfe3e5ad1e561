-- ===== src/Governor/UsageTests.antt =====
-- A policy, and the theorems about usage at it.
use field_platform.Prelude.{ℕ, true, false, some, [], ◌∷◌, ◌≡◌, ◌↔◌, refl, str_eq, if◌then◌else◌}
use field_platform.Governor.Usage.{
  Policy, rogue_model, rogue_burst, unpriced, evaluate_rogue, is_found, IsOutside, IsBurst, reaches,
  is_over, served, get_policy, set_policy, evaluate_rogue_iff, get_policy-set_policy,
}

abbrev policy : Policy
policy = record {
  allowed_models = "small" ∷ [];
  token_rate_limit = some 1000;
  rate_window_seconds = 3600;
}

-- The other model, at the limit.
two_signals : evaluate_rogue (some policy) "large" true 1000 ≡ rogue_model ∷ rogue_burst ∷ []
unfolding evaluate_rogue
two_signals = refl

evaluate_rogue_iff_example :
    ((is_found unpriced (evaluate_rogue (some policy) "large" true 1000) ≡ true) ↔ (true ≡ false))
    × ((is_found rogue_model (evaluate_rogue (some policy) "large" true 1000) ≡ true)
        ↔ IsOutside "large" (some policy))
    × ((is_found rogue_burst (evaluate_rogue (some policy) "large" true 1000) ≡ true)
        ↔ IsBurst 1000 (some policy))
evaluate_rogue_iff_example = evaluate_rogue_iff (some policy) "large" true 1000

get_policy-set_policy_example :
    (get_policy "a" (set_policy "a" policy [])
      ≡ (if str_eq "a" "a" then some (served policy) else get_policy "a" []))
    × (is_over (some 1000) 3600 ≡ false → served policy ≡ policy)
    × ((tokens : ℕ)
        → reaches (some 1000) tokens ≡ true
        → reaches (served policy).token_rate_limit tokens ≡ true)
get_policy-set_policy_example = get_policy-set_policy "a" "a" policy []

-- ===== src/Policy/Tests.antt =====
-- Budgets of some generations.
use knowlega.Base.{ℕ, String, ◌≡◌, refl, false, some}
use knowlega.Policy.{
  SourceManifestEntry, normalized_limits, generation_policy_for, effective_policy,
}
use knowlega.Policy.Budget.{Bounded, policy-bounds}
use knowlega.Base.Int.{pos, negsuc}

abbrev contract : ℕ → ℕ → String
contract files pages = "contract"

abbrev entry : SourceManifestEntry
entry = record { sha256 = "h"; generation_contract = "contract"; new_page_count = pos 2 }

one_page_left :
    (generation_policy_for contract 0 0 false (some entry) "h").0.remaining_new_pages ≡ pos 1
unfolding generation_policy_for
one_page_left = refl

-- More pages than the limit were created, and fewer than none.
no_page_left :
    (generation_policy_for contract 0 0 false
      (some (record entry { new_page_count = pos 5 }))
      "h").0.remaining_new_pages
    ≡ pos 0
unfolding generation_policy_for
no_page_left = refl

pages_beyond_limit :
    (generation_policy_for contract 0 0 false
      (some (record entry { new_page_count = negsuc 0 }))
      "h").0.remaining_new_pages
    ≡ pos 4
unfolding generation_policy_for
pages_beyond_limit = refl

policy-bounds_example :
    let limits = normalized_limits 5 0 in
    Bounded
      (some entry)
      false
      limits.0
      limits.1
      2
      (effective_policy (generation_policy_for contract 5 0 false (some entry) "h").0 2)
policy-bounds_example = policy-bounds contract 5 0 false (some entry) "h" 2

-- ===== src/Tests/Rules.antt =====
-- Failure rules, retry policy, tags and the classification of failures at concrete inputs.
use token_route.Base.{
  ℕ, ◌≡◌, ◌↔◌, true, false, not, ◌&&◌, none, some, [], ◌∷◌, any, all, if◌then◌else◌,
  ◌==◌ as nat_beq,
}
use mathlib.Core.List.{Memᴰ}
use token_route.Base.Int.{pos, pos_part}
use token_route.Base.Dict.{text_key}
use token_route.Base.Text.{Text, codes, split}
use token_route.FailureRules.Defs.{FailureRule, FailureRules}
use token_route.RetryPolicy.Defs.{RetryPolicy, parse_status_ranges, empty_table, classify_keyword}
use token_route.RetryPolicy.Defs as PolicyDefs
use token_route.RetryPolicy.Ranges.{is_range, listed, answers, is_status, within, answers-new}
use token_route.Tags.Defs.{TagSelector, match_tags}
use token_route.Tags.Laws.{match_tags_iff}
use token_route.Tests.Floats.{ascii_lower}

abbrev rule : FailureRule
rule = record {
  pattern_text = codes "Overloaded";
  status = pos 0;
  cooldown_ms = pos 0;
  backoff = true;
}

abbrev by_status : FailureRule
by_status = record { pattern_text = []; status = pos 429; cooldown_ms = pos 5000; backoff = false }

abbrev escalated : FailureRules
escalated = record { text_rules = rule ∷ []; status_rules = []; levels = (codes "groq", 3) ∷ [] }

answers-new_example :
    answers ascii_lower
      (PolicyDefs.new ascii_lower (codes "500-599") (codes "401") (pos 501 ∷ []) [])
      (pos 501)
    ≡ (if all is_range (split b',' (codes "500-599"))
          && all is_status (pos 501 ∷ [])
          && all is_range (split b',' (codes "401"))
        then some (
          within ascii_lower (pos 501) (
              not (any (λ c. nat_beq (pos_part c) 501) (pos 501 ∷ []))
              && listed 501 (codes "500-599")),
          within ascii_lower (pos 501) (listed 501 (codes "401")),
        )
        else none)
answers-new_example =
    answers-new ascii_lower (codes "500-599") (codes "401") (pos 501 ∷ []) [] (pos 501)

abbrev policy : RetryPolicy
policy = record {
  retry = empty_table;
  disable = empty_table;
  disable_keywords = codes "low credit" ∷ [];
}

abbrev selector : TagSelector
selector = record { plain = codes "fast" ∷ []; exclude = codes "beta" ∷ []; require = [] }

match_tags_iff_example : (match_tags (some selector) (codes "fast" ∷ []) ≡ true) ↔ (
    ((t : Text) → Memᴰ t [] → Memᴰ t (codes "fast" ∷ []))
    × ((t : Text) → Memᴰ t (codes "beta" ∷ []) → ¬ Memᴰ t (codes "fast" ∷ []))
    × ((t : Text) → Memᴰ t (codes "fast" ∷ []) → Memᴰ t (codes "fast" ∷ [])))
match_tags_iff_example = match_tags_iff selector (codes "fast" ∷ [])

abbrev rate_limited : ℕ
rate_limited = 429

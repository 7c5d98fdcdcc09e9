-- ===== src/Tests/Limits.antt =====
-- Rate limits, quotas, key pools and affinity pins at concrete inputs.
use token_route.Base.{◌-◌, ◌*◌, ◌≡◌, refl, none, some, List, [], ◌∷◌, ◌++◌, arith, min}
use token_route.Base.Int.{ℤ, pos}
use token_route.Base.Dict.{lookup, int_key, text_key}
use token_route.Base.Text.{codes}
use token_route.Base.Time.{minute, hour}
use token_route.Affinity.Defs.{AffinityCache}
use token_route.KeyPool.Defs.{KeyPool, pick}
use token_route.KeyPool.Fair.{IsFair, pick-IsFair}
use token_route.Quota.Defs.{
  QuotaLedger, quota_key, remaining, record_usage, window_reset, is_balance_low,
}
use token_route.Quota.Readings.{Question, budget_left, window_end, ask_all, ask_all-answers}
use token_route.Quota.Windows.{Tracks, remaining-record_usage}
use token_route.RateLimit.Bucket.{TokenBucket}
use token_route.RateLimit.Registry.{Registry, invalidate, key_prefix}
use token_route.RateLimit.Burst.{run_requests, run_requests_burst}
use token_route.RateLimit.Isolation.{invalidate-lookup}
use token_route.Tests.Floats.{whole, whole-IsExact}

abbrev no_keys_seen : Registry ℤ
no_keys_seen = record { by_id = []; model_rpm = [] }

run_requests_burst_example :
    (run_requests whole whole-IsExact 5 1000 (pos 7) (pos 60) no_keys_seen).1 ≡ min 5 60
unfolding lookup
run_requests_burst_example =
    run_requests_burst whole whole-IsExact 1000 (pos 7) 60 (omega arith) (omega arith) 5
      no_keys_seen refl

abbrev bucket : TokenBucket ℤ
bucket = record { capacity = pos 60; rate = pos 1; tokens = pos 9; last = 5 }

abbrev two_entries : Registry ℤ
two_entries = record {
  by_id = (pos 1, record { rpm = some bucket; tpm = none }) ∷ [];
  model_rpm = (codes "1:gpt", bucket) ∷ (codes "12:gpt", bucket) ∷ [];
}

invalidate-lookup_example :
    (lookup (pos 12) (invalidate (pos 1) two_entries).by_id ≡ lookup (pos 12) two_entries.by_id)
    × (lookup (key_prefix (pos 12) ++ codes "gpt") (invalidate (pos 1) two_entries).model_rpm
        ≡ lookup (key_prefix (pos 12) ++ codes "gpt") two_entries.model_rpm)
invalidate-lookup_example = invalidate-lookup (pos 1) (pos 12) (codes "gpt") two_entries

abbrev pool : KeyPool
pool = record {
  keys = codes "first" ∷ codes "second" ∷ [];
  next = 1;
  cool = (codes "second", 50) ∷ [];
  uses = [];
}

pick-IsFair_example : IsFair 20 pool (pick 20 pool)
pick-IsFair_example = pick-IsFair 20 pool (omega arith)

abbrev cache : AffinityCache
cache = record { pins = []; ttl = pos hour }

abbrev ledger : QuotaLedger
ledger = record {
  rows =
      (
        codes "groq|llama",
        record {
          token_limit = pos 1000;
          window = pos minute;
          tokens_used = pos 300;
          window_start = 5;
          obs = none;
        },
      )
      ∷ [];
  balance_low = [];
}

ledger-Tracks : Tracks whole (quota_key (codes "groq") (codes "llama")) ledger 1000 minute 300 5
unfolding lookup
ledger-Tracks = record {
  row = record {
    token_limit = pos 1000;
    window = pos minute;
    tokens_used = pos 300;
    window_start = 5;
    obs = none;
  };
  found = refl;
  unobserved = refl;
  limited = refl;
  limit_pos = omega arith;
  limit_range = omega arith;
  windowed = refl;
  window_pos = omega arith;
  window_range = omega arith;
  began = refl;
  start_pos = omega arith;
  counted = refl;
}

remaining-record_usage_example :
    (remaining whole 30
      (codes "groq")
      (codes "llama")
      (record_usage 20 (codes "groq") (codes "llama") (pos 200) ledger)).1.remaining
    ≡ pos (1000 - 500)
unfolding is_balance_low lookup
remaining-record_usage_example =
    remaining-record_usage whole 20 30 (codes "groq") (codes "llama") 199 1000 minute 300 5 ledger
      ledger-Tracks (omega arith) (omega arith) (omega arith) refl

abbrev questions : List Question
questions =
    budget_left (codes "groq") (codes "llama")
    ∷ window_end (codes "groq") (codes "llama")
    ∷ budget_left (codes "mistral") (codes "small")
    ∷ []

-- The window has passed when the questions are asked.
ask_all-answers_example :
    ((remaining whole
        (2 * minute)
        (codes "groq")
        (codes "llama")
        (ask_all (2 * minute) whole questions ledger)).1
      ≡ (remaining whole (2 * minute) (codes "groq") (codes "llama") ledger).1)
    × ((window_reset
          (2 * minute)
          (codes "groq")
          (codes "llama")
          (ask_all (2 * minute) whole questions ledger)).1
        ≡ (window_reset (2 * minute) (codes "groq") (codes "llama") ledger).1)
ask_all-answers_example =
    ask_all-answers (2 * minute) whole questions (codes "groq") (codes "llama") ledger

-- ===== src/Tests/Bodies.antt =====
-- Streams, bodies, the panel of a judge and the ratios of groups at concrete inputs.
use token_route.Base.{
  ℕ, ◌≤◌, ◌≡◌, refl, true, false, ◌==◌, Option, none, some, List, [], ◌∷◌, map, length, arith, leb,
  ◌&&◌, if◌then◌else◌,
}
use token_route.Base.Int.{pos}
use token_route.Base.Text.{Text, codes}
use token_route.Base.Json.{
  Json, bool, text, object, item, no_items, Items, field, no_fields, Fields, member,
}
use token_route.Config.Check.{has}
use token_route.Usage.Sse.{Usage}
use token_route.Server.Stream.{relay_stream, feed_lines}
use token_route.Server.Chunks.{good, concat, all_lines, relay_stream-all_lines}
use token_route.Server.Billing.{group_ratio_multiplier}
use token_route.Server.Ratios.{shared_ratios, product, group_ratio_multiplier-product}
use token_route.Server.Judge.{Event, answered, refused, grace_over, run_panel, nothing_yet}
use token_route.Server.Quorum.{Done, run_panel-Done}
use token_route.Server.Panel.{flatten_tool_history}
use token_route.Server.Flat.{all_plain, count_items, flatten_tool_history_plain}
use token_route.Server.Override.{param_ops}
use token_route.Server.Precedence.{latest, member_of, member-param_ops}
use token_route.Server.Runes.{Unicode, fresh_scan, scan_text}
use token_route.Server.Counted.{units, scan_text_bound}
use token_route.Tests.Floats.{whole}

abbrev usage : Usage
usage = record {
  prompt_tokens = pos 3;
  completion_tokens = pos 4;
  total_tokens = pos 7;
  prompt_tokens_details = none;
  completion_tokens_details = none;
  cache_creation_input_tokens = pos 0;
  cache_read_input_tokens = pos 0;
  cache_creation_tokens = pos 0;
}

-- A decoder that finds the usage in the payload "u".
abbrev unmarshal : Text → Option (Option Usage)
unmarshal [] = none
unmarshal (c ∷ s) = if c == b'u' then some (some usage) else some none

-- "data:x", a newline and "data:u", cut inside the second line.
abbrev cut_stream : List Text
cut_stream = codes "data:x" ∷ (10 ∷ codes "da") ∷ [] ∷ codes "ta:u" ∷ []

relay_stream-all_lines_example :
    relay_stream unmarshal (map good cut_stream)
    ≡ (concat cut_stream, feed_lines unmarshal (all_lines (concat cut_stream)) none)
relay_stream-all_lines_example = relay_stream-all_lines unmarshal cut_stream

abbrev ratios : List (Text × whole.F)
ratios = (codes "vip", pos 2) ∷ (codes "eu", pos 3) ∷ []

group_ratio_multiplier-product_example :
    group_ratio_multiplier whole ratios (codes "eu" ∷ codes "vip" ∷ []) (codes "vip" ∷ [])
    ≡ product whole
        (pos 1)
        (shared_ratios whole ratios (codes "eu" ∷ codes "vip" ∷ []) (codes "vip" ∷ []))
group_ratio_multiplier-product_example =
    group_ratio_multiplier-product whole ratios (codes "eu" ∷ codes "vip" ∷ []) (codes "vip" ∷ [])
      refl

-- Two answers, the end of the grace period, and a straggler that failed.
abbrev arrivals : List (Event ℕ ℕ ℕ)
arrivals = answered 1 ∷ answered 2 ∷ grace_over ∷ refused 500 ∷ []

run_panel-Done_example : Done 3 (pos 2) (run_panel 3 (pos 2) arrivals nothing_yet)
run_panel-Done_example = run_panel-Done 3 (pos 2) arrivals (ground arith) refl (ground arith)

abbrev tool_turn : Json
tool_turn = object (
    field (codes "role") (text (codes "tool"))
      (field (codes "content") (text (codes "42")) no_fields))

abbrev history : Items
history = item tool_turn no_items

flatten_tool_history_plain_example :
    (all_plain (flatten_tool_history history) ≡ true)
    × (count_items (flatten_tool_history history) ≡ count_items history)
    × (flatten_tool_history (flatten_tool_history history) ≡ flatten_tool_history history)
flatten_tool_history_plain_example = flatten_tool_history_plain history

abbrev asked : Fields
asked = field (codes "stream") (bool true) (field (codes "user") (text (codes "me")) no_fields)

abbrev forced : Fields
forced = field (codes "stream") (bool false) no_fields

member-param_ops_example :
    (member_of (codes "user") (param_ops no_fields (codes "user" ∷ []) forced (some asked))
      ≡ latest (codes "user") forced (
          latest
            (codes "user")
            no_fields
            (if has (codes "user" ∷ []) (codes "user") then none else member (codes "user") asked)))
    × (param_ops no_fields (codes "user" ∷ []) forced none ≡ none)
member-param_ops_example =
    member-param_ops (codes "user") no_fields (codes "user" ∷ []) forced asked

abbrev ascii : Unicode
ascii = record {
  is_cjk = λ r. false;
  is_digit = λ r. leb b'0' r && leb r b'9';
  is_letter = λ r. leb b'a' r && leb r b'z';
  is_math = λ r. r == b'+';
  is_other_symbol = λ r. false;
  is_unprintable = λ r. false;
}

scan_text_bound_example :
    units (scan_text ascii (codes "abc 12+3") fresh_scan).counts ≤ length (codes "abc 12+3")
scan_text_bound_example = scan_text_bound ascii (codes "abc 12+3")

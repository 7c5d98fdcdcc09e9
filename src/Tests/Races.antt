-- ===== src/Tests/Races.antt =====
-- The race of two candidates, the response cache, the hint of a reset and the media of a request at
-- concrete inputs.
use token_route.Base.Json.{Json, text, array, object, item, no_items, field, no_fields}
use token_route.Router.Media.{detect_required_modalities}
use token_route.Router.Detect.{message_asks, detect_required_modalities-asks}
use token_route.Base.{◌≡◌, true, all, any, some, [], ◌∷◌}
use token_route.Base.Int.{pos}
use token_route.Base.Text.{codes, text_eq}
use token_route.Router.Lookups.{resolve}
use token_route.Server.Fusion.{fusion_run}
use token_route.Server.Race.{dearness, winner, answer_of, fusion_run-winner}
use token_route.Server.Hints.{hinted_candidates, earliest_reset}
use token_route.Server.Observed.{bounds, occurs}
use token_route.Server.Earliest.{all_resets, earliest_reset-earliest}
use token_route.Server.Cache.{CacheEntry, new_resp_cache, get, store}
use token_route.Server.Capacity.{IsCounted, fresh, after_get, after_store, Reached-IsCounted}
use token_route.Tests.Floats.{whole, ascii_lower}
use token_route.Tests.Routing.{groq, mistral, router}
use token_route.Tests.Serving.{setup, busy_then_fine, pair}

fusion_run-winner_example :
    (fusion_run whole setup busy_then_fine true groq mistral router).resp
    ≡ winner whole setup
        (whole.lt
          (dearness whole setup setup.prices mistral.model)
          (dearness whole setup setup.prices groq.model))
        (answer_of whole setup (busy_then_fine 0 groq.provider.name groq.model).reply)
        (answer_of whole setup (busy_then_fine 1 mistral.provider.name mistral.model).reply)
fusion_run-winner_example = fusion_run-winner whole setup busy_then_fine true groq mistral router

earliest_reset-earliest_example :
    let cs = hinted_candidates whole (resolve (codes "chat") router) pair in
    let h = (earliest_reset whole 100 (codes "chat") pair router).1 in
    (all (bounds 100 h) (all_resets 100 whole cs router) ≡ true)
    × (occurs 100 h (all_resets 100 whole cs router) ≡ true)
earliest_reset-earliest_example = earliest_reset-earliest 100 whole (codes "chat") pair router

abbrev entry : CacheEntry
entry = record {
  body = codes "hello";
  status = 200;
  content_type = codes "application/json";
  stored_at = 50;
  prompt_tokens = pos 3;
  completion_tokens = pos 4;
  total_tokens = pos 7;
}

Reached-IsCounted_example :
    IsCounted (get 60 (codes "k") (store 0 (codes "k") entry (new_resp_cache (pos 0)))).0
Reached-IsCounted_example =
    Reached-IsCounted (pos 0) _
      (after_get 60 (codes "k") _ (after_store 0 (codes "k") entry _ fresh))

-- A message with a text block and an image.
abbrev message : Json
message = array (
    item (object (field (codes "type") (text (codes "text")) no_fields))
      (item (object (field (codes "type") (text (codes "image_url")) no_fields)) no_items))

detect_required_modalities-asks_example :
    any
      (text_eq (codes "image"))
      (detect_required_modalities ascii_lower (some (some message ∷ [])))
    ≡ any (message_asks ascii_lower (codes "image")) (some message ∷ [])
detect_required_modalities-asks_example =
    detect_required_modalities-asks ascii_lower (codes "image") (some message ∷ [])

-- ===== src/Server/Estimate.antt =====
-- internal/server/estimate.go: the estimate of a body's tokens. The lengths of the raw parts of a body,
-- which encoding/json splits it into, are parameters.
use token_route.Base.{ℕ, ◌/◌, ◌&&◌, ◌||◌, not, List, [], ◌∷◌, ◌==◌, if◌then◌else◌}
use token_route.Base.Int.{ℤ, pos, wrap64, ◌+ℤ◌}
use token_route.Base.Text.{Text, codes, text_eq}
use token_route.Base.Dict.{text_key}
use token_route.Base.Float.{Float64}
use token_route.RetryPolicy.Defs.{is_blank}
use token_route.Server.Runes.{Unicode, Counts, fresh_scan, scan_text}

-- A message's content as it decodes: a string, blocks with a type and a text, or something else of a
-- raw length.
pub data Content : Type 0 where
  string_content : Text → Content
  block_content : List (Text × Text) → Content
  raw_content : ℕ → Content

module _ (fl : Float64) where
  open fl use {F, of_int, add, mul, div, trunc}

  -- The weights of a provider family, in the order of the counts.
  pub record Weights : Type 0 where
    pub word : F
    pub number : F
    pub cjk : F
    pub symbol : F
    pub math : F
    pub url_delim : F
    pub at_sign : F
    pub emoji : F
    pub newline : F
    pub space : F

  abbrev hundredths : ℕ → F
  hundredths n = div (of_int (pos n)) (of_int (pos 100))

  abbrev weights : ℕ → ℕ → ℕ → ℕ → ℕ → ℕ → ℕ → ℕ → ℕ → ℕ → Weights
  weights a b c d e f g h i j = record {
    word = hundredths a;
    number = hundredths b;
    cjk = hundredths c;
    symbol = hundredths d;
    math = hundredths e;
    url_delim = hundredths f;
    at_sign = hundredths g;
    emoji = hundredths h;
    newline = hundredths i;
    space = hundredths j;
  }

  -- `familyWeights`; an unknown family has the weights of "openai".
  unfoldable pub family_weights : Text → Weights
  family_weights family =
      if text_eq family (codes "gemini")
      then weights 115 280 68 38 105 120 250 108 115 20
      else if text_eq family (codes "claude")
      then weights 113 163 121 40 452 126 282 260 89 39
      else weights 102 155 85 40 268 100 200 212 50 42

  abbrev term : ℕ → F → F → F
  term n w total = add total (mul (of_int (pos n)) w)

  -- The sum over the counts, in their order.
  unfoldable pub weigh : Weights → Counts → F
  weigh w c = term c.space w.space (
      term c.newline w.newline (
        term c.emoji w.emoji (
          term c.at_sign w.at_sign (
            term c.url_delim w.url_delim (
              term c.math w.math (
                term c.symbol w.symbol (
                  term c.cjk w.cjk
                    (term c.number w.number (term c.word w.word (of_int (pos 0)))))))))))

  -- `estimateWeighted`
  unfoldable pub estimate_weighted : Unicode → Text → Text → ℤ
  unfolding scan_text family_weights weigh
  estimate_weighted u s family =
      let half = div (of_int (pos 1)) (of_int (pos 2)) in
      trunc (add (weigh (family_weights family) (scan_text u s fresh_scan).counts) half)

  unfoldable pub estimate_blocks : Unicode → Text → List (Text × Text) → ℤ → ℤ
  unfolding estimate_weighted
  estimate_blocks u family [] total = total
  estimate_blocks u family ((kind, s) ∷ blocks) total =
      let more = wrap64 (total +ℤ estimate_weighted u s family) in
      estimate_blocks u family blocks
        (if text_eq kind (codes "text") || (is_blank kind && not (is_blank s)) then more else total)

  -- The loop of `estimateChatTokens`; each message costs 4 (`perMessageOverhead`).
  unfoldable pub estimate_messages : Unicode → Text → List Content → ℤ → ℤ
  unfolding estimate_blocks
  estimate_messages u family [] total = total
  estimate_messages u family (string_content s ∷ ms) total =
      estimate_messages u family ms
        (wrap64 (wrap64 (total +ℤ pos 4) +ℤ estimate_weighted u s family))
  estimate_messages u family (block_content blocks ∷ ms) total =
      estimate_messages u family ms (estimate_blocks u family blocks (wrap64 (total +ℤ pos 4)))
  estimate_messages u family (raw_content n ∷ ms) total =
      estimate_messages u family ms (wrap64 (wrap64 (total +ℤ pos 4) +ℤ pos (n / 4)))

  -- `estimateChatTokens` of a body of `len` bytes with its messages.
  unfoldable pub estimate_chat_tokens : Unicode → Text → ℕ → List Content → ℤ
  unfolding estimate_messages
  estimate_chat_tokens u family len [] = pos (len / 4)
  estimate_chat_tokens u family len (m ∷ ms) = estimate_messages u family (m ∷ ms) (pos 0)

-- `estimateEmbedTokens` of a body of `len` bytes, with the length of its input.
unfoldable pub estimate_embed_tokens : ℕ → ℕ → ℕ
estimate_embed_tokens len input = if input == 0 then len / 4 else input / 4

-- `estimateFamily`
unfoldable pub estimate_family : Text → Text
estimate_family kind =
    if text_eq kind (codes "anthropic")
    then codes "claude"
    else if text_eq kind (codes "gemini")
    then codes "gemini"
    else codes "openai"

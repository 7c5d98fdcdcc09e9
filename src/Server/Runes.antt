-- ===== src/Server/Runes.antt =====
-- internal/server/estimate.go: the classes of the runes of a text, counted. The classes of the package
-- unicode are parameters.
use token_route.Base.{ℕ, ◌+◌, Bool, true, false, ◌||◌, any, [], ◌∷◌, ltb, ◌==◌, if◌then◌else◌}
use token_route.Base.Text.{Text, codes}
use token_route.Base.Dict.{text_key}

-- `isCJK`, the tests of the package unicode, and `r > 0xFFFF && !unicode.IsPrint(r)`.
pub record Unicode : Type 0 where
  pub is_cjk : ℕ → Bool
  pub is_digit : ℕ → Bool
  pub is_letter : ℕ → Bool
  pub is_math : ℕ → Bool
  pub is_other_symbol : ℕ → Bool
  pub is_unprintable : ℕ → Bool

-- The indices of the counts.
pub record Counts : Type 0 where
  pub word : ℕ
  pub number : ℕ
  pub cjk : ℕ
  pub symbol : ℕ
  pub math : ℕ
  pub url_delim : ℕ
  pub at_sign : ℕ
  pub emoji : ℕ
  pub newline : ℕ
  pub space : ℕ

pub record Scan : Type 0 where
  pub counts : Counts
  pub in_word : Bool
  pub in_num : Bool
  pub word_len : ℕ

abbrev no_counts : Counts
no_counts = record {
  word = 0;
  number = 0;
  cjk = 0;
  symbol = 0;
  math = 0;
  url_delim = 0;
  at_sign = 0;
  emoji = 0;
  newline = 0;
  space = 0;
}

abbrev pub fresh_scan : Scan
fresh_scan = record { counts = no_counts; in_word = false; in_num = false; word_len = 0 }

abbrev pub outside : Counts → Scan → Scan
outside c s = record s { counts = c; in_word = false; in_num = false }

-- `isURLLikeDelim`
unfoldable pub is_url_like_delim : ℕ → Bool
is_url_like_delim r = any (λ d. d == r) (codes ":/?&=#.-_~")

-- A letter: a word is counted at its first letter, and each letter after the eighth as a symbol.
unfoldable pub on_letter : Scan → Scan
on_letter s =
    let c = s.counts in
    let n = if s.in_word then s.word_len + 1 else 1 in
    let started = if s.in_word then c else record c { word = c.word + 1 } in
    record s {
      counts = if ltb 8 n then record started { symbol = started.symbol + 1 } else started;
      in_word = true;
      in_num = false;
      word_len = n;
    }

abbrev pub on_digit : Scan → Scan
on_digit s =
    let c = s.counts in
    record s {
      counts = if s.in_num then c else record c { number = c.number + 1 };
      in_num = true;
      in_word = false;
    }

-- The `switch` of `estimateWeighted`.
unfoldable pub scan_rune : Unicode → ℕ → Scan → Scan
unfolding is_url_like_delim on_letter
scan_rune u r s =
    let c = s.counts in
    if r == 10
    then outside (record c { newline = c.newline + 1 }) s
    else if r == 32 || (r == 9 || r == 13)
    then outside (record c { space = c.space + 1 }) s
    else if r == b'@'
    then outside (record c { at_sign = c.at_sign + 1 }) s
    else if u.is_cjk r
    then outside (record c { cjk = c.cjk + 1 }) s
    else if u.is_digit r
    then on_digit s
    else if u.is_letter r
    then on_letter s
    else if u.is_math r
    then outside (record c { math = c.math + 1 }) s
    else if u.is_other_symbol r || u.is_unprintable r
    then outside (record c { emoji = c.emoji + 1 }) s
    else if is_url_like_delim r
    then outside (record c { url_delim = c.url_delim + 1 }) s
    else outside (record c { symbol = c.symbol + 1 }) s

-- The loop over the runes.
unfoldable pub scan_text : Unicode → Text → Scan → Scan
unfolding scan_rune
scan_text u [] s = s
scan_text u (r ∷ rs) s = scan_text u rs (scan_rune u r s)

-- ===== src/Catalog.antt =====
-- internal/catalog/catalog.go: `Syncer`, without its lock and its HTTP client. The file and the download
-- are parsed by `encoding/json`; the entries of a parsed document stand in the order in which the
-- program's range over the Go map visits them.
use token_route.Base.{ℕ, Bool, false, Option, none, some, List, [], ◌∷◌, map, ◌==◌, if◌then◌else◌}
use token_route.Base.Int.{ℤ, pos, leb_ℤ}
use token_route.Base.Text.{Text, codes, text_eq, cut}
use token_route.Base.Dict.{lookup, insert, text_key}
use token_route.Base.Float.{Float64}
use token_route.Prices.{Price, PriceStore, set_price, has_price, is_some}

pub record Entry : Type 0 where
  pub context_tokens : ℤ
  pub output_tokens : ℤ
  pub modalities : List Text

-- A model of `apiJSON`.
pub record ApiModel : Type 0 where
  pub input : List Text
  pub context : ℤ
  pub output : ℤ

abbrev pub Api : Type 0
Api = List (Text × List (Text × ApiModel))

-- The text after the last separator, when there is one.
unfoldable pub after_last : ℕ → Text → Option Text
after_last sep [] = none
after_last sep (c ∷ s) = elim (after_last sep s) [
  | some t ↦ some t
  | none ↦ if c == sep then some s else none
]

abbrev or_whole : Option Text → Text → Text
or_whole none s = s
or_whole (some t) s = t

-- `baseID`
unfoldable pub base_id : (ℕ → ℕ) → Text → Text
unfolding after_last
base_id lower id = map lower (cut b':' (or_whole (after_last b'/' id) id)).0

-- The inputs that are not text.
unfoldable pub other_inputs : List Text → List Text
other_inputs [] = []
other_inputs (kind ∷ kinds) =
    let rest = other_inputs kinds in if text_eq kind (codes "text") then rest else kind ∷ rest

unfoldable pub entry_of : ApiModel → Entry
unfolding other_inputs
entry_of m = record {
  context_tokens = m.context;
  output_tokens = m.output;
  modalities = other_inputs m.input;
}

-- The loop of `parse` over a provider's models: the first writer wins.
unfoldable pub add_models :
    (ℕ → ℕ) → List (Text × ApiModel) → List (Text × Entry) → List (Text × Entry)
unfolding entry_of base_id
add_models lower [] out = out
add_models lower ((id, m) ∷ ms) out =
    let key = base_id lower id in
    add_models lower ms (if is_some (lookup key out) then out else insert key (entry_of m) out)

-- The loop of `parse` over the providers.
unfoldable pub parse : (ℕ → ℕ) → Api → List (Text × Entry) → List (Text × Entry)
unfolding add_models
parse lower [] out = out
parse lower ((vendor, ms) ∷ api) out = parse lower api (add_models lower ms out)

pub record Syncer : Type 0 where
  pub models : List (Text × Entry)

-- `NewSyncer`
unfoldable pub new_syncer : Syncer
new_syncer = record { models = [] }

-- `Modalities`
unfoldable pub modalities_of : (ℕ → ℕ) → Syncer → Text → Option (List Text)
modalities_of lower s model = elim (lookup (base_id lower model) s.models) [
  | none ↦ none
  | some e ↦ some e.modalities
]

abbrev is_empty : List (Text × Entry) → Bool
is_empty [] = Bool.true
is_empty (_ ∷ _) = false

module _ (fl : Float64) where
  open fl use {F, of_int}

  -- A price that only bounds the context.
  abbrev pub context_only : Entry → Price F
  context_only e = record {
    prompt_per_1m = of_int (pos 0);
    completion_per_1m = of_int (pos 0);
    embed_per_1m = of_int (pos 0);
    context_tokens = e.context_tokens;
    pricing_expr = [];
  }

  -- The loop of `merge`.
  unfoldable pub merge_models : List (Text × Entry) → PriceStore F → PriceStore F
  merge_models [] ps = ps
  merge_models ((id, e) ∷ es) ps =
      let set = set_price id (context_only e) ps in
      merge_models es
        (if leb_ℤ e.context_tokens (pos 0) then ps else (if has_price id ps then ps else set))

  -- `merge`, without the count for the log.
  unfoldable pub merge : List (Text × Entry) → Syncer → PriceStore F → Syncer × PriceStore F
  unfolding merge_models
  merge models s ps = (record s { models = models }, merge_models models ps)

  abbrev pub merged : (ℕ → ℕ) → Option Api → Syncer → PriceStore F → Syncer × PriceStore F
  merged lower none s ps = (s, ps)
  merged lower (some api) s ps =
      let models = parse lower api [] in
      let done = merge models s ps in if is_empty models then (s, ps) else done

  -- `LoadCache`: the file on disk, if it can be read and decoded.
  unfoldable pub load_cache : (ℕ → ℕ) → Option Api → Syncer → PriceStore F → Syncer × PriceStore F
  unfolding merge parse
  load_cache lower file s ps = merged lower file s ps

  -- `SyncOnce` without the cache file: a download that failed, or is not modified, is `none`.
  unfoldable pub sync_once : (ℕ → ℕ) → Option Api → Syncer → PriceStore F → Syncer × PriceStore F
  unfolding merge parse
  sync_once lower download s ps = merged lower download s ps

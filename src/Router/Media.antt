-- ===== src/Router/Media.antt =====
-- internal/router/capabilities.go: which media a request brings. Its messages are a parameter, as
-- `encoding/json` decodes them; `lower` is `unicode.ToLower`.
use token_route.Base.{
  ℕ, ◌||◌, any, Option, none, some, List, [], ◌∷◌, ◌++◌, map, drop, if◌then◌else◌,
}
use token_route.Base.Text.{Text, codes, text_eq, has_prefix, trim_space, cut}
use token_route.Base.Json.{
  Json, null, bool, number, text, array, object, Items, no_items, item, Fields, no_fields, field,
  text_member,
}
use token_route.Base.Dict.{lookup, text_key}
use token_route.Base.Sort.{sort_by}
use token_route.RetryPolicy.Defs.{is_blank}
use token_route.Router.Strategies.{text_lt}

-- `dataURIMIME`
unfoldable pub data_uri_mime : Text → Text
data_uri_mime v =
    let (head, content) = cut b',' (drop 5 v) in
    let (mime, params) = cut b';' head in
    if has_prefix v (codes "data:") then trim_space mime else []

-- The first text that is not empty.
abbrev first_text : List Text → Text
first_text [] = []
first_text ([] ∷ ts) = first_text ts
first_text ((c ∷ t) ∷ ts) = c ∷ t

abbrev or_empty : Option Text → Text
or_empty none = []
or_empty (some t) = t

-- The three searches of `blockMIME`, where the types of the nested objects are known.
unfoldable pub mime_of : Fields → List (Text × Text) → Text
unfolding data_uri_mime
mime_of b nested = first_text (
    map (λ key. text_member key b) (codes "media_type" ∷ codes "mime_type" ∷ [])
    ++ map (λ key. or_empty (lookup key nested))
        (codes "source" ∷ codes "file" ∷ codes "document" ∷ codes "image_url" ∷ [])
    ++ map (λ key. data_uri_mime (text_member key b))
        (codes "data" ∷ codes "url" ∷ codes "file_data" ∷ codes "file_url" ∷ []))

abbrev mutual
  -- `blockMIME` of a nested value, which is empty where it is not an object.
  nested_mime : Json → Text
  nested_mime (object fs) = mime_of fs (nested_mimes fs)
  nested_mime (array xs) = []
  nested_mime null = []
  nested_mime (bool b) = []
  nested_mime (number n) = []
  nested_mime (text s) = []

  nested_mimes : Fields → List (Text × Text)
  nested_mimes no_fields = []
  nested_mimes (field k v fs) = (k, nested_mime v) ∷ nested_mimes fs

-- `blockMIME`
unfoldable pub block_mime : Fields → Text
unfolding mime_of
block_mime b = mime_of b (nested_mimes b)

abbrev pub block_and : Option Fields → Option (List Fields) → Option (List Fields)
block_and none bs = none
block_and (some b) none = none
block_and (some b) (some bs) = some (b ∷ bs)

-- An element of `[]map[string]any`: an object, or null, which is the nil map.
abbrev pub block_of : Json → Option Fields
block_of (object fs) = some fs
block_of null = some no_fields
block_of (bool b) = none
block_of (number n) = none
block_of (text s) = none
block_of (array xs) = none

abbrev pub blocks_in : Items → Option (List Fields)
blocks_in no_items = some []
blocks_in (item v xs) = block_and (block_of v) (blocks_in xs)

abbrev pub list_or_nil : Option (List Fields) → List Fields
list_or_nil none = []
list_or_nil (some bs) = bs

-- The blocks of one message: its content is missing, or decodes to an array of objects or not.
unfoldable pub content_blocks : Option Json → List Fields
content_blocks none = []
content_blocks (some v) = elim v [ array xs ↦ list_or_nil (blocks_in xs) | _ ↦ [] ]

-- `set[mod] = true`
abbrev pub add_modality : Text → List Text → List Text
add_modality medium set = if is_blank medium || any (text_eq medium) set then set else medium ∷ set

module _ (lower : ℕ → ℕ) where
  -- `mimeModality`; the empty text is no modality.
  unfoldable pub mime_modality : Text → Text
  mime_modality raw =
      let mime = map lower raw in
      if is_blank mime
      then []
      else (if has_prefix mime (codes "image/")
          then codes "image"
          else (if text_eq mime (codes "application/pdf")
              then codes "pdf"
              else (if has_prefix mime (codes "audio/")
                  then codes "audio"
                  else (if has_prefix mime (codes "video/") then codes "video" else []))))

  -- `blockModality`
  unfoldable pub block_modality : Fields → Text
  unfolding mime_modality block_mime
  block_modality b =
      let typ = map lower (text_member (codes "type") b) in
      let is = λ (t : Text). text_eq typ t in
      let named = mime_modality (block_mime b) in
      if is (codes "image_url") || is (codes "image") || is (codes "input_image")
      then codes "image"
      else (if is (codes "input_audio") || is (codes "audio_url") || is (codes "audio")
          then codes "audio"
          else (if is (codes "file") || is (codes "document") || is (codes "input_file")
              then (if is_blank named then codes "pdf" else named)
              else []))

  unfoldable pub collect_blocks : List Fields → List Text → List Text
  unfolding block_modality
  collect_blocks [] set = set
  collect_blocks (b ∷ bs) set = collect_blocks bs (add_modality (block_modality b) set)

  unfoldable pub collect_messages : List (Option Json) → List Text → List Text
  unfolding content_blocks collect_blocks
  collect_messages [] set = set
  collect_messages (m ∷ ms) set = collect_messages ms (collect_blocks (content_blocks m) set)

  -- `DetectRequiredModalities`; `none` is a body that does not decode.
  unfoldable pub detect_required_modalities : Option (List (Option Json)) → List Text
  unfolding collect_messages
  detect_required_modalities none = []
  detect_required_modalities (some ms) = sort_by text_lt (collect_messages ms [])

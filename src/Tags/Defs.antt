-- ===== src/Tags/Defs.antt =====
-- internal/router/tags.go.
use token_route.Base.{
  Bool, true, false, ◌&&◌, Option, none, some, List, [], ◌∷◌, any, ◌==◌, if◌then◌else◌,
}
use token_route.Base.Text.{Text, text_eq, trim_space, split}

pub record TagSelector : Type 0 where
  pub plain : List Text
  pub exclude : List Text
  pub require : List Text

-- An entry of the header, behind its mark.
abbrev cons_tag : Text → List Text → List Text
cons_tag [] tags = tags
cons_tag (c ∷ t) tags = (c ∷ t) ∷ tags

-- One trimmed entry of the header.
unfoldable pub add_tag : Text → TagSelector → TagSelector
add_tag [] sel = sel
add_tag (c ∷ t) sel =
    if c == b'!'
    then record sel { exclude = cons_tag t sel.exclude }
    else (if c == b'&'
        then record sel { require = cons_tag t sel.require }
        else record sel { plain = (c ∷ t) ∷ sel.plain })

-- The loop of `ParseTagSelector`; an `append` in order is a cons on what the later entries give.
unfoldable pub parse_tags : List Text → TagSelector
unfolding add_tag
parse_tags [] = record { plain = []; exclude = []; require = [] }
parse_tags (raw ∷ parts) = add_tag (trim_space raw) (parse_tags parts)

abbrev pub is_nil {ℓ} : {A : Type ℓ} → List A → Bool
is_nil [] = true
is_nil (_ ∷ _) = false

abbrev nonempty_selector : TagSelector → Option TagSelector
nonempty_selector sel =
    if is_nil sel.plain && is_nil sel.exclude && is_nil sel.require then none else some sel

-- `ParseTagSelector`; `none` is the nil selector.
unfoldable pub parse_tag_selector : Text → Option TagSelector
unfolding parse_tags
parse_tag_selector header =
    if is_nil (trim_space header) then none else nonempty_selector (parse_tags (split b',' header))

-- `have[t]` for the set of the candidate's tags.
unfoldable pub have : List Text → Text → Bool
have tags t = any (λ u. text_eq u t) tags

-- The loops of `MatchTags`: over what is required, what is excluded and the plain tags.
unfoldable pub all_have : List Text → List Text → Bool
all_have tags [] = true
all_have tags (t ∷ ts) = if have tags t then all_have tags ts else false

unfoldable pub none_have : List Text → List Text → Bool
none_have tags [] = true
none_have tags (t ∷ ts) = if have tags t then false else none_have tags ts

-- `MatchTags`
unfoldable pub match_tags : Option TagSelector → List Text → Bool
unfolding all_have none_have
match_tags none tags = true
match_tags (some sel) tags =
    all_have tags sel.require && none_have tags sel.exclude && all_have tags sel.plain

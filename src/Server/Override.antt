-- ===== src/Server/Override.antt =====
-- internal/server/override.go and sizelimit.go. A body is what encoding/json decodes it to, `none` when
-- it is no object; `path.Match` and the case folding are parameters.
use token_route.Base.{
  ℕ, Bool, true, false, ◌&&◌, Option, none, some, List, [], ◌∷◌, map, if◌then◌else◌,
}
use token_route.Base.Int.{ℤ, pos, ltb_ℤ}
use token_route.Base.Text.{Text, codes, text_eq, trim_space}
use token_route.Base.Json.{Fields, no_fields, field, set_field, delete_field}

abbrev pub no_sets : Fields → Bool
no_sets no_fields = true
no_sets (field k v fs) = false

abbrev pub no_names : List Text → Bool
no_names [] = true
no_names (k ∷ ks) = false

unfoldable pub apply_deletes : List Text → Fields → Fields
apply_deletes [] fs = fs
apply_deletes (k ∷ ks) fs = apply_deletes ks (delete_field k fs)

unfoldable pub apply_sets : Fields → Fields → Fields
apply_sets no_fields fs = fs
apply_sets (field k v sets) fs = apply_sets sets (set_field k v fs)

-- `ParamOps`; a map that is nil is empty.
unfoldable pub param_ops : Fields → List Text → Fields → Option Fields → Option Fields
unfolding apply_deletes apply_sets
param_ops provider_set provider_del candidate_set none = none
param_ops provider_set provider_del candidate_set (some body) =
    let changed =
      apply_sets candidate_set (apply_sets provider_set (apply_deletes provider_del body)) in
    if no_sets provider_set && no_names provider_del && no_sets candidate_set
    then some body
    else some changed

module _ (lower : ℕ → ℕ) (glob : Text → Text → Bool) where
  -- The loop of `HeaderPassMatch`, with the name in lower case.
  unfoldable pub pass_loop : List Text → Text → Bool
  pass_loop [] name = false
  pass_loop (p ∷ patterns) name =
      let folded = map lower p in
      let rest = pass_loop patterns name in
      if glob folded name then true else (if text_eq folded name then true else rest)

  -- `HeaderPassMatch`
  unfoldable pub header_pass_match : List Text → Text → Bool
  unfolding pass_loop
  header_pass_match patterns name = pass_loop patterns (map lower name)

-- `requestSizeLimit`: the status of the refusal, or `none` when the request goes on.
unfoldable pub request_size_limit : (ℕ → ℕ) → ℤ → ℤ → Text → Option ℕ
request_size_limit lower max_bytes content_length expect =
    if ltb_ℤ (pos 0) max_bytes && ltb_ℤ max_bytes content_length
    then (if text_eq (map lower (trim_space expect)) (codes "100-continue")
        then some 417
        else some 413)
    else none

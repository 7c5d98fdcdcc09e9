-- ===== src/Server/Precedence.antt =====
-- internal/server/override.go: which override of a parameter wins.
use token_route.Base.{
  ◌≡◌, refl, ◌∙◌, Bool, true, false, ◌&&◌, Option, none, some, List, [], ◌∷◌, arith, if◌then◌else◌,
  ap,
}
use token_route.Base.Text.{Text, text_eq, text_eq_iff}
use token_route.Base.Json.{Json, Fields, no_fields, field, member, set_field, delete_field}
use token_route.Config.Check.{has}
use token_route.Server.Override.{apply_deletes, apply_sets, param_ops, no_sets, no_names}

member-set_field :
    (k j : Text) (v : Json) (fs : Fields)
    → member j (set_field k v fs) ≡ (if text_eq k j then some v else member j fs)
unfolding member set_field
member-set_field k j v no_fields = refl
member-set_field k j v (field i w fs) =
    ground (arith, member-set_field k j v fs, text_eq_iff k j, text_eq_iff i k, text_eq_iff i j)

member-delete_field :
    (k j : Text) (fs : Fields)
    → member j (delete_field k fs) ≡ (if text_eq k j then none else member j fs)
unfolding member delete_field
member-delete_field k j no_fields = ground arith
member-delete_field k j (field i w fs) =
    ground (arith, member-delete_field k j fs, text_eq_iff k j, text_eq_iff i k, text_eq_iff i j)

-- The last value that a list of settings gives a key, or the old one.
abbrev pub latest : Text → Fields → Option Json → Option Json
latest j no_fields old = old
latest j (field k v sets) old = latest j sets (if text_eq k j then some v else old)

member-apply_sets :
    (j : Text) (sets fs : Fields) → member j (apply_sets sets fs) ≡ latest j sets (member j fs)
unfolding apply_sets
member-apply_sets j no_fields fs = refl
member-apply_sets j (field k v sets) fs =
    member-apply_sets j sets (set_field k v fs) ∙ ap (latest j sets) (member-set_field k j v fs)

member-apply_deletes :
    (j : Text) (ks : List Text) (fs : Fields)
    → member j (apply_deletes ks fs) ≡ (if has ks j then none else member j fs)
unfolding apply_deletes
member-apply_deletes j [] fs = refl
member-apply_deletes j (k ∷ ks) fs = ground (
  arith,
  member-apply_deletes j ks (delete_field k fs),
  member-delete_field k j fs,
  text_eq_iff k j,
  text_eq_iff j k,
)

abbrev pub member_of : Text → Option Fields → Option Json
member_of j none = none
member_of j (some fs) = member j fs

pick :
    (j : Text) (b : Bool) (x y : Fields)
    → (b ≡ true → x ≡ y)
    → member_of j (if b then some x else some y) ≡ member j y
pick j true x y h = ap (member j) (h refl)
pick j false x y h = refl

untouched :
    (sets : Fields) (dels : List Text) (wins body : Fields)
    → (no_sets sets && no_names dels && no_sets wins) ≡ true
    → body ≡ apply_sets wins (apply_sets sets (apply_deletes dels body))
unfolding apply_sets apply_deletes
untouched no_fields [] no_fields body h = refl
untouched no_fields [] (field k v wins) body h = cc
untouched no_fields (k ∷ dels) wins body h = cc
untouched (field k v sets) dels wins body h = cc

-- In an object body each parameter has the value that the candidate's settings give it; failing that
-- the one of the provider's settings; failing that none if the provider deletes it; and failing that
-- the value of the client. A body that is no object stays as it is.
pub member-param_ops :
    (j : Text) (provider_set : Fields) (provider_del : List Text) (candidate_set body : Fields)
    → (member_of j (param_ops provider_set provider_del candidate_set (some body))
        ≡ latest j candidate_set
            (latest j provider_set (if has provider_del j then none else member j body)))
      × (param_ops provider_set provider_del candidate_set none ≡ none)
unfolding param_ops
member-param_ops j provider_set provider_del candidate_set body = (
  pick j (no_sets provider_set && no_names provider_del && no_sets candidate_set) body _
        (untouched provider_set provider_del candidate_set body)
      ∙ (member-apply_sets j candidate_set
            (apply_sets provider_set (apply_deletes provider_del body))
          ∙ ap (latest j candidate_set) (
              member-apply_sets j provider_set (apply_deletes provider_del body)
              ∙ ap (latest j provider_set) (member-apply_deletes j provider_del body))),
  refl,
)

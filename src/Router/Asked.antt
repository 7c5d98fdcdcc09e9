-- ===== src/Router/Asked.antt =====
-- internal/router/capabilities.go: which medium a content block asks for, read off its type and its
-- MIME type.
use mathlib.Core.Path.{subst}
use token_route.Base.{
  ℕ, ◌≡◌, refl, sym, ap, ◌∙◌, arith, Bool, true, false, Bool-cases, ◌||◌, ◌&&◌, not, any, List, [],
  ◌∷◌, inl, inr, map, if◌then◌else◌,
}
use token_route.Base.Text.{Text, codes, text_eq, text_eq_iff, has_prefix}
use token_route.Base.Json.{Fields, text_member}
use token_route.RetryPolicy.Defs.{is_blank}
use token_route.Router.Media.{block_mime, mime_modality, block_modality}

abbrev image_types : List Text
image_types = codes "image_url" ∷ codes "image" ∷ codes "input_image" ∷ []

abbrev audio_types : List Text
audio_types = codes "input_audio" ∷ codes "audio_url" ∷ codes "audio" ∷ []

abbrev file_types : List Text
file_types = codes "file" ∷ codes "document" ∷ codes "input_file" ∷ []

abbrev among : List Text → Text → Bool
among types t = any (text_eq t) types

-- A medium is asked for by a type of its own or by a file of its MIME type; a file that is no image,
-- no sound and no film counts as a PDF.
abbrev asked_by : (x typ mime : Text) → Bool
asked_by x typ mime =
    text_eq x (codes "image")
      && (among image_types typ || among file_types typ && has_prefix mime (codes "image/"))
    || text_eq x (codes "audio")
      && (among audio_types typ || among file_types typ && has_prefix mime (codes "audio/"))
    || text_eq x (codes "video") && among file_types typ && has_prefix mime (codes "video/")
    || text_eq x (codes "pdf")
      && among file_types typ
      && not (
          has_prefix mime (codes "image/")
          || has_prefix mime (codes "audio/")
          || has_prefix mime (codes "video/"))

-- The first of the conditions that holds decides.
abbrev first_of {ℓ} : {A : Type ℓ} (i a f p q v : Bool) (image audio video pdf other : A) → A
first_of i a f p q v image audio video pdf other =
    if i
    then image
    else (if a
        then audio
        else (if f
            then (if p then image else (if q then audio else (if v then video else pdf)))
            else other))

exclusive_choice :
    (i a f p q v : Bool) (image audio video pdf : Bool)
    → (i && (a || f) || a && f) ≡ false
    → (p && (q || v) || q && v) ≡ false
    → first_of i a f p q v image audio video pdf false ≡ (
        image && (i || f && p)
        || audio && (a || f && q)
        || video && f && v
        || pdf && f && not (p || q || v))
exclusive_choice i a f p q v image audio video pdf h k = ground arith

types_exclusive :
    (t : Text)
    → (among image_types t && (among audio_types t || among file_types t)
        || among audio_types t && among file_types t)
      ≡ false
types_exclusive t = ground (
  arith,
  text_eq_iff t (codes "image_url"),
  text_eq_iff t (codes "image"),
  text_eq_iff t (codes "input_image"),
  text_eq_iff t (codes "input_audio"),
  text_eq_iff t (codes "audio_url"),
  text_eq_iff t (codes "audio"),
)

mimes_exclusive :
    (m : Text)
    → (has_prefix m (codes "image/")
          && (has_prefix m (codes "audio/") || has_prefix m (codes "video/"))
        || has_prefix m (codes "audio/") && has_prefix m (codes "video/"))
      ≡ false
unfolding has_prefix
mimes_exclusive [] = refl
mimes_exclusive (c ∷ m) = ground arith

-- The medium of a file with the MIME type.
abbrev file_media : Text → Text
file_media mime =
    if has_prefix mime (codes "image/")
    then codes "image"
    else (if has_prefix mime (codes "audio/")
        then codes "audio"
        else (if has_prefix mime (codes "video/") then codes "video" else codes "pdf"))

-- `mimeModality` of a MIME type in lower case.
abbrev medium_of : Text → Text
medium_of mime =
    if is_blank mime
    then []
    else (if has_prefix mime (codes "image/")
        then codes "image"
        else (if text_eq mime (codes "application/pdf")
            then codes "pdf"
            else (if has_prefix mime (codes "audio/")
                then codes "audio"
                else (if has_prefix mime (codes "video/") then codes "video" else []))))

choice_of_media :
    (p q v : Bool)
    → let medium =
        if p
        then codes "image"
        else (if q then codes "audio" else (if v then codes "video" else [])) in
      (if is_blank medium then codes "pdf" else medium) ≡ (
        if p
        then codes "image"
        else (if q then codes "audio" else (if v then codes "video" else codes "pdf")))
choice_of_media true q v = refl
choice_of_media false true v = refl
choice_of_media false false true = refl
choice_of_media false false false = refl

-- The fallback for a MIME type that names no medium.
abbrev NamedOrPdf : Text → Type 0
NamedOrPdf m = (if is_blank (medium_of m) then codes "pdf" else medium_of m) ≡ file_media m

pdf-NamedOrPdf : NamedOrPdf (codes "application/pdf")
unfolding has_prefix
pdf-NamedOrPdf = refl

no_medium : file_media [] ≡ codes "pdf"
unfolding has_prefix
no_medium = refl

named_medium : (m : Text) → NamedOrPdf m
named_medium [] = sym no_medium
named_medium (c ∷ m) = elim (Bool-cases (text_eq (c ∷ m) (codes "application/pdf"))) [
  | inl e ↦
      subst NamedOrPdf (sym ((text_eq_iff (c ∷ m) (codes "application/pdf")).0 e)) pdf-NamedOrPdf
  | inr n ↦ rw n (choice_of_media _ _ _)
]

module _ (lower : ℕ → ℕ) where
  -- The fields of a block: its type and the MIME type found in it, in lower case.
  abbrev pub asks : Text → Fields → Bool
  asks x b = asked_by x (map lower (text_member (codes "type") b)) (map lower (block_mime b))

  file_medium :
      (raw : Text)
      → (if is_blank (mime_modality lower raw) then codes "pdf" else mime_modality lower raw)
        ≡ file_media (map lower raw)
  unfolding mime_modality
  file_medium raw = named_medium (map lower raw)

  -- The code's choice of a medium is the first whose condition holds.
  block_modality-first_of :
      (b : Fields)
      → let typ = map lower (text_member (codes "type") b) in
        let mime = map lower (block_mime b) in
        block_modality lower b
        ≡ first_of
            (among image_types typ)
            (among audio_types typ)
            (among file_types typ)
            (has_prefix mime (codes "image/"))
            (has_prefix mime (codes "audio/"))
            (has_prefix mime (codes "video/"))
            (codes "image")
            (codes "audio")
            (codes "video")
            (codes "pdf")
            []
  unfolding block_modality
  block_modality-first_of b = let named = file_medium (block_mime b) in ground arith

  first_of-asks :
      (x : Text) (i a f p q v : Bool)
      → let medium =
          first_of i a f p q v (codes "image") (codes "audio") (codes "video") (codes "pdf") [] in
        not (is_blank medium) && text_eq x medium
        ≡ first_of i a f p q v
            (text_eq x (codes "image"))
            (text_eq x (codes "audio"))
            (text_eq x (codes "video"))
            (text_eq x (codes "pdf"))
            false
  first_of-asks x true a f p q v = refl
  first_of-asks x false true f p q v = refl
  first_of-asks x false false false p q v = refl
  first_of-asks x false false true true q v = refl
  first_of-asks x false false true false true v = refl
  first_of-asks x false false true false false true = refl
  first_of-asks x false false true false false false = refl

  pub block_modality-asks :
      (x : Text) (b : Fields)
      → not (is_blank (block_modality lower b)) && text_eq x (block_modality lower b) ≡ asks x b
  block_modality-asks x b =
      let typ = map lower (text_member (codes "type") b) in
      let mime = map lower (block_mime b) in
      ap (λ (m : Text). not (is_blank m) && text_eq x m) (block_modality-first_of b)
      ∙ first_of-asks x (among image_types typ) (among audio_types typ) (among file_types typ)
          (has_prefix mime (codes "image/")) (has_prefix mime (codes "audio/"))
          (has_prefix mime (codes "video/"))
      ∙ exclusive_choice (among image_types typ) (among audio_types typ) (among file_types typ)
          (has_prefix mime (codes "image/")) (has_prefix mime (codes "audio/"))
          (has_prefix mime (codes "video/")) (text_eq x (codes "image")) (text_eq x (codes "audio"))
          (text_eq x (codes "video")) (text_eq x (codes "pdf")) (types_exclusive typ)
          (mimes_exclusive mime)

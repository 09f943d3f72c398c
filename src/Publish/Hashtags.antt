-- ===== src/Publish/Hashtags.antt =====
-- Hashtags: reading a draft, adding its tags, and the form that the API takes.
use influence_platform.Prelude.{
  ℕ, ◌≡◌, ap₂, refl, inl, inr, Bool, true, false, ◌||◌, List, [], ◌∷◌, ◌++◌, map, Option, none,
  some, if◌then◌else◌, ◌==◌, any, All, arith, Bool-cases,
}
use influence_platform.Js.Text.{Text, codes, ◌===◌, truthy, trim, is_space, starts_with}
use influence_platform.Js.Trim.{===_iff}

-- `raw.replace(/^#+/, "")`
unfoldable pub strip_hashes : Text → Text
strip_hashes [] = []
strip_hashes (c ∷ s) = if c == b'#' then strip_hashes s else c ∷ s

unfoldable pub normalize_hashtag_token : Text → Option Text
unfolding strip_hashes
normalize_hashtag_token raw = let t = trim (strip_hashes raw) in if truthy t then some t else none

-- `value.split(/[,\s]+/)`: the unit before was a separator; an empty first or last part is kept.
abbrev is_separator : ℕ → Bool
is_separator c = c == b',' || is_space c

abbrev on_first : ℕ → List Text → List Text
on_first c [] = (c ∷ []) ∷ []
on_first c (p ∷ parts) = (c ∷ p) ∷ parts

unfoldable pub split_from : Bool → Text → List Text
split_from after [] = [] ∷ []
split_from after (c ∷ s) =
    let sep = is_separator c in
    let rest = split_from sep s in
    if sep then (if after then rest else [] ∷ rest) else on_first c rest

abbrev kept : Option Text → List Text → List Text
kept none ts = ts
kept (some t) ts = t ∷ ts

unfoldable pub normalize_all : List Text → List Text
normalize_all [] = []
normalize_all (p ∷ parts) = kept (normalize_hashtag_token p) (normalize_all parts)

unfoldable pub parse_hashtag_list : Text → List Text
unfolding split_from normalize_all normalize_hashtag_token
parse_hashtag_list value = normalize_all (split_from false value)

-- The loop of `addFromDraft` over the parts, from `[...tags]`.
unfoldable pub add_tags : List Text → List Text → List Text
add_tags next [] = next
add_tags next (p ∷ parts) =
    add_tags (if any (λ t. t === p) next then next else next ++ p ∷ []) parts

unfoldable pub add_from_draft : List Text → Text → List Text
unfolding add_tags parse_hashtag_list
add_from_draft tags draft = add_tags tags (parse_hashtag_list draft)

unfoldable pub format_hashtag : Text → Text
format_hashtag t = if starts_with t (codes "#") then t else b'#' ∷ t

unfoldable pub format_hashtags_for_api : List Text → List Text
unfolding format_hashtag
format_hashtags_for_api tags = map format_hashtag tags

-- No tag occurs twice.
abbrev pub AreDistinct : List Text → Type 0
AreDistinct [] = Unit
AreDistinct (t ∷ tags) = (any (λ u. u === t) tags ≡ false) × AreDistinct tags

any-append : (p : Text → Bool) (xs ys : List Text) → any p (xs ++ ys) ≡ (any p xs || any p ys)
any-append p [] ys = refl
any-append p (x ∷ xs) ys = ground (arith, any-append p xs ys)

AreDistinct-concat :
    (tags : List Text) (p : Text)
    → AreDistinct tags
    → any (λ t. t === p) tags ≡ false
    → AreDistinct (tags ++ p ∷ [])
AreDistinct-concat [] p d h = (refl, tt)
AreDistinct-concat (t ∷ tags) p (q, d) h = (
  ground (arith, any-append (λ u. u === t) tags (p ∷ []), ===_iff p t, ===_iff t p),
  AreDistinct-concat tags p d (ground arith),
)

add_tags-AreDistinct :
    (next parts : List Text) → AreDistinct next → AreDistinct (add_tags next parts)
unfolding add_tags
add_tags-AreDistinct next [] d = d
add_tags-AreDistinct next (p ∷ parts) d = elim (Bool-cases (any (λ t. t === p) next)) [
  | inl e ↦ rw e (add_tags-AreDistinct next parts d)
  | inr e ↦ rw e (add_tags-AreDistinct (next ++ p ∷ []) parts (AreDistinct-concat next p d e))
]

-- Adding a draft's tags to distinct tags leaves them distinct.
add_from_draft-AreDistinct :
    (tags : List Text) (draft : Text) → AreDistinct tags → AreDistinct (add_from_draft tags draft)
unfolding add_from_draft
add_from_draft-AreDistinct tags draft d = add_tags-AreDistinct tags (parse_hashtag_list draft) d

add_tags-keeps :
    (next parts : List Text) (t : Text)
    → any (λ u. u === t) (add_tags next parts)
      ≡ (any (λ u. u === t) next || any (λ u. u === t) parts)
unfolding add_tags
add_tags-keeps next [] t = ground arith
add_tags-keeps next (p ∷ parts) t = elim (Bool-cases (any (λ u. u === p) next)) [
  | inl e ↦
      let there : p === t ≡ true → any (λ u. u === t) next ≡ true =
        λ q. rw ((===_iff p t).0 q) at e in
      rw e (ground (arith, add_tags-keeps next parts t, there))
  | inr e ↦ rw e (
      ground
        (arith, add_tags-keeps (next ++ p ∷ []) parts t, any-append (λ u. u === t) next (p ∷ [])))
]

-- The tags after adding a draft are the tags before and those that the draft is read as, no others.
add_from_draft_tags :
    (tags : List Text) (draft t : Text)
    → any (λ u. u === t) (add_from_draft tags draft)
      ≡ (any (λ u. u === t) tags || any (λ u. u === t) (parse_hashtag_list draft))
unfolding add_from_draft
add_from_draft_tags tags draft t = add_tags-keeps tags (parse_hashtag_list draft) t

format_hashtag-starts : (t : Text) → starts_with (format_hashtag t) (codes "#") ≡ true
unfolding format_hashtag
format_hashtag-starts t = elim (Bool-cases (starts_with t (codes "#"))) [
  | inl e ↦ rw e e
  | inr e ↦ rw e (unfold starts_with in refl)
]

-- Every tag that is sent begins with a hash, and formatting the tags again changes nothing.
format_hashtags_lem :
    (tags : List Text)
    → All (λ t. starts_with t (codes "#") ≡ true) (format_hashtags_for_api tags)
      × (format_hashtags_for_api (format_hashtags_for_api tags) ≡ format_hashtags_for_api tags)
unfolding format_hashtags_for_api
format_hashtags_lem [] = (tt, refl)
format_hashtags_lem (t ∷ tags) =
    let (all, same) = format_hashtags_lem tags in
    let first = format_hashtag-starts t in
    ((first, all), ap₂ (λ u us. u ∷ us) (rw (first) refl) same)

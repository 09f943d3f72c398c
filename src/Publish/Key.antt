-- ===== src/Publish/Key.antt =====
-- The idempotency key of a publish intent, and the payload that carries it.
use influence_platform.Prelude.{
  ℕ, ◌≡◌, refl, ap₂, ◌∙◌, Bool, true, false, List, [], ◌∷◌, ◌++◌, Option, none, some, if◌then◌else◌,
  ltb, arith,
}
use mathlib.Core.List.{Perm, Permᴰ, append_assoc}
use mathlib.Core.Logic.{∥∥₁_elim}
use native.Mathlib.Nat.{ℕ_set}
use influence_platform.Js.Text.{Text, codes, trim, join, decimal, starts_with}
use influence_platform.Publish.{
  ContentType, content_type_text, PublishMode, scheduled, save_for_later, Form, final_content_type,
  resolve_payload_mode,
}
use influence_platform.Publish.Hashtags.{format_hashtags_for_api}

-- The order of texts by code units, `<=`.
unfoldable pub text_leb : Text → Text → Bool
text_leb [] t = true
text_leb (c ∷ s) [] = false
text_leb (c ∷ s) (d ∷ t) = if ltb c d then true else if ltb d c then false else text_leb s t

abbrev insert : Text → List Text → List Text
insert x [] = x ∷ []
insert x (y ∷ ys) = if text_leb x y then x ∷ y ∷ ys else y ∷ insert x ys

-- `[...xs].sort()`
unfoldable pub sort : List Text → List Text
sort [] = []
sort (x ∷ xs) = insert x (sort xs)

-- The suffix of the key for a mode.
abbrev key_suffix : PublishMode → Option ℕ → Text
key_suffix scheduled (some t) = codes "-sched-" ++ decimal t
key_suffix save_for_later _ = codes "-draft"
key_suffix _ _ = codes "-now"

unfoldable pub build_publish_idempotency_key : Form → PublishMode → Text
unfolding sort
build_publish_idempotency_key form payload_mode =
    let account_key = join (codes ",") (sort form.selected_accounts) in
    let hashtags_key = join (codes ",") (format_hashtags_for_api form.hashtag_tags) in
    codes "studio-"
    ++ form.job_id
    ++ codes "-"
    ++ form.selected_asset_id
    ++ codes "-"
    ++ content_type_text (final_content_type form)
    ++ codes "-"
    ++ account_key
    ++ codes "-"
    ++ trim form.caption
    ++ codes "-"
    ++ hashtags_key
    ++ key_suffix payload_mode form.scheduled_for

-- `scheduled_for` is the time that `toISOString` writes.
pub record IntentPayload : Type 0 where
  pub asset_id : Text
  pub content_type : ContentType
  pub caption : Text
  pub hashtags : List Text
  pub mode : PublishMode
  pub scheduled_for : Option ℕ
  pub target_account_ids : List Text
  pub idempotency_key : Text

abbrev pub schedule_of : PublishMode → Option ℕ → Option ℕ
schedule_of scheduled time = time
schedule_of _ time = none

unfoldable pub build_intent_payload : Form → PublishMode → IntentPayload
build_intent_payload form payload_mode =
    let mode = resolve_payload_mode payload_mode form.scheduled_for in
    record {
      asset_id = form.selected_asset_id;
      content_type = final_content_type form;
      caption = trim form.caption;
      hashtags = format_hashtags_for_api form.hashtag_tags;
      mode = mode;
      scheduled_for = schedule_of mode form.scheduled_for;
      target_account_ids = form.selected_accounts;
      idempotency_key = build_publish_idempotency_key form mode;
    }

text_leb_total : (s t : Text) → text_leb s t ≡ false → text_leb t s ≡ true
unfolding text_leb
text_leb_total [] t h = cc
text_leb_total (c ∷ s) [] h = refl
text_leb_total (c ∷ s) (d ∷ t) h = ground (arith, text_leb_total s t)

text_leb_antisym : (s t : Text) → text_leb s t ≡ true → text_leb t s ≡ true → s ≡ t
unfolding text_leb
text_leb_antisym [] [] h k = refl
text_leb_antisym [] (d ∷ t) h k = cc
text_leb_antisym (c ∷ s) [] h k = cc
text_leb_antisym (c ∷ s) (d ∷ t) h k = ground (arith, text_leb_antisym s t)

text_leb_trans : (s t u : Text) → text_leb s t ≡ true → text_leb t u ≡ true → text_leb s u ≡ true
unfolding text_leb
text_leb_trans [] t u h k = refl
text_leb_trans (c ∷ s) [] u h k = cc
text_leb_trans (c ∷ s) (d ∷ t) [] h k = cc
text_leb_trans (c ∷ s) (d ∷ t) (e ∷ u) h k = ground (arith, text_leb_trans s t u)

-- Two insertions commute.
insert_comm : (x y : Text) (zs : List Text) → insert x (insert y zs) ≡ insert y (insert x zs)
insert_comm x y [] = ground (arith, text_leb_total x y, text_leb_antisym x y)
insert_comm x y (z ∷ zs) = ground (
  arith,
  text_leb_total x y,
  text_leb_antisym x y,
  text_leb_total x z,
  text_leb_total y z,
  text_leb_trans x y z,
  text_leb_trans y x z,
  insert_comm x y zs,
)

sort-permᴰ : {xs ys : List Text} → Permᴰ xs ys → sort xs ≡ sort ys
unfolding sort
sort-permᴰ Permᴰ.nil = refl
sort-permᴰ (Permᴰ.cons e p) = ap₂ insert e (sort-permᴰ p)
sort-permᴰ (Permᴰ.swap {l} e f) =
    insert_comm _ _ (sort l) ∙ ap₂ (λ x y. insert x (insert y (sort l))) f e
sort-permᴰ (Permᴰ.trans p q) = sort-permᴰ p ∙ sort-permᴰ q

Text-list-set : IsSet (List Text)
Text-list-set = hlevel ℕ_set

-- Sorting forgets the order.
sort-perm : {xs ys : List Text} → Perm xs ys → sort xs ≡ sort ys
sort-perm p = ∥∥₁_elim p (Text-list-set _ _) sort-permᴰ

-- The idempotency key of a form does not depend on the order in which the accounts were selected.
pub key_ignores_order :
    (form : Form) (accounts : List Text) (mode : PublishMode)
    → Perm form.selected_accounts accounts
    → build_publish_idempotency_key form mode
      ≡ build_publish_idempotency_key (record form { selected_accounts = accounts }) mode
unfolding build_publish_idempotency_key final_content_type
key_ignores_order form accounts mode p = rw (sort-perm p)

-- Two forms with different captions and hashtags can have one key, since the parts of the key are
-- joined by dashes that they may hold themselves: a caption that ends in a dash and a hashtag, with
-- no tags, and the caption without it, with the tag and a dash.
key_collides :
    (form : Form) (caption tag : Text) (mode : PublishMode)
    → trim caption ≡ caption
    → trim (caption ++ codes "-#" ++ tag) ≡ caption ++ codes "-#" ++ tag
    → starts_with (tag ++ codes "-") (codes "#") ≡ false
    → build_publish_idempotency_key
        (record form { caption = caption ++ codes "-#" ++ tag; hashtag_tags = [] })
        mode
      ≡ build_publish_idempotency_key
          (record form { caption = caption; hashtag_tags = (tag ++ codes "-") ∷ [] })
          mode
unfolding build_publish_idempotency_key final_content_type format_hashtags_for_api join
key_collides form caption tag mode h k l = rw (h, k, l) (simp append_assoc)

-- ===== src/Dock/Title.antt =====
-- The titles of the dock: within their length, and never empty when the job has a text of its own.
use influence_platform.Prelude.{
  ℕ, zero, suc, ◌≡◌, refl, sym, ◌∙◌, ◌⊎◌, inl, inr, Bool, true, false, Option, none, some, [], ◌∷◌,
  ◌++◌, arith, ◌<◌, ◌≤◌, ◌-◌, length, take, length-take, length-append, Bool-cases, or_else, ltb,
}
use influence_platform.Js.Text.{Text, codes, truthy, trim, is_space}
use influence_platform.Js.Trim.{has_solid, truthy-trim, trim_idem}
use influence_platform.Js.Unknown.{to_string, or_text}
use influence_platform.JobProgress.{get_key}
use influence_platform.Dock.{
  TitledJob, collapse_from, ellipsis, truncate_title, title_length, has_text, payload_text,
  resolve_tracked_job_title,
}

length-ellipsis : (t : Text) (most : ℕ) → 0 < most → length (ellipsis t most) ≤ most
length-ellipsis t most h = elim (Bool-cases (ltb most (length t))) [
  | inl e ↦
      rw e (omega (arith, length-append (take (most - 1) t) (codes "…"), length-take (most - 1) t))
  | inr e ↦ rw e (ground arith)
]

-- A title has at most the given number of code units, the ellipsis included.
length-truncate_title :
    (value : Text) (most : ℕ) → 0 < most → length (truncate_title value most) ≤ most
unfolding truncate_title
length-truncate_title value most h =
    let t = trim (collapse_from false value) in ground (arith, length-ellipsis t most h)

space-is_space : is_space b' ' ≡ true
unfolding is_space
space-is_space = refl

has_solid-collapse_from :
    (spaced : Bool) (s : Text) → has_solid (collapse_from spaced s) ≡ has_solid s
unfolding collapse_from
has_solid-collapse_from spaced [] = refl
has_solid-collapse_from spaced (c ∷ s) =
    ground (arith, space-is_space, has_solid-collapse_from true s, has_solid-collapse_from false s)

truthy-take : (n c : ℕ) (t u : Text) → 0 < n → truthy (take n (c ∷ t) ++ u) ≡ true
truthy-take zero c t u h = absurd (omega arith)
truthy-take (suc n) c t u h = refl

truthy-ellipsis :
    (t : Text) (most : ℕ) → 1 < most → truthy t ≡ true → truthy (ellipsis t most) ≡ true
truthy-ellipsis [] most h k = cc
truthy-ellipsis (c ∷ t) most h k =
    ground (arith, truthy-take (most - 1) c t (codes "…") (omega arith))

-- A value with some unit that is no space keeps a title.
truthy-truncate_title :
    (value : Text) (most : ℕ)
    → 1 < most
    → truthy (trim value) ≡ true
    → truthy (truncate_title value most) ≡ true
unfolding truncate_title
truthy-truncate_title value most h k =
    let t = trim (collapse_from false value) in
    let kept : truthy t ≡ true =
      truthy-trim (collapse_from false value)
      ∙ has_solid-collapse_from false value
      ∙ sym (truthy-trim value)
      ∙ k in
    rw kept (truthy-ellipsis t most h kept)

-- What the job says of itself: its title, caption or topic, or one of the payload's texts.
abbrev pub HasOwnText : TitledJob → Type 0
HasOwnText job =
    (has_text job.queue_display_title ≡ true)
    ⊎ (has_text job.caption ≡ true)
    ⊎ (has_text job.topic ≡ true)
    ⊎ (truthy (payload_text (or_else job.input_payload []) (codes "caption")) ≡ true)
    ⊎ (truthy (payload_text (or_else job.input_payload []) (codes "topic")) ≡ true)
    ⊎ (truthy (payload_text (or_else job.input_payload []) (codes "niche")) ≡ true)

-- A title that a dock entry may show.
abbrev pub IsGoodTitle : Text → Type 0
IsGoodTitle t = (truthy t ≡ true) × (length t ≤ title_length)

good : (value : Text) → truthy (trim value) ≡ true → IsGoodTitle (truncate_title value title_length)
good value h = (
  truthy-truncate_title value title_length (omega arith) h,
  length-truncate_title value title_length (omega arith),
)

good_option :
    (value : Option Text)
    → has_text value ≡ true
    → IsGoodTitle (truncate_title (or_else value []) title_length)
good_option none h = cc
good_option (some s) h = good s h

good_trimmed :
    (s : Text) → truthy (trim s) ≡ true → IsGoodTitle (truncate_title (trim s) title_length)
good_trimmed s h = good (trim s) (rw (trim_idem s) h)

-- If the job has a text of its own, its title is not empty and has at most 52 code units.
resolve_title-IsGoodTitle :
    (job : TitledJob) (fallback : Text)
    → HasOwnText job
    → IsGoodTitle (resolve_tracked_job_title job fallback)
unfolding resolve_tracked_job_title
resolve_title-IsGoodTitle job fallback h =
    let payload = or_else job.input_payload [] in
    let raw = λ (key : Text). to_string (or_text (get_key key payload) []) in
    ground (
      arith,
      good_option job.queue_display_title,
      good_option job.caption,
      good_option job.topic,
      good_trimmed (raw (codes "caption")),
      good_trimmed (raw (codes "topic")),
      good_trimmed (raw (codes "niche")),
    )

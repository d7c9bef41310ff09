-- ===== src/Errors/Stages.antt =====
-- The stage of a failure: where it is named, and what naming it leaves alone.
use brevyn_cloud.Base.{
  ℕ, ◌≡◌, refl, ap, false, ◌||◌, Option, none, some, Text, arith, is_blank, trim_space,
  trim_space_idem, to_lower, Bool-cases, inl, inr,
}
use brevyn_cloud.Errors.{
  Info, Err, stage_error, classify, classify_stage, classify_answer, classify_status, classify_text,
  with_stage, unknown_info, error_text, is_context_error, is_network_timeout, status_code,
}

abbrev at_stage : Text → Info → Info
at_stage s info = record info { stage = s }

text_at_stage :
    (lower s : Text) (info : Info)
    → classify_text lower (at_stage s info) ≡ at_stage s (classify_text lower info)
unfolding classify_text
text_at_stage lower s info = ground arith

status_at_stage :
    (status : ℕ) (s : Text) (info : Info)
    → classify_status status (at_stage s info)
      ≡ elim (classify_status status info) [ none ↦ none | some a ↦ some (at_stage s a) ]
unfolding classify_status
status_at_stage status s info = ground arith

answer_at_stage :
    (status : Option ℕ) (s : Text) (info : Info)
    → classify_answer status (at_stage s info) ≡ at_stage s (classify_answer status info)
unfolding classify_answer
answer_at_stage none s info = text_at_stage (to_lower info.detail) s info
answer_at_stage (some status) s info =
    ground (arith, status_at_stage status s info, text_at_stage (to_lower info.detail) s info)

stage-answer : (status : Option ℕ) (info : Info) → (classify_answer status info).stage ≡ info.stage
stage-answer status info = ap (λ (i : Info). i.stage) (answer_at_stage status info.stage info)

stage-classify :
    (default_stage : Text) (e : Err)
    → (classify default_stage (some e)).stage ≡ classify_stage default_stage e
unfolding classify
stage-classify default_stage e = elim (Bool-cases (is_context_error e || is_network_timeout e)) [
  | inl p ↦ rw p refl
  | inr p ↦ rw p (stage-answer (status_code e) (unknown_info (classify_stage default_stage e) e))
]

-- Every reported failure names a stage.
pub classify_stage_not_blank :
    (default_stage : Text) (e : Err) → is_blank (classify default_stage (some e)).stage ≡ false
unfolding classify_stage is_blank
classify_stage_not_blank default_stage e = rw stage-classify (ground arith)

stage_of_staged :
    (default_stage stage : Text) (e : Err)
    → is_blank (trim_space stage) ≡ false
    → classify_stage default_stage (stage_error (trim_space stage) e) ≡ trim_space stage
unfolding classify_stage
stage_of_staged default_stage stage e h = rw (trim_space_idem, h, h)

-- Naming the stage of an error changes the stage of its report, and nothing else: the stage is the
-- given one without its outer spaces, if that leaves any text.
pub classify-with_stage :
    (default_stage stage : Text) (e : Err)
    → is_blank (trim_space stage) ≡ false
    → classify default_stage (with_stage stage (some e))
      ≡ record (classify default_stage (some e)) { stage = trim_space stage }
unfolding classify with_stage error_text is_context_error is_network_timeout status_code
classify-with_stage default_stage stage e h =
    rw (stage_of_staged default_stage stage e h)
      (elim (Bool-cases (is_context_error e || is_network_timeout e)) [
        | inl p ↦ rw p refl
        | inr p ↦ rw p (
            answer_at_stage (status_code e) (trim_space stage)
              (unknown_info (classify_stage default_stage e) e))
      ])

-- ===== src/Provider/Validate.antt =====
-- validate.go: the checks of questions and answers. A Go `error` is an `Option Error`; `none` is nil.
use ruleraven.Common.{
  ℕ, zero, suc, ◌/◌, ◌%◌, String, ◌<>◌, ◌==◌, Bool, not, ◌&&◌, ◌||◌, Option, none, some, List, [],
  ◌∷◌, length, is_empty, any, contains, is_some, if◌then◌else◌, ltb, eqb, trim_space,
}
use ruleraven.Common.Checks.{◌orelse◌, fail_if, first_error}
use ruleraven.Common.Maps.{Map, lookup, keys}
use ruleraven.Common.Sort.{sort_strings}
use ruleraven.Provider.Float.{Float64}
use ruleraven.Provider.Question.{
  QuestionType, question_type_noul, question_type_choice, question_type_score, question_type_other,
  same_type, Question, Answer, zero_question,
}

-- The errors of the file, by what they complain of; the texts of `fmt.Errorf` are left out.
pub data Error : Type 0 where
  no_questions blank_question_id : Error
  blank_instructions has_levels bad_noul_criteria missing_true missing_false : String → Error
  few_choices blank_choice has_criteria few_levels blank_level : String → Error
  duplicate_level unknown_type : String → String → Error
  invalid_questions : Error → Error
  unknown_answer missing_answer type_mismatch : String → Error
  of_answer : String → Error → Error
  value_required not_finite out_of_range foreign_field : Error
  confidence_required unknown_choice not_highest : Error
  legend_size legend_missing legend_duplicate legend_wrong : Error
  distribution_size distribution_key distribution_sum weighted_mismatch : Error

abbrev pub is_blank : String → Bool
is_blank s = trim_space s == ""

unfoldable pub level_errors : String → List String → List String → Option Error
level_errors id [] seen = none
level_errors id (level ∷ levels) seen =
    fail_if (is_blank level) (blank_level id)
    orelse fail_if (contains seen level) (duplicate_level id level)
    orelse level_errors id levels (level ∷ seen)

unfoldable pub noul_question_error : String → Question → Option Error
noul_question_error id q =
    fail_if (not (is_empty q.levels)) (has_levels id)
    orelse (if is_empty q.criteria
        then none
        else fail_if (not (eqb (length q.criteria) 2)) (bad_noul_criteria id)
          orelse fail_if (not (is_some (lookup "true" q.criteria))) (missing_true id)
          orelse fail_if (not (is_some (lookup "false" q.criteria))) (missing_false id))

unfoldable pub choice_question_error : String → Question → Option Error
choice_question_error id q =
    fail_if (not (is_empty q.levels)) (has_levels id)
    orelse fail_if (ltb (length q.criteria) 2) (few_choices id)
    orelse fail_if (any is_blank (keys q.criteria)) (blank_choice id)

unfoldable pub score_question_error : String → Question → Option Error
score_question_error id q =
    fail_if (not (is_empty q.criteria)) (has_criteria id)
    orelse fail_if (ltb (length q.levels) 2) (few_levels id)
    orelse level_errors id q.levels []

abbrev pub typed_question_error : QuestionType → String → Question → Option Error
typed_question_error question_type_noul id q = noul_question_error id q
typed_question_error question_type_choice id q = choice_question_error id q
typed_question_error question_type_score id q = score_question_error id q
typed_question_error (question_type_other t) id q = some (unknown_type id t)

-- `questions[id]`
abbrev pub question_at : Map Question → String → Question
question_at questions id = elim (lookup id questions) [ none ↦ zero_question | some q ↦ q ]

unfoldable pub question_error : Map Question → String → Option Error
question_error questions id =
    let q = question_at questions id in
    fail_if (is_blank id) blank_question_id
    orelse fail_if (is_blank q.instructions) (blank_instructions id)
    orelse typed_question_error q.type id q

-- `sortedQuestionIDs` and `sortedAnswerIDs`
unfoldable pub sorted_ids {ℓ} : {V : Type ℓ} → Map V → List String
sorted_ids m = sort_strings (keys m)

unfoldable pub validate_questions : Map Question → Option Error
validate_questions questions =
    fail_if (is_empty questions) no_questions
    orelse first_error (question_error questions) (sorted_ids questions)

abbrev digit : ℕ → String
digit n =
    if eqb n 0
    then "0"
    else if eqb n 1
    then "1"
    else if eqb n 2
    then "2"
    else if eqb n 3
    then "3"
    else if eqb n 4
    then "4"
    else if eqb n 5
    then "5"
    else if eqb n 6
    then "6"
    else if eqb n 7
    then "7"
    else if eqb n 8
    then "8"
    else "9"

-- `strconv.Itoa`: a number below the fuel has fewer digits than the fuel.
itoa_fuel : ℕ → ℕ → String
itoa_fuel zero n = ""
itoa_fuel (suc f) n =
    let more = itoa_fuel f (n / 10) <> digit (n % 10) in if ltb n 10 then digit n else more

unfoldable pub itoa : ℕ → String
unfolding itoa_fuel
itoa n = itoa_fuel (suc n) n

module _ (fl : Float64) where
  open fl use {F, lt, add, sub, mul, abs, is_nan, is_inf, decimal}

  unfoldable pub is_finite : F → Bool
  is_finite x = not (is_nan x) && not (is_inf x)

  unfoldable pub validate_unit_value : F → Option Error
  validate_unit_value x =
      fail_if (not (is_finite x)) not_finite
      orelse fail_if (lt x (decimal 0 0) || lt (decimal 1 0) x) out_of_range

  unfoldable pub validate_noul_answer : Answer F → Option Error
  validate_noul_answer a = elim a.noul [
    | none ↦ some value_required
    | some x ↦
        validate_unit_value x
        orelse fail_if (not (a.choice == "")) foreign_field
        orelse fail_if (is_some a.score) foreign_field
        orelse fail_if (not (is_empty a.legend)) foreign_field
        orelse fail_if (not (is_empty a.probabilities)) foreign_field
        orelse fail_if (is_some a.confidence) foreign_field
  ]

  unfoldable pub validate_confidence : Option F → Option Error
  validate_confidence none = some confidence_required
  validate_confidence (some x) = validate_unit_value x

  -- The loop over the probabilities, with the sum so far, and the test of the sum behind it.
  unfoldable pub distribution_loop : List String → Map F → F → Option Error
  distribution_loop expected [] sum =
      fail_if (lt (decimal 1 9) (abs (sub sum (decimal 1 0)))) distribution_sum
  distribution_loop expected ((key, p) ∷ rest) sum =
      fail_if (not (contains expected key)) distribution_key
      orelse fail_if (not (is_finite p)) not_finite
      orelse fail_if (lt p (decimal 0 0) || lt (decimal 1 0) p) out_of_range
      orelse distribution_loop expected rest (add sum p)

  unfoldable pub validate_distribution : List String → Map F → Option Error
  validate_distribution expected_keys probabilities =
      fail_if (not (eqb (length probabilities) (length expected_keys))) distribution_size
      orelse distribution_loop expected_keys probabilities (decimal 0 0)

  -- `answer.Probabilities[key]`
  abbrev pub probability_at : Map F → String → F
  probability_at probabilities key = elim (lookup key probabilities) [
    | none ↦ decimal 0 0
    | some p ↦ p
  ]

  unfoldable pub validate_choice_answer : Question → Answer F → Option Error
  validate_choice_answer q a =
      fail_if (is_some a.noul || is_some a.score || not (is_empty a.legend)) foreign_field
      orelse fail_if (not (is_some (lookup a.choice q.criteria))) unknown_choice
      orelse validate_confidence a.confidence
      orelse validate_distribution (sort_strings (keys q.criteria)) a.probabilities
      orelse fail_if
          (any (λ (_, p). lt (add (probability_at a.probabilities a.choice) (decimal 1 9)) p)
            a.probabilities)
          not_highest

  -- The loop over the levels, from an index and with the legend values seen so far.
  unfoldable pub legend_errors : Map String → List String → ℕ → List String → Option Error
  legend_errors legend [] index seen = none
  legend_errors legend (expected ∷ levels) index seen = elim (lookup (itoa index) legend) [
    | none ↦ some legend_missing
    | some actual ↦
        fail_if (contains seen actual) legend_duplicate
        orelse fail_if (not (actual == expected)) legend_wrong
        orelse legend_errors legend levels (suc index) (actual ∷ seen)
  ]

  abbrev pub level_keys : List String → ℕ → List String
  level_keys [] index = []
  level_keys (level ∷ levels) index = itoa index ∷ level_keys levels (suc index)

  -- `float64(len(levels) - 1)`
  abbrev pub top_level : List String → F
  top_level [] = sub (decimal 0 0) (decimal 1 0)
  top_level (level ∷ levels) = decimal (length levels) 0

  unfoldable pub weighted_sum : Map F → List String → ℕ → F → F
  weighted_sum probabilities [] index sum = sum
  weighted_sum probabilities (key ∷ ks) index sum =
      weighted_sum probabilities ks (suc index)
        (add sum (mul (decimal index 0) (probability_at probabilities key)))

  unfoldable pub validate_score_answer : Question → Answer F → Option Error
  validate_score_answer q a =
      fail_if (is_some a.noul || not (a.choice == "")) foreign_field orelse elim a.score [
        | none ↦ some value_required
        | some x ↦
            fail_if (not (is_finite x)) not_finite
            orelse fail_if (lt x (decimal 0 0) || lt (top_level q.levels) x) out_of_range
            orelse validate_confidence a.confidence
            orelse fail_if (not (eqb (length a.legend) (length q.levels))) legend_size
            orelse legend_errors a.legend q.levels 0 []
            orelse validate_distribution (level_keys q.levels 0) a.probabilities
            orelse fail_if
                (lt (decimal 1 6) (
                  abs
                    (sub (weighted_sum a.probabilities (level_keys q.levels 0) 0 (decimal 0 0)) x)))
                weighted_mismatch
      ]

  abbrev pub typed_answer_error : QuestionType → Question → Answer F → Option Error
  typed_answer_error question_type_noul q a = validate_noul_answer a
  typed_answer_error question_type_choice q a = validate_choice_answer q a
  typed_answer_error question_type_score q a = validate_score_answer q a
  typed_answer_error (question_type_other t) q a = none

  abbrev pub in_answer : String → Option Error → Option Error
  in_answer id none = none
  in_answer id (some e) = some (of_answer id e)

  unfoldable pub answer_error : Map Question → Map (Answer F) → String → Option Error
  answer_error questions answers id =
      let q = question_at questions id in
      elim (lookup id answers) [
        | none ↦ some (missing_answer id)
        | some a ↦
            fail_if (not (same_type a.type q.type)) (type_mismatch id)
            orelse in_answer id (typed_answer_error q.type q a)
      ]

  abbrev pub in_questions : Option Error → Option Error
  in_questions none = none
  in_questions (some e) = some (invalid_questions e)

  abbrev pub unknown_id : Map Question → String → Option Error
  unknown_id questions id = fail_if (not (is_some (lookup id questions))) (unknown_answer id)

  unfoldable pub validate_answers : Map Question → Map (Answer F) → Option Error
  validate_answers questions answers =
      in_questions (validate_questions questions)
      orelse first_error (unknown_id questions) (sorted_ids answers)
      orelse first_error (answer_error questions answers) (sorted_ids questions)

-- ===== src/Provider/Sound.antt =====
-- What the validation of answers guarantees once it passes.
use ruleraven.Common.{
  ◌≡◌, refl, ℕ, suc, String, ◌==◌, eq_iff, true, false, Option, none, some, List, [], ◌∷◌, All,
  length, any, contains, is_some, arith, Bool-cases, Option-cases, inl, inr, ltb_text,
}
use ruleraven.Common.Checks.{first_error, first_error-All}
use ruleraven.Common.Maps.{Map, lookup, keys}
use mathlib.Core.Path.{subst}
use ruleraven.Common.Sort.{sort_strings, sort_by-All_of}
use ruleraven.Provider.Float.{Float64}
use ruleraven.Provider.Question.{
  QuestionType, question_type_noul, question_type_choice, question_type_score, question_type_other,
  same_type, Question, Answer,
}
use ruleraven.Provider.Validate.{
  Error, question_at, sorted_ids, is_finite, validate_unit_value, validate_noul_answer,
  validate_confidence, distribution_loop, validate_distribution, validate_choice_answer,
  legend_errors, itoa, level_keys, top_level, weighted_sum, probability_at, validate_score_answer,
  typed_answer_error, answer_error, unknown_id, validate_answers, validate_questions,
}

pub All-contains {κ} :
    (P : String → Type κ) (xs : List String) (s : String) → All P xs → contains xs s ≡ true → P s
All-contains P [] s h k = absurd (cc)
All-contains P (x ∷ xs) s h k = elim (Bool-cases (x == s)) [
  | inl e ↦ subst P ((eq_iff x s).0 e) h.0
  | inr e ↦ All-contains P xs s h.1 (rw e at k)
]

pub sorted_ids-All {ℓ κ} :
    {V : Type ℓ} (P : String → Type κ) (m : Map V) → All P (sorted_ids m) → All P (keys m)
unfolding sorted_ids sort_strings
sorted_ids-All P m h = sort_by-All_of ltb_text P (keys m) h

module _ (fl : Float64) where
  open fl use {F, lt, add, sub, abs, is_nan, is_inf, decimal}

  -- Finite and between 0 and 1.
  pub record IsUnit (x : F) : Type 0 where
    pub finite : is_finite fl x ≡ true
    pub not_below : lt x (decimal 0 0) ≡ false
    pub not_above : lt (decimal 1 0) x ≡ false

  pub record IsNoulAnswer (a : Answer F) : Type 0 where
    pub value : (x : F) × (a.noul ≡ some x) × IsUnit x
    pub choice : a.choice ≡ ""
    pub score : a.score ≡ none
    pub legend : a.legend ≡ []
    pub probabilities : a.probabilities ≡ []
    pub confidence : a.confidence ≡ none

  -- The values of a map added to a sum, in the order of the map.
  abbrev pub total : Map F → F → F
  total [] sum = sum
  total ((k, p) ∷ m) sum = total m (add sum p)

  -- At most a billionth away from one.
  abbrev pub IsOne : F → Type 0
  IsOne sum = lt (decimal 1 9) (abs (sub sum (decimal 1 0))) ≡ false

  -- Every key is expected, every value is a probability, and together they are one.
  abbrev pub IsDistribution : List String → Map F → Type 0
  IsDistribution expected m =
      All (λ (k, p). (contains expected k ≡ true) × IsUnit p) m × IsOne (total m (decimal 0 0))

  pub record IsChoiceAnswer (q : Question) (a : Answer F) : Type 0 where
    pub known : is_some (lookup a.choice q.criteria) ≡ true
    pub noul : a.noul ≡ none
    pub score : a.score ≡ none
    pub legend : a.legend ≡ []
    pub confidence : (x : F) × (a.confidence ≡ some x) × IsUnit x
    pub size : length a.probabilities ≡ length (sort_strings (keys q.criteria))
    pub probabilities : IsDistribution (sort_strings (keys q.criteria)) a.probabilities
    pub highest :
        All
          (λ (k, p). lt (add (probability_at fl a.probabilities a.choice) (decimal 1 9)) p ≡ false)
          a.probabilities

  -- Every level stands in the legend under its index.
  abbrev pub IsLegend : Map String → List String → ℕ → Type 0
  IsLegend legend [] index = Unit
  IsLegend legend (level ∷ levels) index =
      (lookup (itoa index) legend ≡ some level) × IsLegend legend levels (suc index)

  pub record IsScoreAnswer (q : Question) (a : Answer F) : Type 0 where
    pub value :
        (x : F) × (a.score ≡ some x)
        × (is_finite fl x ≡ true)
        × (lt x (decimal 0 0) ≡ false)
        × (lt (top_level fl q.levels) x ≡ false)
        × (lt (decimal 1 6) (
              abs (
                sub (weighted_sum fl a.probabilities (level_keys fl q.levels 0) 0 (decimal 0 0)) x))
            ≡ false)
    pub noul : a.noul ≡ none
    pub choice : a.choice ≡ ""
    pub confidence : (x : F) × (a.confidence ≡ some x) × IsUnit x
    pub legend : IsLegend a.legend q.levels 0
    pub legend_size : length a.legend ≡ length q.levels
    pub size : length a.probabilities ≡ length (level_keys fl q.levels 0)
    pub probabilities : IsDistribution (level_keys fl q.levels 0) a.probabilities

  abbrev pub Fits : QuestionType → Question → Answer F → Type 0
  Fits question_type_noul q a = IsNoulAnswer a
  Fits question_type_choice q a = IsChoiceAnswer q a
  Fits question_type_score q a = IsScoreAnswer q a
  Fits (question_type_other t) q a = Unit

  unit_value : (x : F) → validate_unit_value fl x ≡ none → IsUnit x
  unfolding validate_unit_value
  unit_value x h = ground arith

  noul_answer : (a : Answer F) → validate_noul_answer fl a ≡ none → IsNoulAnswer a
  unfolding validate_noul_answer
  noul_answer a h = elim (Option-cases a.noul) [
    | inl e ↦ absurd (ground (arith, h, e))
    | inr (x, e) ↦ ground (arith, h, e, unit_value x, eq_iff a.choice "")
  ]

  confidence : (c : Option F) → validate_confidence fl c ≡ none → (x : F) × (c ≡ some x) × IsUnit x
  unfolding validate_confidence
  confidence none h = absurd (cc)
  confidence (some x) h = (x, refl, unit_value x h)

  distribution :
      (expected : List String) (m : Map F) (sum : F)
      → distribution_loop fl expected m sum ≡ none
      → All (λ (k, p). (contains expected k ≡ true) × IsUnit p) m × IsOne (total m sum)
  unfolding distribution_loop
  distribution expected [] sum h = (tt, ground (arith, h))
  distribution expected ((k, p) ∷ m) sum h = ground (arith, distribution expected m (add sum p))

  highest-All :
      (bound : F) (m : Map F)
      → any (λ (_, p). lt bound p) m ≡ false
      → All (λ (_, p). lt bound p ≡ false) m
  highest-All bound [] h = tt
  highest-All bound ((k, p) ∷ m) h = ground (arith, highest-All bound m)

  choice_answer :
      (q : Question) (a : Answer F) → validate_choice_answer fl q a ≡ none → IsChoiceAnswer q a
  unfolding validate_choice_answer validate_distribution
  choice_answer q a h = ground (
    arith,
    confidence a.confidence,
    distribution (sort_strings (keys q.criteria)) a.probabilities (decimal 0 0),
    highest-All (add (probability_at fl a.probabilities a.choice) (decimal 1 9)) a.probabilities,
  )

  IsLegend-answer :
      (legend : Map String) (levels : List String) (index : ℕ) (seen : List String)
      → legend_errors fl legend levels index seen ≡ none
      → IsLegend legend levels index
  unfolding legend_errors
  IsLegend-answer legend [] index seen h = tt
  IsLegend-answer legend (level ∷ levels) index seen h =
      elim (Option-cases (lookup (itoa index) legend)) [
        | inl e ↦ absurd (ground (arith, h, e))
        | inr (actual, e) ↦ ground (
          arith,
          h,
          e,
          eq_iff actual level,
          IsLegend-answer legend levels (suc index) (actual ∷ seen),
        )
      ]

  score_answer :
      (q : Question) (a : Answer F) → validate_score_answer fl q a ≡ none → IsScoreAnswer q a
  unfolding validate_score_answer validate_distribution
  score_answer q a h = elim (Option-cases a.score) [
    | inl e ↦ absurd (ground (arith, h, e))
    | inr (x, e) ↦ ground (
      arith,
      h,
      e,
      eq_iff a.choice "",
      confidence a.confidence,
      IsLegend-answer a.legend q.levels 0 [],
      distribution (level_keys fl q.levels 0) a.probabilities (decimal 0 0),
    )
  ]

  typed_answer :
      (t : QuestionType) (q : Question) (a : Answer F)
      → typed_answer_error fl t q a ≡ none
      → Fits t q a
  typed_answer question_type_noul q a h = noul_answer a h
  typed_answer question_type_choice q a h = choice_answer q a h
  typed_answer question_type_score q a h = score_answer q a h
  typed_answer (question_type_other t) q a h = tt

  -- The answer to a question: there, of the question's type, and of that type's shape.
  abbrev pub IsAnswered : Map Question → Map (Answer F) → String → Type 0
  IsAnswered questions answers id =
      (a : Answer F) × (lookup id answers ≡ some a)
      × (same_type a.type (question_at questions id).type ≡ true)
      × Fits (question_at questions id).type (question_at questions id) a

  answered :
      (questions : Map Question) (answers : Map (Answer F)) (id : String)
      → answer_error fl questions answers id ≡ none
      → IsAnswered questions answers id
  unfolding answer_error
  answered questions answers id h = elim (Option-cases (lookup id answers)) [
    | inl e ↦ absurd (ground (arith, h, e))
    | inr (a, e) ↦
        let q = question_at questions id in
        let h' = rw (e, answer_error) at h in
        (a, e, ground (arith, h'), typed_answer q.type q a (ground (arith, h')))
  ]

  -- Answers that pass: the questions are valid, no answer is to an unknown question, and every
  -- question has an answer of its type, in which the fields of that type are there and in range
  -- (the distribution, which adds up to one within the tolerance, the legend and the weighted score
  -- included) and those of other types are not.
  pub validate_answers_sound :
      (questions : Map Question) (answers : Map (Answer F))
      → validate_answers fl questions answers ≡ none
      → (validate_questions questions ≡ none)
        × ((id : String) → contains (keys answers) id ≡ true → is_some (lookup id questions) ≡ true)
        × ((id : String) → contains (keys questions) id ≡ true → IsAnswered questions answers id)
  unfolding validate_answers
  validate_answers_sound questions answers h =
      let (valid, known, answer) = three_passes in
      (
        valid,
        λ id k. let e = at_id (unknown_id fl questions) answers known id k in ground (arith, e),
        λ id k.
            answered questions answers id
              (at_id (answer_error fl questions answers) questions answer id k),
      )
    where
      at_id :
          {V : Type 0} (f : String → Option Error) (m : Map V)
          → first_error f (sorted_ids m) ≡ none
          → (id : String) → contains (keys m) id ≡ true
          → f id ≡ none
      at_id f m e id k =
          All-contains (λ x. f x ≡ none) (keys m) id
            (sorted_ids-All (λ x. f x ≡ none) m (first_error-All f (sorted_ids m) e)) k

      three_passes :
          (validate_questions questions ≡ none)
          × (first_error (unknown_id fl questions) (sorted_ids answers) ≡ none)
          × (first_error (answer_error fl questions answers) (sorted_ids questions) ≡ none)
      three_passes = ground (arith, h)

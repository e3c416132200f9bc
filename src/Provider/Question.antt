-- ===== src/Provider/Question.antt =====
-- provider.go: questions and answers. A JSON number is a float64.
use ruleraven.Common.{String, ◌==◌, Bool, true, false, Option, none, List, []}
use ruleraven.Common.Maps.{Map}

-- A Go string: the three that the program knows, and any other.
pub data QuestionType : Type 0 where
  question_type_noul question_type_choice question_type_score : QuestionType
  question_type_other : String → QuestionType

-- `==` on question types
abbrev pub same_type : QuestionType → QuestionType → Bool
same_type question_type_noul question_type_noul = true
same_type question_type_choice question_type_choice = true
same_type question_type_score question_type_score = true
same_type (question_type_other s) (question_type_other t) = s == t
same_type _ _ = false

pub record Question : Type 0 where
  pub type : QuestionType
  pub instructions : String
  pub criteria : Map String
  pub levels : List String

-- The zero values, which reading a missing key gives.
abbrev pub zero_question : Question
zero_question = record {
  type = question_type_other "";
  instructions = "";
  criteria = [];
  levels = [];
}

pub record Answer (F : Type 0) : Type 0 where
  pub type : QuestionType
  pub noul : Option F
  pub choice : String
  pub score : Option F
  pub legend : Map String
  pub probabilities : Map F
  pub confidence : Option F

abbrev pub zero_answer : {F : Type 0} → Answer F
zero_answer = record {
  type = question_type_other "";
  noul = none;
  choice = "";
  score = none;
  legend = [];
  probabilities = [];
  confidence = none;
}

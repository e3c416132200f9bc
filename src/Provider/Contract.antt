-- ===== src/Provider/Contract.antt =====
-- provider.go: what a provider is asked and what it answers, over the world S in which it is asked
-- and the errors E that it returns. The state of a request is JSON text.
use ruleraven.Common.{String, Option}
use ruleraven.Common.Int.{ℤ, Duration}
use ruleraven.Common.Maps.{Map}
use ruleraven.Provider.Question.{Question, Answer}

pub record EvaluationRequest : Type 0 where
  pub state : String
  pub questions : Map Question
  pub rubric_version : String
  pub request_id : String
  pub requested_model : String

pub record Usage : Type 0 where
  pub input_tokens : ℤ
  pub output_tokens : ℤ

pub record EvaluationResponse (F : Type 0) : Type 0 where
  pub answers : Map (Answer F)
  pub provider : String
  pub requested_model : String
  pub resolved_model : String
  pub request_id : String
  pub provider_request_id : String
  pub usage : Usage
  pub latency : Duration
  pub attempts : ℤ
  pub raw_response_hash : String

-- `Evaluate` returns a response and an error; either may be looked at.
pub record Provider (S F E : Type 0) : Type 0 where
  pub name : String
  pub evaluate : EvaluationRequest → S → (EvaluationResponse F × Option E) × S

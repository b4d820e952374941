-- ===== src/Autonomy/Types.antt =====
-- novapanda/autonomy/types.py, as far as the dispatcher and the orchestrator read it. An award is its
-- winner's part.
use novapanda.Base.{ℕ, String, Option, List}
use novapanda.Base.Dict.{Dict}
use novapanda.Canonical.Value.{Json}
use novapanda.Exchange.Fields.{Price}

-- An item of `TaskSpec.steps`: the dict itself, and its members.
pub record TaskStep : Type 0 where
  pub whole : Json
  pub payload : Option Json
  pub resource_type : Option String
  pub tags : Option (List String)
  pub token_estimate : Option ℕ
  pub rule_id : Option String

pub record TaskSpec : Type 0 where
  pub goal_id : String
  pub resource_type : String
  pub payload : Json
  pub client_agent_id : String
  pub required_tags : List String
  pub steps : List TaskStep
  pub correlation_id : Option String

pub record SubTask : Type 0 where
  pub sub_id : String
  pub resource_type : String
  pub payload : Json
  pub depends_on : List String
  pub token_estimate : ℕ
  pub step_estimate : ℕ
  pub required_tags : List String
  pub rule_id_hint : Option String

pub record SubTaskGraph : Type 0 where
  pub goal_id : String
  pub tasks : List SubTask
  pub success_rule : String

pub record Award : Type 0 where
  pub agent_id : String
  pub price : Price

pub record AuctionResult : Type 0 where
  pub awards : Dict Award
  pub unfilled : List String

pub data OrchestrationPhase : Type 0 where
  split auction executing aggregating done failed : OrchestrationPhase

pub record LegRuntime : Type 0 where
  pub sub_id : String
  pub exchange_id : Option String
  pub vdc_id : Option String
  pub provider : Option String
  pub state : String
  pub result : Json
  pub error : Option String

-- ===== src/Story.antt =====
-- types/story.py, types/iteration.py, types/errors.py and types/task.py: the story that the agent
-- works on, less the fields that no modelled component reads. Costs are whole micro-dollars, times
-- are whole microseconds.
use fastcoder.Base.{ℕ, String, Bool, List, Option}

pub data StoryState : Type 0 where
  received analyzing planning coding reviewing testing deploying verifying done failed : StoryState

unfoldable pub StoryState-discrete : Discrete StoryState
StoryState-discrete = hlevel

-- `ErrorContext`, of which only `classification.fingerprint` is read.
pub record ErrorContext : Type 0 where
  pub fingerprint : String

pub record ReviewReport : Type 0 where
  pub approved : Bool

pub record TestReport : Type 0 where
  pub passed : ℕ
  pub failed : ℕ

pub record Iteration : Type 0 where
  pub stage : String
  pub changes : List String
  pub test_results : Option TestReport
  pub review_results : Option ReviewReport
  pub error_context : Option ErrorContext

pub record StoryMetadata : Type 0 where
  pub updated_at : ℕ
  pub completed_at : Option ℕ
  pub total_cost_usd : ℕ

pub record Story : Type 0 where
  pub id : String
  pub state : StoryState
  pub iterations : List Iteration
  pub cost_budget_usd : ℕ
  pub metadata : StoryMetadata

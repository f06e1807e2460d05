-- ===== src/Bridge/Advice.antt =====
-- service.py: the advice on the runtime of a submission, from what the preflight answers.
use server_fs_mcp.Prelude.{Option, String, Bool, none, some, ◌==◌, if◌then◌else◌}

-- an answer `route_recommendation` that is an object, and its choice if that is a text
pub record Recommendation : Type 0 where
  pub choice : Option String
  pub text : String

-- `recommendation` is none where the answers have no such object
pub record PreflightResult : Type 0 where
  pub status : Option String
  pub model : Option String
  pub recommendation : Option Recommendation

pub data RoutingAdvice : Type 0 where
  advice_status : String → RoutingAdvice
  completed_advice : Option String → String → Recommendation → Bool → RoutingAdvice

-- status or "unavailable"
abbrev or_unavailable : Option String → String
or_unavailable none = "unavailable"
or_unavailable (some s) = if s == "" then "unavailable" else s

abbrev is_completed : Option String → Bool
is_completed none = Bool.false
is_completed (some s) = s == "completed"

abbrev choice_advice : Option String → String → Recommendation → Option String → RoutingAdvice
choice_advice model runtime r none = advice_status "unavailable"
choice_advice model runtime r (some choice) = completed_advice model runtime r (choice == runtime)

abbrev answers_advice : PreflightResult → String → Option Recommendation → RoutingAdvice
answers_advice preflight runtime none = advice_status "unavailable"
answers_advice preflight runtime (some r) = choice_advice preflight.model runtime r r.choice

unfoldable pub routing_advice_from_preflight : PreflightResult → String → RoutingAdvice
routing_advice_from_preflight preflight runtime =
    if is_completed preflight.status
    then answers_advice preflight runtime preflight.recommendation
    else advice_status (or_unavailable preflight.status)

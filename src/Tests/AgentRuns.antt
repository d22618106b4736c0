-- ===== src/Tests/AgentRuns.antt =====
-- Bearers that are refused, and approvals.
use Prim.Native.String.{String}
use manager.Prelude.{
  ◌+◌, ◌*◌, ◌≤◌, ◌≡◌, ◌↔◌, refl, true, none, some, List, [], ◌∷◌, lookup, is_ok, string_eq,
}
use manager.OperatorCa.Base.{hour, Bytes, minute}
use manager.OperatorCa.Revocations.{Revocations}
use manager.Authz.{Level}
use manager.McpAuth.{McpKey, Config, World, mcp_key_by_hash}
use manager.Approval.{Approval, Store, use_call, spent}
use manager.Approval.Lifecycle.{Edge, Op, requests, decides, uses, step, step-Edge}
use manager.Approval.Use.{Covers, use_call_iff, used_once, successes}
use manager.Tests.Data.{engine}
use manager.Tests.AccessRuns.{config, key, log, agent, alice}

abbrev secret : Bytes
secret =
    0 ∷ 0 ∷ 0 ∷ 0 ∷ 0 ∷ 0 ∷ 0 ∷ 0 ∷ 0 ∷ 0 ∷ 0 ∷ 0 ∷ 0 ∷ 0 ∷ 0 ∷ 0 ∷ 0 ∷ 0 ∷ 0 ∷ 0 ∷ 0 ∷ 0 ∷ 0 ∷ 0
    ∷ 0 ∷ 0 ∷ 0 ∷ 0 ∷ 0 ∷ 0 ∷ 0 ∷ 0 ∷ []

abbrev reading : Config Revocations
reading = record config { decode = λ s. some secret }

abbrev bearer : String
bearer = "fos_mcp_0123456789012345678901234567890123456789012"

abbrev dead : McpKey
dead = record key { revoked_at = 5 }

abbrev world : World reading
world = record { keys = ("k1", dead) ∷ []; log = log; checker = engine }

found : mcp_key_by_hash (reading.hash_key bearer) world.keys ≡ some dead
unfolding mcp_key_by_hash
found = refl

abbrev empty : Store
empty = record { approvals = []; audit = [] }

abbrev history : List Op
history =
    requests hour 0 "p1" agent "issue" "d1" Level.operator
    ∷ decides hour alice "p1" true
    ∷ uses hour agent "p1" "issue" "d1" Level.operator
    ∷ uses hour agent "p1" "issue" "d1" Level.operator
    ∷ []

-- An approval that was decided in the agent's favour.
abbrev granted : Approval
granted = record {
  id = "p1";
  tool = "issue";
  request_digest = "d1";
  requested_by_cn = "alice";
  requested_by_serial = b'3' ∷ b'2' ∷ [];
  key_id = "k1";
  required_level = "operator";
  created_at = hour;
  expires_at = hour + 15 * minute;
  status = "approved";
  decided_by_cn = "alice";
  decided_by_serial = b'3' ∷ b'2' ∷ [];
  decided_by_level = "admin";
  decided_at = hour;
  used_at = 0;
}

abbrev filled : Store
filled = record { approvals = ("p1", granted) ∷ []; audit = [] }

step-Edge_example :
    Edge "p1"
      (requests hour 0 "p1" agent "issue" "d1" Level.operator)
      (lookup "p1" empty.approvals)
      (lookup "p1" (step (requests hour 0 "p1" agent "issue" "d1" Level.operator) empty).approvals)
step-Edge_example =
    step-Edge (requests hour 0 "p1" agent "issue" "d1" Level.operator) empty "p1" fresh
  where
    fresh : lookup "p1" empty.approvals ≡ none
    fresh = unfold lookup in refl

stored : lookup "p1" filled.approvals ≡ some granted
unfolding lookup
stored = refl

unused : lookup "p1" empty.approvals ≡ none
unfolding lookup
unused = refl

used_once_example : successes "p1" history empty ≤ 1
used_once_example = used_once history empty "p1" (unused, (tt, (tt, (tt, tt))))

use_call_iff_example :
    ((is_ok (use_call hour agent "p1" "issue" "d1" Level.operator filled).1 ≡ true)
      ↔ Covers hour agent "issue" "d1" Level.operator granted)
    × (is_ok (use_call hour agent "p1" "issue" "d1" Level.operator filled).1 ≡ true
        → lookup "p1" (use_call hour agent "p1" "issue" "d1" Level.operator filled).0.approvals
          ≡ some (spent hour granted))
use_call_iff_example =
    use_call_iff hour agent "p1" "issue" "d1" Level.operator filled granted stored

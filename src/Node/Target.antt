-- ===== src/Node/Target.antt =====
-- src/mycoagent/node/runtime.py: `pick_dispatch_target` and the first half of `_dispatch`, which chooses
-- the node that a subtask goes to.
pub mod Load
pub mod Safety
use myco_agent.Common.{
  ℕ, suc, zero, ◌+◌, ◌%◌, String, Bool, true, false, not, ◌||◌, Option, none, some, List, [], ◌∷◌,
  leb, nat_eq, text_leb, sort_by, keep, length, contains, given, or_empty, ◌==◌, if◌then◌else◌,
}
use myco_agent.Exec.{ok, raise, pure, throw, gets, modify, ◌>>=◌, ◌>>◌}
use myco_agent.Models.{
  NodeStatus, MembershipStatus, NodeRecord, CatalogQuery, SubtaskSpec, node_status_eq,
  membership_eq,
}
use myco_agent.Node.Jobs.{count_of, inflight_counts}
use myco_agent.Node.Agent.{Agent, AgentM, AgentError, dispatch_error, Network, request, works_on}

-- `inflight.get(node.id, 0)`
abbrev pub load : List (String × ℕ) → NodeRecord → ℕ
load inflight node = count_of node.id inflight

-- `min(f(a), *map(f, rest))`
unfoldable pub least : {A : Type 0} → (A → ℕ) → A → List A → ℕ
least f a [] = f a
least f a (b ∷ rest) = let m = least f b rest in if leb (f a) m then f a else m

unfoldable pub get_elem? : {A : Type 0} → List A → ℕ → Option A
get_elem? [] i = none
get_elem? (a ∷ rest) zero = some a
get_elem? (a ∷ rest) (suc i) = get_elem? rest i

abbrev pub by_id : NodeRecord → NodeRecord → Bool
by_id a b = text_leb a.id b.id

-- The least loaded of the candidates, by id.
unfoldable pub pool_of : List (String × ℕ) → NodeRecord → List NodeRecord → List NodeRecord
pool_of inflight first rest = sort_by by_id (
    keep (λ (n : NodeRecord). nat_eq (load inflight n) (least (load inflight) first rest))
      (first ∷ rest))

-- `none` where it raises.
unfoldable pub pick_dispatch_target :
    List NodeRecord → List (String × ℕ) → ℕ → Option (NodeRecord × ℕ)
pick_dispatch_target [] inflight round_robin = none
pick_dispatch_target (first ∷ rest) inflight round_robin =
    let pool = pool_of inflight first rest in
    elim (get_elem? pool (round_robin % length pool)) [
      | none ↦ none
      | some chosen ↦ some (chosen, round_robin + 1)
    ]

-- What is wrong with a named target, if anything.
unfoldable pub refusal : (me group : String) → (blocked : List String) → NodeRecord → Option String
refusal me group blocked target =
    if contains target.id blocked || target.id == me
    then some "refusing to dispatch to self or the source sibling"
    else if not (target.group == group)
    then some "refusing to dispatch across groups"
    else if not (membership_eq target.membership_status MembershipStatus.approved)
    then some "target is not an approved member"
    else if not (node_status_eq target.status NodeStatus.idle)
    then some "target is not idle"
    else none

-- Raises where there is a reason to.
unfoldable pub checked : Option String → NodeRecord → AgentM NodeRecord
checked none target = pure target
checked (some reason) target = throw (dispatch_error reason)

unfoldable pub named_target : Network → List String → String → AgentM NodeRecord
unfolding checked
named_target net blocked target_node_id = do
  a ← gets (λ (a : Agent). a)
  if target_node_id == or_empty a.node_id || contains target_node_id blocked
      then throw (dispatch_error "refusing to dispatch to self or the source sibling")
      else do
        target ← request (net.get_node target_node_id)
        checked (refusal (or_empty a.node_id) a.group blocked target) target

abbrev pub query_for : Agent → SubtaskSpec → CatalogQuery
query_for a spec = record {
  group = a.group;
  idle_only = true;
  skills = spec.skills;
  tools = spec.tools;
  exclude_node_id = a.node_id;
  model = spec.model;
  min_context_window = spec.min_context_window;
  min_memory_mb = spec.min_memory_mb;
}

-- What is wrong with a target from the catalog, if anything.
unfoldable pub refusal_of_found : (me group : String) → NodeRecord → Option String
refusal_of_found me group target =
    if target.id == me
    then some "refusing to dispatch to self"
    else if not (target.group == group)
    then some "refusing to dispatch across groups"
    else none

unfoldable pub take_picked : Option (NodeRecord × ℕ) → AgentM NodeRecord
unfolding checked
take_picked none = throw (dispatch_error "no idle matching node in the same group")
take_picked (some (target, next)) = do
  a ← gets (λ (a : Agent). a)
  modify (λ (s : Agent). record s { rr_index = next })
  checked (refusal_of_found (or_empty a.node_id) a.group target) target

unfoldable pub catalog_target : Network → List String → SubtaskSpec → AgentM NodeRecord
unfolding take_picked
catalog_target net blocked spec = do
  a ← gets (λ (a : Agent). a)
  found ← request (net.catalog (query_for a spec))
  let candidates = keep (λ (n : NodeRecord). not (contains n.id blocked)) found
  take_picked (pick_dispatch_target candidates (inflight_counts a.jobs) a.rr_index)

-- The guard of `_dispatch`, and its choice of the target.
unfoldable pub choose_target :
    Network → (job_id : String) → SubtaskSpec → List String → Option String → AgentM NodeRecord
choose_target net job_id spec exclude target_node_id = do
  a ← gets (λ (a : Agent). a)
  let blocked = or_empty a.node_id ∷ exclude
  if works_on job_id a
      then throw (dispatch_error "child cannot re-dispatch the same job")
      else if given target_node_id
      then named_target net blocked (or_empty target_node_id)
      else catalog_target net blocked spec

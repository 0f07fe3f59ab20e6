-- ===== src/Node/Target/Safety.antt =====
-- Where the dispatcher of src/mycoagent/node/runtime.py may send a subtask.
use mathlib.Core.List.{mem-filter}
use myco_agent.Common.{
  ℕ, ◌≡◌, refl, ap, subst, String, Bool, true, false, not, ◌||◌, Option, none, some, List, [], ◌∷◌,
  Mem, arith, inl, inr, keep, contains, given, or_empty, ◌==◌, eq_iff, dec_true, Bool-cases,
}
use myco_agent.Exec.{Result, ok, raise, ◌>>=◌}
use myco_agent.Models.{
  NodeStatus, MembershipStatus, NodeRecord, SubtaskSpec, node_status_eq, membership_eq,
}
use myco_agent.Node.Jobs.{inflight_counts}
use myco_agent.Node.Agent.{Agent, Network, request, works_on}
use myco_agent.Node.Target.{
  checked, refusal, refusal_of_found, take_picked, pick_dispatch_target, named_target,
  catalog_target, choose_target, query_for,
}
use myco_agent.Node.Target.Load.{pick_dispatch_target-least}

pick_dispatch_target-mem :
    (candidates : List NodeRecord) (inflight : List (String × ℕ)) (round_robin next : ℕ)
    (chosen : NodeRecord)
    → pick_dispatch_target candidates inflight round_robin ≡ some (chosen, next)
    → Mem chosen candidates
pick_dispatch_target-mem [] inflight r next chosen e =
    absurd (unfold pick_dispatch_target in ground (arith, e))
pick_dispatch_target-mem (first ∷ rest) inflight r next chosen e =
    let (node, e', (m, _)) = pick_dispatch_target-least first rest inflight r in
    subst (λ x. Mem x (first ∷ rest)) (ground (arith, e, e')) m

-- The node is no blocked one, and it is in the agent's group.
pub record Allowed (blocked : List String) (group : String) (target : NodeRecord) : Type 0 where
  pub not_blocked : contains target.id blocked ≡ false
  pub same_group : target.group ≡ group

refusal-none :
    (me group : String) (blocked : List String) (target : NodeRecord)
    → refusal me group blocked target ≡ none
    → Allowed blocked group target
      × (target.membership_status ≡ MembershipStatus.approved)
      × (target.status ≡ NodeStatus.idle)
unfolding refusal
refusal-none me group blocked target e = (
  record {
    not_blocked = ground (arith, e);
    same_group = ground (arith, e, eq_iff target.group group);
  },
  is_approved target.membership_status (ground (arith, e)),
  is_idle target.status (ground (arith, e)),
)
  where
    is_approved :
        (m : MembershipStatus)
        → membership_eq m MembershipStatus.approved ≡ true
        → m ≡ MembershipStatus.approved
    is_approved m h = ground (arith, h)

    is_idle : (m : NodeStatus) → node_status_eq m NodeStatus.idle ≡ true → m ≡ NodeStatus.idle
    is_idle m h = ground (arith, h)

checked-ok :
    (reason : Option String) (t target : NodeRecord) (a a' : Agent)
    → checked reason t a ≡ (ok target, a')
    → (reason ≡ none) × (t ≡ target) × (a ≡ a')
unfolding checked
checked-ok none t target a a' e = (refl, ground (arith, e), ap (λ p. p.1) e)
checked-ok (some reason) t target a a' e = absurd (ground (arith, e))

named_target-safe :
    (net : Network) (blocked : List String) (target_node_id : String) (a a' : Agent)
    (target : NodeRecord)
    → named_target net blocked target_node_id a ≡ (ok target, a')
    → Allowed blocked a.group target
      × (target.membership_status ≡ MembershipStatus.approved)
      × (target.status ≡ NodeStatus.idle)
unfolding named_target request
named_target-safe net blocked id a a' target e =
    elim (Bool-cases (id == or_empty a.node_id || contains id blocked)) [
      | inl t ↦ (let e' = rw t at e in absurd (ground (arith, e')))
      | inr f ↦ answered (net.get_node id) (rw f at e)
    ]
  where
    answered :
        (r : Result String NodeRecord)
        → (request r >>= λ t. checked (refusal (or_empty a.node_id) a.group blocked t) t) a
          ≡ (ok target, a')
        → Allowed blocked a.group target
          × (target.membership_status ≡ MembershipStatus.approved)
          × (target.status ≡ NodeStatus.idle)
    answered (raise x) h = absurd (ground (arith, h))
    answered (ok t) h =
        let (fine, same, _) = checked-ok _ t target a a' h in
        refusal-none (or_empty a.node_id) a.group blocked target (rw same at fine)

refusal_of_found-none :
    (me group : String) (target : NodeRecord)
    → refusal_of_found me group target ≡ none
    → target.group ≡ group
unfolding refusal_of_found
refusal_of_found-none me group target e = ground (arith, e, eq_iff target.group group)

take_picked-ok :
    (picked : Option (NodeRecord × ℕ)) (a a' : Agent) (target : NodeRecord)
    → take_picked picked a ≡ (ok target, a')
    → ((next : ℕ) × (picked ≡ some (target, next))) × (target.group ≡ a.group)
unfolding take_picked
take_picked-ok none a a' target e = absurd (ground (arith, e))
take_picked-ok (some (t, next)) a a' target e =
    let (fine, same, _) =
      checked-ok (refusal_of_found (or_empty a.node_id) a.group t) t target _ a' e in
    (
      (next, ap (λ x. some (x, next)) same),
      refusal_of_found-none (or_empty a.node_id) a.group target (rw same at fine),
    )

catalog_target-safe :
    (net : Network) (blocked : List String) (spec : SubtaskSpec) (a a' : Agent)
    (target : NodeRecord)
    → catalog_target net blocked spec a ≡ (ok target, a')
    → Allowed blocked a.group target
unfolding catalog_target request
catalog_target-safe net blocked spec a a' target e = answered (net.catalog (query_for a spec)) e
  where
    unblocked : NodeRecord → Bool
    unblocked n = not (contains n.id blocked)

    answered :
        (r : Result String (List NodeRecord))
        → (request r >>= λ found.
              take_picked
                (pick_dispatch_target (keep unblocked found) (inflight_counts a.jobs) a.rr_index))
            a
          ≡ (ok target, a')
        → Allowed blocked a.group target
    answered (raise x) h = absurd (ground (arith, h))
    answered (ok found) h =
        let ((next, e'), same) = take_picked-ok _ a a' target h in
        let m =
          pick_dispatch_target-mem (keep unblocked found) (inflight_counts a.jobs) a.rr_index next
            target e' in
        let (_, fine) = (mem-filter (λ (n : NodeRecord). dec_true (unblocked n))).0 m in
        record { not_blocked = ground (arith, fine); same_group = same }

-- A subtask is only ever given to a node of the agent's own group that is neither the agent nor an
-- excluded node; a node that the caller named is moreover an approved member and idle. An agent
-- whose child works on a job chooses no target for that job.
pub choose_target-safe :
    (net : Network) (job_id : String) (spec : SubtaskSpec) (exclude : List String)
    (target_node_id : Option String) (a a' : Agent) (target : NodeRecord)
    → choose_target net job_id spec exclude target_node_id a ≡ (ok target, a')
    → Allowed (or_empty a.node_id ∷ exclude) a.group target
      × (works_on job_id a ≡ false)
      × (given target_node_id ≡ true
          → (target.membership_status ≡ MembershipStatus.approved)
            × (target.status ≡ NodeStatus.idle))
unfolding choose_target
choose_target-safe net job_id spec exclude target_node_id a a' target e =
    elim (Bool-cases (works_on job_id a)) [
      | inl w ↦ (let e' = rw w at e in absurd (ground (arith, e')))
      | inr w ↦
          (let e' = rw w at e in
            elim (Bool-cases (given target_node_id)) [
              | inl g ↦
                  let (allowed, member, idle) =
                    named_target-safe net (or_empty a.node_id ∷ exclude) (or_empty target_node_id) a
                      a' target (rw g at e') in
                  (allowed, w, λ _. (member, idle))
              | inr g ↦ (
                catalog_target-safe net (or_empty a.node_id ∷ exclude) spec a a' target
                    (rw g at e'),
                w,
                λ h. absurd (ground (arith, g, h)),
              )
            ])
    ]

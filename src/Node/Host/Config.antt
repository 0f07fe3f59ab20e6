-- ===== src/Node/Host/Config.antt =====
-- What `apply_config` of src/mycoagent/node/runtime.py leaves of an agent.
use myco_agent.Common.{
  some, ◌∙◌, String, ◌≡◌, refl, ◌↔◌, true, false, Option, none, or_empty, ap, List, arith, inl, inr,
  given, ◌==◌, Bool-cases,
}
use myco_agent.Exec.{Result, ok, raise}
use myco_agent.Models.{
  MachineSpec, SystemSpec, NodeRecord, NodeRegisterRequest, ModelSpec, AgentConfigureRequest,
}
use myco_agent.Node.Host.{tool_loop, echo, open_code, Profile, reregister, registration}
use myco_agent.Node.Host.Configure.{
  select_executor, executor_mode, configured, named, new_models, apply_config, registered,
  ConfigError, unreadable_models,
}

-- The agent plans exactly with the tool loop, and it has the tool loop only with a model's URL.
pub record Consistent (p : Profile) : Type 0 where
  pub plans_iff : (p.has_planner ≡ true) ↔ (p.executor ≡ tool_loop)
  pub has_url : p.has_planner ≡ true → given p.llm_base_url ≡ true

-- The agent is the same in the Manager's catalog and for its peers.
abbrev pub identity : Profile → Option String × (String × (String × Option String))
identity p = (p.node_id, (p.group, (p.mailbox_url, p.job_db)))

abbrev pub SameAgent : Profile → Profile → Type 0
SameAgent p q = identity p ≡ identity q

no_planner : (q : Profile) → q.has_planner ≡ false → ¬ (q.executor ≡ tool_loop) → Consistent q
no_planner q none_plans other = record {
  plans_iff = ((λ h. absurd (ground (arith, none_plans, h))), λ h. absurd (other h));
  has_url = λ h. absurd (ground (arith, none_plans, h));
}

echo-Consistent : (q : Profile) → Consistent (record q { executor = echo; has_planner = false })
echo-Consistent q =
    no_planner (record q { executor = echo; has_planner = false }) refl (λ h. ground (arith, h))

select_executor-fine :
    (mode : String) (p : Profile)
    → Consistent (select_executor mode p) × SameAgent (select_executor mode p) p
unfolding select_executor
select_executor-fine mode p = elim (Bool-cases (mode == "opencode")) [
  | inl e ↦
      rw (e, select_executor)
        (
          no_planner (record p { llm_base_url = none; executor = open_code; has_planner = false })
              refl (λ h. ground (arith, h)),
          refl,
        )
  | inr e ↦
      rw (e, select_executor)
        (elim (Bool-cases (mode == "echo")) [
          | inl f ↦ rw f (echo-Consistent p, refl)
          | inr f ↦ rw f (elim (Bool-cases (given p.llm_base_url)) [
            | inl g ↦ rw g (record { plans_iff = ((λ h. refl), λ h. refl); has_url = λ h. g }, refl)
            | inr g ↦ rw g (echo-Consistent p, refl)
          ])
        ])
]

-- The agent as it registers
abbrev chosen : AgentConfigureRequest → Profile → List ModelSpec → Profile
chosen body p models =
    select_executor (executor_mode body.executor) (configured body models (named body p))

module _ (register : NodeRegisterRequest → Result String NodeRecord) (machine : MachineSpec)
    (system : SystemSpec)
    (as_asked : (req : NodeRegisterRequest) (answer : NodeRecord)
      → given req.node_id ≡ true
      → register req ≡ ok answer
      → answer.id ≡ or_empty req.node_id) where
  some-or_empty : (o : Option String) → given o ≡ true → some (or_empty o) ≡ o
  some-or_empty none h = absurd (ground (arith, h))
  some-or_empty (some t) h = refl

  -- A registration keeps everything, the id too.
  reregister-fine :
      (p : Profile)
      → given p.node_id ≡ true
      → Consistent p
      → Consistent (registered (reregister register machine system p)).1
        × SameAgent (registered (reregister register machine system p)).1 p
  unfolding reregister registration
  reregister-fine p id v = go (register (registration machine system p)) refl
    where
      go :
          (r : Result String NodeRecord)
          → register (registration machine system p) ≡ r
          → let q = registered (elim r as (λ _. Result String NodeRecord × Profile) [
            | raise exc ↦ (raise exc, p)
            | ok answer ↦ (ok answer, record p { node_id = some answer.id })
          ]) in
            Consistent q.1 × SameAgent q.1 p
      go (raise exc) e = (v, refl)
      go (ok answer) e =
          let kept : some answer.id ≡ p.node_id =
            ap some (as_asked (registration machine system p) answer id e)
            ∙ some-or_empty p.node_id id in
          (
            record { plans_iff = v.plans_iff; has_url = v.has_url },
            ap (λ o. (o, (p.group, (p.mailbox_url, p.job_db)))) kept,
          )

  -- Whatever a configuration asks for, and also where its models cannot be read or the registration
  -- at its end fails: an agent with an id that has a planner exactly if it runs the tool loop, and
  -- then a model's URL, has so afterwards, and it keeps its id, group, mailbox and job table, with a
  -- Manager that registers an agent under the id it asks for.
  pub apply_config-fine :
      (body : AgentConfigureRequest) (p : Profile)
      → given p.node_id ≡ true
      → Consistent p
      → Consistent (apply_config register machine system body p).1
        × SameAgent (apply_config register machine system body p).1 p
  unfolding apply_config
  apply_config-fine body p id v = go (new_models body.models p.models)
    where
      go :
          (o : Option (List ModelSpec))
          → let after = elim o as (λ _. Result ConfigError NodeRecord × Profile) [
            | none ↦ (raise unreadable_models, named body p)
            | some models ↦ registered (reregister register machine system (chosen body p models))
          ] in
            Consistent after.1 × SameAgent after.1 p
      go none = unfold named in (record { plans_iff = v.plans_iff; has_url = v.has_url }, refl)
      go (some models) =
          let (consistent, same) =
            select_executor-fine (executor_mode body.executor)
              (configured body models (named body p)) in
          let same_p : SameAgent (chosen body p models) p =
            same ∙ (unfold configured named in refl) in
          let (consistent', same') =
            reregister-fine (chosen body p models) (ap (λ i. given i.0) same_p ∙ id) consistent in
          (consistent', same' ∙ same_p)

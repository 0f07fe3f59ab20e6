-- ===== src/Node/Host/Reach.antt =====
-- A message to the mailbox of an agent reaches this agent, in a host of src/mycoagent/node/runtime.py that started.
use myco_agent.Common.{
  length-append, suc, length, nat_eq, ℕ, is_nil, inr, inl, Bool-cases, truthy, ◌&&◌, String, ◌≡◌,
  refl, sym, ap, ◌∙◌, Bool, true, false, not, Option, some, List, [], ◌∷◌, ◌++◌, all, arith, given,
  or_empty, ◌==◌, eq_refl, if◌then◌else◌,
}
use myco_agent.Exec.{Result, ok, raise}
use myco_agent.Models.{MachineSpec, SystemSpec, NodeRecord, NodeRegisterRequest}
use myco_agent.Table.{put}
use myco_agent.Table.Laws.{find-put}
use myco_agent.Node.Api.Apps.{listed_agents, default_agent, host_target, or_404, scoped, root}
use myco_agent.Node.Host.{
  Profile, registration, reregister, and_more, start_all, require, entry_key,
}

raise≢ok :
    (exc : String) (answers : List NodeRecord)
    → Path (Result String (List NodeRecord)) (raise exc) (ok answers)
    → ⊥
raise≢ok exc answers e = ground arith

module _ (register : NodeRegisterRequest → Result String NodeRecord) (machine : MachineSpec)
    (system : SystemSpec) where
  abbrev answered : Profile → Result String NodeRecord
  answered p = register (registration machine system p)

  abbrev entry : Profile → NodeRecord → String × Profile
  entry p answer = (answer.id, record p { node_id = some answer.id })

  reregister-ok :
      (p : Profile) (answer : NodeRecord)
      → answered p ≡ ok answer
      → reregister register machine system p ≡ (ok answer, record p { node_id = some answer.id })
  unfolding reregister
  reregister-ok p answer e = rw (e, reregister) refl

  reregister-raise :
      (p : Profile) (exc : String)
      → answered p ≡ raise exc
      → reregister register machine system p ≡ (raise exc, p)
  unfolding reregister
  reregister-raise p exc e = rw (e, reregister) refl

  -- What a start that returns has done with its first agent
  record First (p : Profile) (rest : List Profile) (agents agents' : List (String × Profile))
      : Type 0 where
    pub answer : NodeRecord
    pub answers : List NodeRecord
    pub registered : answered p ≡ ok answer
    pub more :
        start_all register machine system rest (put entry_key (entry p answer) agents)
        ≡ (ok answers, agents')

  abbrev Outcome : Type 0
  Outcome = Result String (List NodeRecord) × List (String × Profile)

  abbrev after_first :
      (rest : List Profile)
      → (agents : List (String × Profile)) → Result String NodeRecord × Profile
      → Outcome
  after_first rest agents (raise exc, p) = (raise exc, agents)
  after_first rest agents (ok answer, p) =
      and_more answer (start_all register machine system rest (put entry_key (answer.id, p) agents))

  start_all-cons :
      (p : Profile) (rest : List Profile) (agents : List (String × Profile))
      (x : Result String NodeRecord × Profile)
      → reregister register machine system p ≡ x
      → start_all register machine system (p ∷ rest) agents ≡ after_first rest agents x
  unfolding start_all
  start_all-cons p rest agents x e =
      opened (reregister register machine system p) ∙ ap (after_first rest agents) e
    where
      opened :
          (y : Result String NodeRecord × Profile)
          → Path Outcome
              (elim y.0 as (λ _. Outcome) [
                | raise exc ↦ (raise exc, agents)
                | ok answer ↦
                    and_more answer (
                      start_all register machine system rest
                        (put entry_key (answer.id, y.1) agents))
              ])
              (after_first rest agents y)
      opened (raise exc, p) = refl
      opened (ok answer, p) = refl

  start_all-First :
      (p : Profile) (rest : List Profile) (agents agents' : List (String × Profile))
      (answers : List NodeRecord)
      → start_all register machine system (p ∷ rest) agents ≡ (ok answers, agents')
      → First p rest agents agents'
  start_all-First p rest agents agents' answers h = by_answer (answered p) refl
    where
      by_rest :
          (answer : NodeRecord)
          → answered p ≡ ok answer
          → (out : Outcome)
          → start_all register machine system rest (put entry_key (entry p answer) agents) ≡ out
          → and_more answer out ≡ (ok answers, agents')
          → First p rest agents agents'
      by_rest answer e (raise exc, after) k l = absurd (raise≢ok exc answers (ap (λ x. x.0) l))
      by_rest answer e (ok more, after) k l = record {
        answer = answer;
        answers = more;
        registered = e;
        more = k ∙ ap (λ (x : Outcome). (ok more, x.1)) l;
      }

      by_answer : (r : Result String NodeRecord) → answered p ≡ r → First p rest agents agents'
      by_answer (raise exc) e = absurd (
          raise≢ok exc answers (
            ap (λ x. x.0)
              (sym (start_all-cons p rest agents (raise exc, p) (reregister-raise p exc e)) ∙ h)))
      by_answer (ok answer) e =
          by_rest answer e
            (start_all register machine system rest (put entry_key (entry p answer) agents)) refl
            (sym (
                start_all-cons p rest agents (ok answer, record p { node_id = some answer.id })
                  (reregister-ok p answer e))
              ∙ h)

  -- An agent that asks to be registered under another id
  abbrev pub apart : String → Profile → Bool
  apart id q = given q.node_id && not (or_empty q.node_id == id)

  module _
      (as_asked : (req : NodeRegisterRequest) (answer : NodeRecord)
        → given req.node_id ≡ true
        → register req ≡ ok answer
        → answer.id ≡ or_empty req.node_id) where
    asked_id :
        (p : Profile) (answer : NodeRecord)
        → given p.node_id ≡ true
        → answered p ≡ ok answer
        → answer.id ≡ or_empty p.node_id
    unfolding registration
    asked_id p answer g e = as_asked (registration machine system p) answer g e

    require-put :
        (id : String) (p : Profile) (answer : NodeRecord) (agents : List (String × Profile))
        → require id (put entry_key (entry p answer) agents) ≡ (
            if answer.id == id
            then some (record p { node_id = some answer.id })
            else require id agents)
    unfolding require
    require-put id p answer agents = elim (Bool-cases (answer.id == id)) [
      | inl e ↦ rw (require, find-put entry_key id (entry p answer) agents, e) refl
      | inr e ↦ rw (require, find-put entry_key id (entry p answer) agents, e) refl
    ]

    start_all-keeps :
        (id : String) (ps : List Profile) (agents agents' : List (String × Profile))
        (answers : List NodeRecord)
        → all (apart id) ps ≡ true
        → start_all register machine system ps agents ≡ (ok answers, agents')
        → require id agents' ≡ require id agents
    unfolding start_all
    start_all-keeps id [] agents agents' answers h e = ap (λ (x : Outcome). require id x.1) (sym e)
    start_all-keeps id (p ∷ rest) agents agents' answers h e =
        let f = start_all-First p rest agents agents' answers e in
        let same = asked_id p f.answer (ground (arith, h)) f.registered in
        start_all-keeps id rest (put entry_key (entry p f.answer) agents) agents' f.answers
          (ground (arith, h)) f.more
        ∙ require-put id p f.answer agents
        ∙ rw same (ground (arith, h))

    -- Where the Manager registers an agent under the id that it asks for: once a host has started, a request for an id
    -- reaches the agent that asked for it, if no agent after it asked for the same.
    pub require-start_all :
        (id : String) (before after : List Profile) (p : Profile)
        (agents agents' : List (String × Profile)) (answers : List NodeRecord)
        → truthy id ≡ true
        → p.node_id ≡ some id
        → all (apart id) after ≡ true
        → start_all register machine system (before ++ p ∷ after) agents ≡ (ok answers, agents')
        → require id agents' ≡ some p
    require-start_all id [] after p agents agents' answers t own others e =
        let f = start_all-First p after agents agents' answers e in
        let same : f.answer.id ≡ id =
          asked_id p f.answer (rw own t) f.registered ∙ ap or_empty own in
        start_all-keeps id after (put entry_key (entry p f.answer) agents) agents' f.answers others
          f.more
        ∙ require-put id p f.answer agents
        ∙ rw (same, eq_refl id)
            (ap (λ (o : Option String). some (record p { node_id = o })) (sym own))
    require-start_all id (b ∷ before) after p agents agents' answers t own others e =
        let f = start_all-First b (before ++ p ∷ after) agents agents' answers e in
        require-start_all id before after p (put entry_key (entry b f.answer) agents) agents'
          f.answers t own others f.more

    two_at_least : (n : ℕ) → nat_eq (suc (suc n)) 1 ≡ false
    two_at_least n = ground arith

    longer :
        (before after : List Profile) (p : Profile)
        → nat_eq (suc (length (before ++ p ∷ after))) 1 ≡ false
    longer before after p = ground (arith, length-append before (p ∷ after))

    root_target :
        (id : String) (before after : List Profile) (p : Profile) (agents : List (String × Profile))
        (answers : List NodeRecord)
        → truthy id ≡ true
        → p.node_id ≡ some id
        → start_all register machine system (before ++ p ∷ after) [] ≡ (ok answers, agents)
        → host_target (before ++ p ∷ after) agents root
          ≡ (if is_nil before && is_nil after then ok p else raise 404)
    unfolding host_target default_agent listed_agents put start_all
    root_target id [] [] p agents answers t own e =
        let f = start_all-First p [] [] agents answers e in
        let same : f.answer.id ≡ id =
          asked_id p f.answer (rw own t) f.registered ∙ ap or_empty own in
        let only : agents ≡ entry p f.answer ∷ [] = ap (λ (x : Outcome). x.1) (sym f.more) in
        rw (only, same) (ap (λ (o : Option String). ok (record p { node_id = o })) (sym own))
    root_target id [] (a ∷ after) p agents answers t own e = rw (two_at_least (length after)) refl
    root_target id (b ∷ before) after p agents answers t own e = rw (longer before after p) refl

    -- Where the Manager registers an agent under the id that it asks for: in a host that has started, a path with an
    -- agent's id leads to the agent, if no later agent has the same id; a path without one leads to the agent of a
    -- host that has no other, and nowhere in a host with more.
    pub host_target-start_all :
        (id : String) (before after : List Profile) (p : Profile) (agents : List (String × Profile))
        (answers : List NodeRecord)
        → truthy id ≡ true
        → p.node_id ≡ some id
        → all (apart id) after ≡ true
        → start_all register machine system (before ++ p ∷ after) [] ≡ (ok answers, agents)
        → (host_target (before ++ p ∷ after) agents (scoped id) ≡ ok p)
          × (host_target (before ++ p ∷ after) agents root
              ≡ (if is_nil before && is_nil after then ok p else raise 404))
    unfolding host_target
    host_target-start_all id before after p agents answers t own others e = (
      ap or_404 (require-start_all id before after p [] agents answers t own others e),
      root_target id before after p agents answers t own e,
    )

-- ===== src/Cli/Start/Same.antt =====
-- The mailboxes of what `node` of src/mycoagent/cli.py starts, and its shorthand for one agent.
use Prim.Native.String.{◌++◌ as join_texts}
use myco_agent.Common.{
  ℕ, String, ◌≡◌, refl, ap, sym, Bool, true, Option, none, some, List, [], ◌∷◌, arith, is_some,
  given, or_empty, if◌then◌else◌, length, ltb,
}
use myco_agent.Node.Host.{
  mailbox_of, default_max_steps, AgentSpec, Kind, Profile, Paths, host_runtime, agent_of,
  job_db_path,
}
use myco_agent.Text.{rstrip}
use myco_agent.Text.Strip.{rstrip_idem}
use myco_agent.Cli.Specs.Rooted.{Rooted}
use myco_agent.Cli.Start.{NodeFlags, Started, alone, hosted, mailbox_base, node_runtime}

-- The base has no slash at its end.
base_again : (flags : NodeFlags) → rstrip b'/' (mailbox_base flags) ≡ mailbox_base flags
unfolding mailbox_base
base_again flags = rstrip_idem b'/' _

root_mailbox-same :
    (flags : NodeFlags) (id : String) (root : Bool)
    → root ≡ true
    → rstrip b'/' (mailbox_of (rstrip b'/' (mailbox_base flags)) id root)
      ≡ rstrip b'/' (mailbox_base flags)
root_mailbox-same flags id root e = rw e (ap (rstrip b'/') (base_again flags))

shared_path :
    (paths : Paths) (agent_id : String) (base : Option String)
    → is_some base ≡ given base
    → job_db_path paths base agent_id true ≡ base
unfolding job_db_path
shared_path paths agent_id none h = refl
shared_path paths agent_id (some path) h = rw (sym h) refl

kept_id :
    (uuid : String) (id : Option String)
    → given id ≡ true
    → some (if given id then or_empty id else uuid) ≡ id
kept_id uuid none h = absurd (ground (arith, h))
kept_id uuid (some id) h = rw h refl

-- A spec with the root mailbox and an id: the `NodeRuntime` that the command makes of it is the agent that a
-- `HostRuntime` of this one spec has, where the job table's path is not the empty text and `--max-steps` is 12.
pub host_runtime-node_runtime :
    (paths : Paths) (later : ℕ → String) (flags : NodeFlags) (kind : Kind) (planner : Bool)
    (spec : AgentSpec)
    → spec.root_mailbox ≡ true
    → given spec.agent_id ≡ true
    → is_some flags.job_db ≡ given flags.job_db
    → flags.max_steps ≡ default_max_steps
    → host_runtime paths flags.group
        (mailbox_base flags)
        kind
        planner
        flags.job_db
        later
        (spec ∷ [])
      ≡ some (node_runtime flags (kind, planner) spec ∷ [])
unfolding host_runtime agent_of node_runtime
host_runtime-node_runtime paths later flags kind planner spec root id db steps =
    rw
      (
        root_mailbox-same flags (if given spec.agent_id then or_empty spec.agent_id else later 0)
            spec.root_mailbox root,
        shared_path paths (if given spec.agent_id then or_empty spec.agent_id else later 0)
            flags.job_db db,
        kept_id (later 0) spec.agent_id id,
      )
      (ap (λ n. some (record (node_runtime flags (kind, planner) spec) { max_steps = n } ∷ []))
        (sym steps))

-- Every agent of the list has an id, and its mailbox is at that id below the base; slashes at the id's end are
-- dropped.
Below : (base : String) → List Profile → Type 0
Below base [] = Unit
Below base (p ∷ agents) =
    ((id : String) × (p.node_id ≡ some id)
      × (p.mailbox_url ≡ rstrip b'/' (join_texts base (join_texts "/agents/" id))))
    × Below base agents

-- One agent at the base itself, or two agents at least, each at its id below the base.
pub Placed : (base : String) → Started → Type 0
Placed base (alone p) = p.mailbox_url ≡ base
Placed base (hosted agents) = (ltb 1 (length agents) ≡ true) × Below base agents

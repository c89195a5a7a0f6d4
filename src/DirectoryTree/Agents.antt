-- ===== src/DirectoryTree/Agents.antt =====
-- Files and directories shared out among agents.
use mathlib.Core.List.{append-nil, append_assoc}
use sai3_bench.Prelude.{
  none, some, List, [], ◌∷◌, ◌++◌, sym, ap, ◌∙◌, ℕ, zero, suc, ◌+◌, ◌%◌, ◌<◌, ◌≡◌, Bool, true, ◌&&◌,
  arith, ◌==◌, ltb, leb, if◌then◌else◌, ==_iff,
}
use sai3_bench.Prelude.Keys.{nat_key}
use sai3_bench.Prelude.Assoc.{contains}
use sai3_bench.DirectoryTree.Manifest.{
  TreeManifest, indices_from, get_agent_file_indices, push_to, assign_from, assign_agents,
  get_agent_dirs,
}
use sai3_bench.Prelude.Text.{Text}
use sai3_bench.Prelude.Maps.{lookup, lookup-insert}

contains-indices_from :
    (wanted : ℕ → Bool) (from n idx : ℕ)
    → contains idx (indices_from wanted from n) ≡ (leb from idx && ltb idx (from + n) && wanted idx)
unfolding contains indices_from
contains-indices_from wanted from zero idx = ground arith
contains-indices_from wanted from (suc n) idx =
    ground (arith, contains-indices_from wanted (from + 1) n idx, ==_iff from idx)

-- With two agents or more, a file below the total is in the list of an agent exactly if the agent's
-- number is the file's modulo the number of agents: of the agents numbered below that number, one
-- has it. With fewer than two, the list has every file.
pub agent_files :
    (m : TreeManifest) (idx agent_id num_agents : ℕ)
    → idx < m.total_files
    → contains idx (get_agent_file_indices m agent_id num_agents)
      ≡ (if ltb 1 num_agents then idx % num_agents == agent_id else true)
unfolding get_agent_file_indices
agent_files m idx agent_id num_agents h = ground (
  arith,
  contains-indices_from (λ (i : ℕ). true) 0 m.total_files idx,
  contains-indices_from (λ (i : ℕ). i % num_agents == agent_id) 0 m.total_files idx,
)

dirs_of : ℕ → List (ℕ × List Text) → List Text
dirs_of agent_id assignments = elim (lookup agent_id assignments) [ none ↦ [] | some dirs ↦ dirs ]

dirs_of-push_to :
    (agent_id a : ℕ) (path : Text) (assignments : List (ℕ × List Text))
    → dirs_of agent_id (push_to a path assignments) ≡ (
        if a == agent_id
        then dirs_of agent_id assignments ++ path ∷ []
        else dirs_of agent_id assignments)
unfolding dirs_of push_to
dirs_of-push_to agent_id a path assignments = ground (
  arith,
  lookup-insert a agent_id
      (elim (lookup a assignments) [ none ↦ path ∷ [] | some old ↦ old ++ path ∷ [] ]) assignments,
  ==_iff a agent_id,
)

-- The directories at the positions, counted from `idx`, that are `agent_id` modulo `num_agents`.
abbrev pub every_nth : ℕ → ℕ → ℕ → List Text → List Text
every_nth num_agents agent_id idx [] = []
every_nth num_agents agent_id idx (path ∷ rest) =
    let later = every_nth num_agents agent_id (idx + 1) rest in
    if idx % num_agents == agent_id then path ∷ later else later

dirs_of-assign_from :
    (num_agents agent_id idx : ℕ) (paths : List Text) (assignments : List (ℕ × List Text))
    → dirs_of agent_id (assign_from num_agents idx paths assignments)
      ≡ dirs_of agent_id assignments ++ every_nth num_agents agent_id idx paths
unfolding assign_from
dirs_of-assign_from num_agents agent_id idx [] assignments =
    sym (append-nil (dirs_of agent_id assignments))
dirs_of-assign_from num_agents agent_id idx (path ∷ rest) assignments =
    dirs_of-assign_from num_agents agent_id (idx + 1) rest
      (push_to (idx % num_agents) path assignments)
    ∙ ap (λ ds. ds ++ every_nth num_agents agent_id (idx + 1) rest)
        (dirs_of-push_to agent_id (idx % num_agents) path assignments)
    ∙ ground (
      arith,
      append_assoc (dirs_of agent_id assignments) (path ∷ [])
          (every_nth num_agents agent_id (idx + 1) rest),
    )

-- After the directories are assigned to one agent or more, an agent has exactly those at the
-- positions that are its number modulo the number of agents, in the order of the tree.
pub agent_dirs :
    (m : TreeManifest) (num_agents agent_id : ℕ)
    → 0 < num_agents
    → get_agent_dirs (assign_agents num_agents m) agent_id
      ≡ every_nth num_agents agent_id 0 m.all_directories
unfolding get_agent_dirs assign_agents dirs_of lookup
agent_dirs m num_agents agent_id h =
    ground (arith, dirs_of-assign_from num_agents agent_id 0 m.all_directories [])

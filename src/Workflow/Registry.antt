-- ===== src/Workflow/Registry.antt =====
-- `InMemoryWorkflowProvider` (src/core/workflow/registry.py).
use agent_roles.Common.{String, Option, none, some, [], Result, ok}
use agent_roles.Common.Dict.{Dict, get, put}
use agent_roles.Versions.{latest_version}
use agent_roles.Workflow.Models.{WorkflowDefinition}

abbrev pub WorkflowProvider : Type 0
WorkflowProvider = Dict (Dict WorkflowDefinition)

abbrev pub definitions_of : WorkflowProvider → String → Dict WorkflowDefinition
definitions_of p id = elim (get p id) [ none ↦ [] | some versions ↦ versions ]

-- `register`: a version that is known is replaced.
unfoldable pub register : WorkflowDefinition → WorkflowProvider → WorkflowProvider
register d p = put p d.workflow_id (put (definitions_of p d.workflow_id) d.workflow_version d)

-- `get_definition`
unfoldable pub get_definition :
    WorkflowProvider → String → Option String → Result (Option WorkflowDefinition)
get_definition p id (some version) = ok (get (definitions_of p id) version)
get_definition p id none = latest_version (definitions_of p id)

-- ===== src/Orchestration/ToolDedup.antt =====
-- services/api/app/orchestration/tool_dedup.py: the result of a tool that an analysis has run
-- before. Arguments and results are JSON objects; `json.dumps` with sorted keys and `sha256` are
-- parameters. Rows of one time come in the order of the table.
pub mod Newest
use finance_intelligence.Prelude.{
  Bool, List, Option, [], if◌then◌else◌, leb, none, select, some, ℕ, ◌&&◌, ◌==◌, ◌∷◌,
}
use finance_intelligence.Prelude.Ascii.{eq_text}
use finance_intelligence.Orchestration.Store.{first_where}
use finance_intelligence.Audit.{Fields}

-- The columns of `ToolInvocation` that are read.
pub record ToolInvocation : Type 0 where
  pub organization_id : ℕ
  pub analysis_job_id : ℕ
  pub tool_name : List ℕ
  pub arguments_json : Fields
  pub result_json : Fields
  pub created_at : ℕ

unfoldable pub is_same_tool : ℕ → ℕ → List ℕ → ToolInvocation → Bool
unfolding eq_text
is_same_tool organization job tool i =
    i.organization_id == organization && i.analysis_job_id == job && eq_text i.tool_name tool

-- `ORDER BY created_at DESC`.
unfoldable pub insert_newest : ToolInvocation → List ToolInvocation → List ToolInvocation
insert_newest i [] = i ∷ []
insert_newest i (k ∷ ks) =
    let rest = insert_newest i ks in if leb k.created_at i.created_at then i ∷ k ∷ ks else k ∷ rest

unfoldable pub newest_first : List ToolInvocation → List ToolInvocation
unfolding insert_newest
newest_first [] = []
newest_first (i ∷ is) = insert_newest i (newest_first is)

module _ (dumps_sorted : Fields → List ℕ) (sha256 : List ℕ → List ℕ) where
  unfoldable pub compute_arguments_checksum : Fields → List ℕ
  compute_arguments_checksum arguments = sha256 (dumps_sorted arguments)

  unfoldable pub has_checksum : List ℕ → ToolInvocation → Bool
  unfolding compute_arguments_checksum eq_text
  has_checksum checksum i = eq_text (compute_arguments_checksum i.arguments_json) checksum

  -- The invocation whose result is returned.
  unfoldable pub existing_invocation :
      ℕ → ℕ → List ℕ → Fields → List ToolInvocation → Option ToolInvocation
  unfolding is_same_tool newest_first has_checksum
  existing_invocation organization job tool arguments invocations =
      first_where (has_checksum (compute_arguments_checksum arguments))
        (newest_first (select (is_same_tool organization job tool) invocations))

  unfoldable pub check_existing_invocation :
      ℕ → ℕ → List ℕ → Fields → List ToolInvocation → Option Fields
  unfolding existing_invocation
  check_existing_invocation organization job tool arguments invocations =
      elim (existing_invocation organization job tool arguments invocations) [
        | none ↦ none
        | some i ↦ some i.result_json
      ]

-- ===== src/Examples/ToolDedup.antt =====
-- services/api/app/orchestration/tool_dedup.py: two runs of one tool with the same arguments.
use finance_intelligence.Prelude.{List, [], false, ltb, none, refl, some, true, ℕ, ◌&&◌, ◌∷◌, ◌≡◌}
use finance_intelligence.Orchestration.Store.Rows.{All}
use finance_intelligence.Orchestration.ToolDedup.Newest.{existing_invocation-newest}
use finance_intelligence.Prelude.Ascii.{codes, eq_text}
use finance_intelligence.Orchestration.ToolDedup.{
  insert_newest, compute_arguments_checksum, ToolInvocation, check_existing_invocation,
  existing_invocation, has_checksum, newest_first, is_same_tool,
}
use finance_intelligence.Audit.{Value, end, field, Fields}

abbrev run_at : ℕ → ℕ → ToolInvocation
run_at job time = record {
  organization_id = 1;
  analysis_job_id = job;
  tool_name = codes "compare";
  arguments_json = end;
  result_json = field (codes "t") (Value.number time) end;
  created_at = time;
}

abbrev invocations : List ToolInvocation
invocations = run_at 5 10 ∷ run_at 5 20 ∷ run_at 6 30 ∷ []

abbrev dump : Fields → List ℕ
dump fs = []

abbrev hash : List ℕ → List ℕ
hash s = s

reuses_newest :
    check_existing_invocation dump hash 1 5 (codes "compare") end invocations
    ≡ some (field (codes "t") (Value.number 20) end)
unfolding check_existing_invocation existing_invocation is_same_tool eq_text newest_first
    insert_newest has_checksum
reuses_newest = refl

existing_invocation-newest_example :
    let checksum = compute_arguments_checksum dump hash end in
    let again = has_checksum dump hash checksum in
    let mine = is_same_tool 1 5 (codes "compare") in
    let existing = existing_invocation dump hash 1 5 (codes "compare") end invocations in
    ((i : ToolInvocation)
      → existing ≡ some i
      → (mine i ≡ true)
        × (compute_arguments_checksum dump hash i.arguments_json ≡ checksum)
        × All (λ k. (mine k && (again k && ltb i.created_at k.created_at)) ≡ false) invocations)
    × (existing ≡ none → All (λ k. (mine k && again k) ≡ false) invocations)
existing_invocation-newest_example =
    existing_invocation-newest dump hash 1 5 (codes "compare") end invocations

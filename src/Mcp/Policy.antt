-- ===== src/Mcp/Policy.antt =====
-- policy.go: which tools may be called. `lower`, `contains` and `equal_fold` are functions of the
-- package strings.
pub mod Allowed
use buat_postingan.Base.{
  String, Bool, true, false, List, [], ◌∷◌, ◌||◌, ◌&&◌, not, is_empty, trim_space, if◌then◌else◌,
}
use Prim.Native.String.{◌++◌ as append}
use buat_postingan.Apperr.{plain}
use buat_postingan.Exec.{Result, ok, err}

-- `config.MCPServer`, with the fields that the policy reads
pub record McpServer : Type 0 where
  pub allow_tools : List String
  pub deny_tools : List String
  pub allow_mutations : Bool

-- `mutationTokens`
abbrev pub mutation_tokens : List String
mutation_tokens =
    "write" ∷ "create" ∷ "update" ∷ "delete" ∷ "remove" ∷ "destroy" ∷ "drop" ∷ "truncate" ∷ "insert"
    ∷ "upsert" ∷ "mutate" ∷ "publish" ∷ "upload" ∷ "send" ∷ "post_" ∷ "put_" ∷ "patch_" ∷ "exec"
    ∷ "execute" ∷ "shell" ∷ "bash" ∷ "cmd" ∷ "run_command" ∷ "run_script" ∷ "kill" ∷ "restart"
    ∷ "apply" ∷ "set_" ∷ "chmod" ∷ "chown" ∷ "mv_" ∷ "move" ∷ "rename" ∷ "unlink" ∷ []

abbrev pub is_listed : List String → Bool
is_listed [] = false
is_listed (t ∷ ts) = true

module _ (lower : String → String) (contains equal_fold : String → String → Bool) where
  unfoldable pub has_token : String → List String → Bool
  has_token blob [] = false
  has_token blob (tok ∷ toks) = contains blob tok || has_token blob toks

  -- `LooksMutating`
  unfoldable pub looks_mutating : String → String → Bool
  unfolding has_token
  looks_mutating name description =
      let blob = lower (append (trim_space name) (append " " (trim_space description))) in
      if is_empty blob then false else has_token blob mutation_tokens

  -- the loops over a list of tools
  unfoldable pub names_tool : List String → String → Bool
  names_tool [] tool = false
  names_tool (t ∷ ts) tool = equal_fold (trim_space t) tool || names_tool ts tool

  -- `CheckCallAllowed`
  unfoldable pub check_call_allowed : McpServer → String → String → Result (Unit {0})
  unfolding looks_mutating names_tool
  check_call_allowed srv tool_name description =
      let tool = trim_space tool_name in
      let mutating = looks_mutating tool description in
      if is_empty tool
      then err (plain "tool_required")
      else if names_tool srv.deny_tools tool
      then err (plain "tool_denied")
      else if is_listed srv.allow_tools && not (names_tool srv.allow_tools tool)
      then err (plain "tool_not_allowed")
      else if mutating && not srv.allow_mutations
      then err (plain "mutation_denied")
      else if mutating && srv.allow_mutations && is_listed srv.allow_tools
      then ok tt
      else if mutating && srv.allow_mutations && not (is_listed srv.allow_tools)
      then err (plain "mutation_denied")
      else ok tt

-- ===== src/Mcp/Policy/Allowed.antt =====
-- policy.go: `CheckCallAllowed` in one condition.
use buat_postingan.Base.{String, Bool, ◌≡◌, ◌↔◌, true, not, ◌&&◌, ◌||◌, is_empty, trim_space, arith}
use buat_postingan.Exec.{ok}
use buat_postingan.Mcp.Policy.{McpServer, is_listed, looks_mutating, names_tool, check_call_allowed}

-- A call is allowed exactly when its tool has a name, is not on the deny list, is on the allow list
-- if there is one, and does not look mutating unless the server allows mutations and the allow list
-- names the tool.
pub check_call_allowed_iff :
    (lower : String → String) (contains equal_fold : String → String → Bool) (srv : McpServer)
    (name description : String)
    → (check_call_allowed lower contains equal_fold srv name description ≡ ok tt) ↔ (
        let tool = trim_space name in
        let named = names_tool lower contains equal_fold srv.allow_tools tool in
        (not (is_empty tool)
          && not (names_tool lower contains equal_fold srv.deny_tools tool)
          && (not (is_listed srv.allow_tools) || named)
          && (not (looks_mutating lower contains equal_fold tool description)
              || (srv.allow_mutations && is_listed srv.allow_tools && named)))
        ≡ true)
unfolding check_call_allowed
check_call_allowed_iff lower contains equal_fold srv name description = ground arith

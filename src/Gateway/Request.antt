-- ===== src/Gateway/Request.antt =====
-- RequestRecord and fingerprint of runtime_gateway/src/request_registry.cpp.
use embodied_agent_runtime.Common.{ℕ, Bool, ◌||◌, ◌∷◌, ◌++◌, length}
use embodied_agent_runtime.Common.Text.{Text, text, text_eq}
use embodied_agent_runtime.Common.Decimal.{decimal}

pub record RequestRecord : Type 0 where
  pub request_id : Text
  pub task_id : Text
  pub target_id : Text
  pub workflow_id : Text
  pub timeout_ms : ℕ
  pub state : Text
  pub outcome : ℕ
  pub error_code : ℕ
  pub message : Text

-- The six finished states; `is_terminal` and `is_terminal_state` list the same ones.
unfoldable pub is_terminal_state : Text → Bool
is_terminal_state state =
    text_eq state (text "COMPLETED")
    || (text_eq state (text "CANCELED")
        || (text_eq state (text "SAFE_STOP")
            || (text_eq state (text "DEVICE_FAULT")
                || (text_eq state (text "ABORTED") || text_eq state (text "REJECTED")))))

unfoldable pub is_terminal : RequestRecord → Bool
is_terminal record_ =
    text_eq record_.state (text "COMPLETED")
    || (text_eq record_.state (text "CANCELED")
        || (text_eq record_.state (text "SAFE_STOP")
            || (text_eq record_.state (text "DEVICE_FAULT")
                || (text_eq record_.state (text "ABORTED")
                    || text_eq record_.state (text "REJECTED")))))

-- The `append` of `fingerprint`: the length, a colon and the value.
unfoldable pub prefixed : Text → Text
prefixed value = decimal (length value) ++ (b':' ∷ value)

unfoldable pub fingerprint : RequestRecord → Text
fingerprint r =
    prefixed r.request_id
    ++ (prefixed r.task_id
        ++ (prefixed r.target_id ++ (prefixed r.workflow_id ++ prefixed (decimal r.timeout_ms))))

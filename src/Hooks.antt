-- ===== src/Hooks.antt =====
-- internal/pkg/hooks/hub.go: the hub that runs the hooks of a chat. Hooks/Executor is the executor of
-- asynchronous hooks.
pub mod Executor
pub mod Hub
pub mod Tests

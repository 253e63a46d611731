-- ===== src/Lib.antt =====
-- Toni AI Agent: a model of the agent's supervision core.
--
-- A tool call goes through agent/supervisor/SupervisedToolExecutor.ts. It asks the supervisor
-- (ToolchainSupervisor.ts) and the permission engine (agent/core/PermissionEngine.ts) for the call's
-- risk, decides on it (ToolPermission.ts), asks a person where the risk is yellow, consumes the
-- approval in a store, and calls the tool by way of agent/tools/SafeToolExecutor.ts under a session
-- lock, a budget and an abort controller. The coding agent verifies a project and repairs it in
-- bounded attempts; a computer action is checked afterwards on fresh observations of the screen.
--
-- Files:
--   Types, Types/*            agent/types.ts, agent/errors/AgentError.ts and JSON values
--   Policy/*                  PermissionEngine.ts, ToolPermission.ts, ToolchainSupervisor.ts
--   Approval/Manager          agent/approvals/ApprovalManager.ts
--   Approval/Store            agent/approvals/ApprovalStore.ts: `init`, `put`, `consume`, `get`, `size`
--   Approval/Repository       storage/repositories/ApprovalRepository.ts and
--                             agent/approvals/SqliteApprovalAdapter.ts, statements as functions on rows
--   Approval/Compat           `ApprovalStoreCompat` of agent/core/SupervisedToolExecutor.ts
--   Approval/Port             `ApprovalStorePort`, what the executor asks of a store, and its contract
--   Approval/Verifier         agent/supervisor/ApprovalVerifier.ts
--   Limits/*                  the budgets of agent/limits
--   Tools/*                   ToolRegistry.ts and SafeToolExecutor.ts of agent/tools
--   Executor, Executor/Request, Executor/Begin
--                             `execute` up to the tool's call and from its settling on,
--                             `approveAndResume`, `reject`, `cancel`; with SessionLock.ts and
--                             CancellationRegistry.ts of agent/core in the state
--   Executor/Core             `SupervisedToolExecutor` of agent/core/SupervisedToolExecutor.ts, which
--                             wraps it for the provider, and agent/core/ApprovalContinuation.ts
--   Coding/*                  SelfDebugger.ts, VerificationEngine.ts, RepairLoop.ts, RepairSession.ts
--   Computer/*                ComputerActionPolicy.ts, ComputerActionResultValidator.ts,
--                             ComputerVerificationPolicy.ts, ComputerActionLifecycle.ts over
--                             Audit/Log, ComputerActionController.ts over an executor
--                             (`ComputerExecutor`), and ComputerActionWorkflow.ts
--   Coding/RepairStore, Coding/RepairCoordinator
--                             RepairSessionStore.ts and CodingRepairCoordinator.ts of agent/coding
--   Audit/Chain               storage/repositories/AuditRepository.ts, a table chained by a digest
--   Audit/Log                 agent/audit/AuditLog.ts, with `safeText` in Privacy/SafeText
--   Privacy/*                 agent/privacy/ContentFilter.ts, and replacement by a pattern
--   Provider/*                agent/providers/OpenAIToolLoop.ts, ModelPricing.ts and the types of
--                             app/AgentInput.ts, over a `Host` of the client and the executor
--   App/*                     app/InteractiveSession.ts with its commands, and
--                             agent/coding/CodingAgent.ts under app/CodingWorkflow.ts
--   Vision/*                  ScreenPrivacyFilter.ts, ScreenOcrPipeline.ts, ScreenTextProvider.ts,
--                             ScreenMonitor.ts, ScreenSuggestionController.ts,
--                             ScreenSuggestionDebouncer.ts, ScreenContextAssistant.ts of agent/vision
--   Sandbox/*                 ExecutionSandbox.ts and TerminalExecutor.ts of agent/sandbox
--   Browser                   agent/browser/BrowserController.ts over a `Host` of pages
--   Service/*                 app/lifecycle/StartupState.ts, app/health/*, app/observability/
--                             ErrorResponse.ts, agent/worker/WorkerLimits.ts, and RetentionPolicy.ts
--                             and OcrRetention.ts of agent/privacy
--   Common/*                  JavaScript's Map as an association list in insertion order, texts as
--                             lists of code points, Boolean tests
--   Tests/*                   the theorems at concrete inputs
--
-- Modelling: a promise is a step, and what other callers do comes between steps as a list of events;
-- what an approval store returns is taken in the step that asks for it. A thrown error is a value.
-- The clock, new identifiers, hashes, `toLowerCase`, `Date.parse`, the text of a number, whether a
-- write succeeds, tools, verifications and repairs are parameters or arguments. Loops recurse on what
-- is left: the repair loop on its limit, a repair session on the limit and one more, the verification
-- loop of a computer action on three rounds, the tool loop on its turns; the results say that this is enough.
--
-- Not modelled: the capture of the screen and the recognition of text, workers,
-- connectors, the web server and the command line, which are input and output; agent/audit/AuditLogger.ts;
-- the objects that constructors wire. Calls that come in while a repair session, a tool loop or an
-- interactive session awaits something are not modelled either, nor, but for computer actions, an
-- append to the audit file that the file system refuses. A number is a natural one where the code
-- would also take a negative or a fractional one, and a text is cut by code points.
pub mod Common
pub mod Types
pub mod Policy
pub mod Approval
pub mod Limits
pub mod Tools
pub mod Executor
pub mod Coding
pub mod Computer
pub mod Audit
pub mod Vision
pub mod Privacy
pub mod Provider
pub mod App
pub mod Sandbox
pub mod Browser
pub mod Service
pub mod Tests

-- ===== src/Lib.antt =====
-- Embodied agent runtime: a ROS 2 task runtime that turns workflow requests into commands on a CAN
-- bus. This library models its core logic and proves what the logic promises.
--
-- The parts, below ros2_ws/src, and the files that model them:
-- - runtime_can/src/protocol.cpp: `Can.Protocol` has both encoders and decoders; `Can.Decode` and
--   `Can.RoundTrip` prove what they compute.
-- - device_bridge/src/command_policy.cpp: `Bridge.Policy`.
-- - device_bridge/src/diagnostic_state.cpp: `Bridge.Diagnostics`, with `Bridge.Latch` for sequences of
--   its calls.
-- - device_bridge/src/device_bridge_node.cpp: `Bridge.Host` is the interface to ROS 2, the steady clock
--   and the CAN socket; `Bridge.Wait` is receive_response, `Bridge.Node` the goal callbacks and the
--   bookkeeping, `Bridge.Worker` execute and stop_and_finish. `Bridge.Legal` lists the endings that a
--   command may have; `Bridge.Answers`, `Bridge.Endings`, `Bridge.Completion` and `Bridge.Goals` prove.
-- - runtime_gateway/src/request_registry.cpp: `Gateway.Request` is the record with its fingerprint,
--   `Gateway.Registry` every method of the registry. `Gateway.Fingerprint`, `Gateway.Consistency`,
--   `Gateway.Admission` and `Gateway.Rollback` prove.
-- - runtime_gateway/src/durable_idempotency.cpp: `Gateway.Ledger` is the interface of the history
--   store's idempotency rows, `Gateway.Durable` every method; `Gateway.AtMostOnce` and
--   `Gateway.Resolution` prove.
-- - runtime_gateway/src/gateway_service.cpp: `Gateway.Service.Host` has the messages, the state and the
--   interface to gRPC, ROS 2 and the history; `Gateway.Service.State` the struct State with the
--   callbacks of a goal, `Gateway.Service.Submit` SubmitWorkflow, `Gateway.Service.Calls` the other calls and
--   `Gateway.Service.Shutdown` cancel_active and the counters.
--   `Gateway.Service.Once`, `Gateway.Service.OnceState`, `Gateway.Service.OnceAnswer`,
--   `Gateway.Service.OnceSubmit`, `Gateway.Service.OnceCalls` and `Gateway.Service.OneGoal` prove what is claimed and sent in a run of
--   calls.
-- - task_orchestrator/src/ready_state.cpp and task_orchestrator_node.cpp: `Orchestrator.ReadyState`;
--   `Orchestrator.Host` is the interface to ROS 2, the clock, the hooks and the behaviour trees, with the
--   members; `Orchestrator.Node` the constructor, handle_goal and handle_cancel, `Orchestrator.Leaves`
--   the three leaves and the callbacks, `Orchestrator.Terminal` finish and terminal, `Orchestrator.Worker`
--   run_worker and execute. `Orchestrator.Trace` says what effects may follow what;
--   `Orchestrator.Sound`, `Orchestrator.SoundEvents`, `Orchestrator.SoundLeaves`,
--   `Orchestrator.Justified`, `Orchestrator.SoundTerminal` and `Orchestrator.WellEnded` prove it step by
--   step, and `Orchestrator.Goals` composes the goals with the gateway and the executor.
-- - virtual_can_device/src/virtual_can_device_node.cpp: `Device.Node`; `Device.Cache` and
--   `Device.Replay` prove. It answers the frames of `Can` that the bridge waits for.
-- - perception_task_adapter/src/marker_trigger.cpp: `Perception.MarkerTrigger`; `Perception.Confirm`
--   and `Perception.Calls` prove.
-- - task_executor/src/diagnostic_state.cpp, target_validator.cpp and task_event.cpp:
--   `Executor.TaskDiagnosticState`, `Executor.TargetValidator`, `Executor.TaskEvent`;
--   `Executor.FailureLatch` and `Executor.Allowlist` prove.
-- - task_executor/src/task_executor_node.cpp: `Executor.Host` is the interface to ROS 2, the clock and
--   the hooks, with the node's members; `Executor.Node` the constructor and handle_goal;
--   `Executor.Finish` feedback, diagnostics and the end of a task; `Executor.Child` the callbacks and
--   the cancellation of the device command; `Executor.Verdict` finish_from_child;
--   `Executor.Worker` handle_accepted, execute and execute_worker. `Executor.Trace` says what effects may follow
--   what; `Executor.Sound`, `Executor.SoundChild`, `Executor.SoundEnd`, `Executor.SoundWorker`,
--   `Executor.SoundAwait` and `Executor.WellEnded` prove it step by step, and `Executor.Commands`
--   composes the executor's commands with the bridge.
-- - runtime_history/include/runtime_history/stage_event_log.hpp: `History.StageEventLog`, with the
--   reader of `History.Escape`.
-- - runtime_history/src/store.cpp: `History.Store` has the idempotency rows and fills `Gateway.Ledger`,
--   which `History.Clean` and `History.Refines` prove; `History.Tasks` has the rows of finished tasks; `History.Inserted`
--   proves what an insertion leaves, and `History.Ranks` the ranks of the percentiles.
-- - runtime_history/src/recorder.cpp: `History.Recorder`, a step relation; `History.Drain` proves what every
--   state that it reaches holds.
-- - runtime_monitor/src/health_aggregator.cpp: `Monitor.HealthAggregator`, which reads the statuses
--   of `Bridge.Diagnostics` and `Executor.TaskDiagnosticState`; `Monitor.Readiness` proves.
-- `Common` is shared; `Common.Exec` holds the methods that throw, and `Common.Exec.Ensures` the rules
-- that prove what they keep. `Tests` runs the code at concrete inputs.
--
-- How the code is modelled. A statement of SQL is a function on a list of rows; each call of SQLite
-- may fail, and a statement that fails changes nothing. Numbers are natural numbers with each
-- wrap-around and cast written out; an int32_t is an integer with its two's complement bits. A
-- std::string is a list of bytes, an unordered_map an association list, an unordered_set a list
-- without repetitions. A method returns its new state, and where it may throw, the state also
-- beside the exception; a constructor that throws returns none. In the executor each access under
-- the mutex of the device command is one step, before which the callbacks of other threads that
-- have run by then are seen; its theorems hold for any fuel. What a worker does (frames, feedback,
-- diagnostics, stage events, results) is a log in its state. In the gateway's service and in the
-- orchestrator the host says what other threads do between the steps of a call or a worker: in the
-- orchestrator the callbacks of the task and a stop, a cancel, another goal; in the gateway, before
-- each access under a mutex that a call makes itself, callbacks of goals and a stop, each run
-- whole, as reject and dispatch_cancel are. The gateway's calls themselves run one after another. A
-- column of text is read as a C string, so the store is shown to be the gateway's ledger for texts
-- without a NUL byte; the gateway's theorems assume a ledger that keeps its promises for every
-- record. The last ROLLBACK, whose result the store ignores, is taken to have its effect, as SQLite
-- documents. The trees of BehaviorTree.CPP are a parameter, of which only this is assumed: they
-- reach the workflow through its leaves. The code that waits runs on fuel, and each wait is given
-- more rounds than its timeout has nanoseconds, which is enough because every receive takes at
-- least one.
--
-- Not modelled: sockets, gRPC, SQLite, ROS 2 and BehaviorTree.CPP themselves, log lines, two gRPC
-- calls that overlap, GetStats, starting and joining the worker threads, the spinning of the processes,
-- the nodes of the gateway, the history, the monitor and the perception adapter around the parts
-- above, the clients, and the Python adapters.
mod Common
pub mod Can
pub mod Bridge
pub mod Gateway
pub mod Device
pub mod Orchestrator
pub mod Perception
pub mod Monitor
pub mod Executor
pub mod History
mod Tests

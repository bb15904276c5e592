-- ===== src/Lib.antt =====
-- A model of the test framework of the SAS tightening controller: the client side that its tests
-- stand on. A test drives a backend over a WebSocket; the client's receive task hands each message
-- either to the queue of a type that somebody has asked for or to the event log, and the calls of
-- the tests wait on those two. Payload factories make what is sent, the assertions compare what
-- comes back, and an SSH link works the backend's machine around the tests.
--
-- Which file models which part:
-- - Constants: lib/constants.py, the limits and message types.
-- - Json: the values that json.loads gives. A number is an integral number of thousandths; a dict is
--   its fields in the order of insertion. Json/Equality is Python's == on them.
-- - Events: lib/event_accumulator.py. The state is the list of events and the flag of _new_event.
-- - Client: lib/ws_client.py. The state is that of WSClient; _pending_responses is an association
--   list, the socket is the list of the frames that arrive, each with its time, the end of the
--   connection by the peer being one of them, and of what was sent. Client/Waiting has the calls
--   that wait for a queue, Client/Polling wait_for_condition, Client/Methods the convenience methods
--   and Client/Status the properties and recv. Client/Session is a test's use of the client as a
--   list of calls, Client/Mailbox the abstract specification that it is held against, and
--   Client/Reach the client as a step relation, Client/Closing what is left of the client after the
--   end of its connection; the other children hold lemmas and theorems.
-- - Pfop: lib/pfop_client.py, send_mid and recv_frame on bytes and on a stream cut into chunks;
--   Pfop/Link is the client object around them, over a parameter for the socket module. Pfop/Decimal
--   has Python's int() and padded decimals on ASCII, Pfop/Lists the readers of id lists of
--   pfop/test_pfop_job.py and pfop/test_pfop_pset.py.
-- - Factory: ScrewSpecFactory and ModuleFactory of lib/helpers.py; random draws read an arbitrary
--   stream.
-- - Snapshot: assert_snapshot_equal and snapshot_spec_list of lib/helpers.py.
-- - Performance: lib/performance.py and assert_response_time of lib/helpers.py.
-- - Cursor: _wait_status_after of work_mode/test_single_screw_state_machine_plan.py and
--   _wait_compliance_event of machine_type/test_spec_compliance_highlight_plan.py, which
--   Cursor/Query asks for; Cursor/Mode is _wait_work_mode_after and _switch_and_wait of
--   work_mode/test_work_mode_switch.py.
-- - Params: the readers of system parameters, truth values, torque units and compliance maps in
--   machine_type/test_machine_type_constraint_enforcement.py and
--   machine_type/test_spec_compliance_highlight_plan.py.
-- - Constraints: in machine_type/test_machine_type_constraint_enforcement.py, the search for the
--   constraints of the machine types and the choice among them, and in Constraints/Widened the
--   helper _widen; Constraints/Preferred is _get_all_constraints_map of
--   machine_type/test_spec_compliance_highlight_plan.py.
-- - Remote: lib/ssh_utils.py, with lib/db_isolation.py and lib/log_collector.py in Remote/Isolation.
--   The record Host stands for paramiko's client and the machine behind it.
-- - Mcu: lib/mcu_verifier.py. The record Layout stands for the structures of dump_mcu_config.py,
--   which is no part of the repository.
-- - Curve: system/monitor_curve_samples.py, analyze over parameters for its floating-point
--   arithmetic; Curve/Live is run_ws on what its socket receives, Curve/Stored run_db.
-- - Sync: _verify_workmode_sync.py, on the messages that the backend sends, and in Sync/Idle
--   _verify_idle_workmode_switch.py.
-- - Torque: _check_torque_constraints.py.
-- - Fixtures: conftest.py and the fixtures of spec128 and pfop, and in Fixtures/Suites those of
--   work_mode, smoke, system and network. A test is a function on the client's state; the frames
--   that arrive are one list, and each request of a fixture names how many of them come in its time.
--   Fixtures/Reports has the hooks.
-- - Prelude: shared tests, list lemmas, integers, text and the results of Python calls. Examples:
--   runs.
--
-- Time is counted in milliseconds. asyncio runs one task at a time, so the code between two waits is
-- one step, and a wait is given what arrives during it. Loops that poll run on fuel: each round of
-- wait_for_condition and of a wait with a cursor takes at least a millisecond of what is left, so
-- that more fuel than milliseconds is enough; a round of wait_until_ready takes a second. A run that
-- is out of fuel is told apart from every result, and the theorems on these loops show that it does
-- not occur.
--
-- Not modelled: the sockets, JSON's own text, binary frames with invalid UTF-8, a connect that
-- raises or that follows another without disconnect, predicates of wait_for_event that raise (what
-- arrives with a wake-up past the deadline counts as after the call), a constraint without fields in
-- _widen, a list of pairs given to dict(), the wording of what is printed, pytest's registration,
-- the helpers of the tests that halve floats, and the test cases, whose other side is the backend's
-- code.
pub mod Prelude
pub mod Constants
pub mod Json
pub mod Events
pub mod Client
pub mod Pfop
pub mod Factory
pub mod Performance
pub mod Snapshot
pub mod Cursor
pub mod Params
pub mod Remote
pub mod Mcu
pub mod Curve
pub mod Sync
pub mod Torque
pub mod Fixtures
pub mod Constraints
pub mod Examples

-- ===== src/Lib.antt =====
-- The platform libraries of Adaptive-AUTOSAR: a model of their core logic, and its theorems.
--
-- Com is src/ara/com, the SOME/IP middleware. A message goes from its object to a byte vector by
-- Payload and back by Deserialize; a service discovery message carries entries, an entry carries
-- options.
--   Com/Payload   src/ara/com/helper/payload_helper.cpp, ipv4_address.cpp: Inject is inject_short
--                 and inject_integer, ExtractShort is extract_short, ExtractInteger is
--                 extract_integer, Ipv4Address::ToString is address_string.
--   Com/Options   src/ara/com/option: Ipv4EndpointOption, LoadBalancingOption,
--                 OptionDeserializer::Deserialize (deserialize_option).
--   Com/Entries   src/ara/com/entry: ValidateOption, AddFirstOption and Payload; Com/Entries/Build
--                 has the creation functions and EntryDeserializer::Deserialize.
--   Com/Message   src/ara/com/someip/someip_message.cpp: the header.
--   Com/Sd        src/ara/com/someip/sd/someip_sd_message.cpp: Payload is sd_payload.
--   Com/E2e       src/ara/com/e2e/profile11.cpp: TryProtect and Check.
--   Com/Rpc       src/ara/com/someip/rpc/someip_rpc_message.cpp (Rpc/Message) and rpc_server.cpp
--                 (Rpc/Server): TryInvokeHandler is try_invoke_handler.
--                 rpc_client.cpp (Rpc/Client): Send is send. Rpc/Exchange puts both together.
--   Com/Discovery src/ara/com/someip/sd: someip_sd_server.cpp (Discovery/Server) and
--                 someip_sd_client.cpp (Discovery/Client, what it reads in an offer in Endpoint),
--                 with their states under fsm, as the steps of a thread (Server/Waking and
--                 Client/Stepping), and helper/ttl_timer.cpp (Discovery/Timer). Wire and
--                 Handshake put both together.
--   Com/PubSub    src/ara/com/someip/pubsub/someip_pubsub_server.cpp and fsm: onMessageReceived,
--                 Publish, Start and Stop over the state machine of finite_state_machine.h.
--                 PubSub/Client is someip_pubsub_client.cpp with the queue of
--                 helper/concurrent_queue.h; PubSub/Subscription puts both together.
--
-- Diag is src/ara/diag, the diagnostic services.
--   Diag/SecurityAccess   src/ara/diag/security_access.cpp: HandleMessage is handle_message.
--   Diag/Debouncer        src/ara/diag/debouncing: SetEventStatus, and the reports of the
--                         counter-based debouncer.
--   Diag/Event            src/ara/diag/event.cpp: SetEventStatusBits, and what the fault detection
--                         counter shows.
--   Diag/DtcInformation   src/ara/diag/dtc_information.cpp: the trouble codes, their status bytes
--                         and the notifiers.
--   Diag/Monitor          src/ara/diag/monitor.cpp: ReportMonitorAction drives a debouncer, whose
--                         callback sets the event.
--   Diag/Routing          src/ara/diag/routing/uds_service_router.cpp and routable_uds_service.cpp:
--                         Route, AddService and RemoveService over services that share a state.
--   Diag/Transfer         src/ara/diag/routing/transfer_data.cpp and request_transfer_exit.cpp;
--                         Transfer/Request has request_transfer.cpp, download.cpp and upload.cpp, and
--                         Transfer/Session runs the four services behind the router.
--
-- Phm is src/ara/phm/supervisors. An elementary supervision reports to the global one.
--   Phm/Elementary        elementary_supervision.cpp: Report.
--   Phm/Alive             alive_supervision.cpp: a turn of supervise's loop is supervise, and a cycle
--                         with its indications is a step of run.
--   Phm/Deadline          deadline_supervision.cpp: the checkpoints and the worker's wake-up are the
--                         steps of a relation.
--   Phm/Global            global_supervision.cpp: getGlobalUpdate and onElementaryStatusChanged.
--
-- Ucm is src/ara/ucm/package_manager.cpp.
--   Ucm/Environment       what it uses of the system, of JsonCpp, of pugixml and of src/ara/per, as an
--                         interface.
--   Ucm/PackageManager    its transfers and ProcessSwPackage; PackageManager/Activate has Activate.
--
-- Exec is src/ara/exec, execution management. Its servers answer requests of the RPC server.
--   Exec/Common           the error codes, and the strings that go over the wire.
--   Exec/StateServer      state_server.cpp: handleSetState is handle_set_state; serialize is
--                         function_group_state.cpp.
--   Exec/ExecutionServer  execution_server.cpp: handleExecutionStateReport.
--
-- Prelude holds what the parts share: tests on numbers, signed integers, lists, tables for
-- std::map, strings, the outcomes of a C++ call, and the laws of bits.
--
-- A number of w bits is a natural number with its wrap-around written out where the code can pass
-- 2^w. A throwing function returns a Result, whose faults keep the standard
-- exceptions and undefined behaviour apart. A class hierarchy is a data type, a virtual
-- method is a function by clauses, and a method that changes an object returns the new one.
--
-- Only Com.Sd.read_entries takes fuel. Its caller gives one unit more than the bytes of the vector,
-- and each round moves the entry offset on by bytes that are there.
--
-- A service discovery agent has one thread, which sleeps or waits. It runs from one wait to the next
-- in one step, wake or step, and the calls of other threads come between two steps; a list of events
-- is any such order. How a wait ends is an argument of the step. How long it takes is not kept. A
-- wake-up that the source loses, since SetRequested and SetOffered notify without the mutex, is a step
-- that comes later or never.
--
-- A handler of the RPC server is a function of the request's payload. The delay timer of the
-- security access is a bit that time clears. The publish and subscribe server's counter of
-- subscriptions is an int32_t, whose overflow is undefined behaviour. The lock of the publish and
-- subscribe client's queue is taken or not by an argument of each call.
--
-- The alive supervision's thread and the deadline's worker take their steps in any order with those
-- of the callers, one at a time. A wake-up of the worker is possible while it waits, since a wait may
-- end by itself. The mutex of the state server is a bit of the call.
--
-- Not modelled: sockets, the poller, how long threads and timers wait, logging, the generated code
-- and the applications, which are input and output; the clients of execution management, the persistency,
-- and the other libraries under src/ara.
pub mod Prelude
pub mod Com
pub mod Diag
pub mod Exec
pub mod Phm
pub mod Ucm

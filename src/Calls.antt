-- ===== src/Calls.antt =====
-- System calls of a script: app/src/main/cpp/run_system_call.c. The arguments of a call, the checks of its result, the handlers of the calls, and the hand-over to the thread for blocking calls.
pub mod Arguments
pub mod Handlers
pub mod Handover
pub mod Closing
pub mod Thread

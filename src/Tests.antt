-- ===== src/Tests.antt =====
-- Runs of the model on concrete inputs, one module for each part of the program.
mod ProcessTests
mod ReplyTests
mod ReconcilerTests
mod GcTests
mod RoutingTests
mod VerifyTests
mod FsmTests
mod ReviewTests
mod SafetyTests
mod StoreTests
mod RowTests
mod LoopTests

-- ===== src/Amqp.antt =====
-- internal/amqp: the commands' consumers, the lanes and the overflow of the group queue, and the
-- errors that an rpc answers.
pub mod RpcErrors
pub mod Lanes
pub mod Consumer
pub mod Overflow

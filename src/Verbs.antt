-- ===== src/Verbs.antt =====
-- src/liburdma/verbs.c: the verbs that the library offers to its user. The data path is complete:
-- posting of send and receive requests, the accelerated interface, polling and arming of
-- completion queues; of the rest, the registration of regions, the sizes of a new queue pair, and
-- the state of a queue pair as it is read and changed.
pub mod Requests
pub mod Recv
pub mod PostRecv
pub mod Send
pub mod Inline
pub mod PostSend
pub mod PostSendFill
pub mod PostSendOrder
pub mod PostSendQueue
pub mod PostSendOutcome
pub mod Accl
pub mod Poll
pub mod PollOrder
pub mod Regions
pub mod RegionsFound
pub mod State
pub mod Closing
pub mod Create
pub mod Sizes
pub mod Session

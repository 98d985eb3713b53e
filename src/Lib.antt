-- ===== src/Lib.antt =====
-- The shared-memory core of mw::com: how events are written, read and counted in memory that
-- several processes share, and how this memory is cleaned up after a process has died.
--
-- A skeleton allocates a slot, writes an event and makes the slot ready with a time stamp; proxies
-- reference slots and give the references back. Each slot has one atomic word. What a proxy holds
-- is also recorded in its transaction log, from which a restarted process gives it all back.
-- Around it stand the messages by which processes tell each other of new events and of process ids
-- that are out of date, and the count of the samples that the user of a proxy may hold.
--
-- Parts (paths are those of the repository; below, lola stands for mw/com/impl/bindings/lola):
--   EventSlotStatus            lola/event_slot_status.{h,cpp}, a slot's word
--   EventDataControl           lola/event_data_control.{h,cpp}, all slots of an event: State has the
--                              record and the owner's operations, Allocate AllocateNextSlot,
--                              Reference ReferenceSpecificEvent and ReferenceNextEvent
--   EventDataControlComposite  lola/event_data_control_composite.{h,cpp}, the slots as seen by QM and
--                              by ASIL-B readers; it calls EventDataControl
--   EventSubscriptionControl   lola/event_subscription_control.{h,cpp}
--   TransactionLog             lola/transaction_log.{h,cpp} and transaction_log_slot.h
--   TransactionLogSet          lola/transaction_log_set.{h,cpp}; EventDataControl keeps one
--   UidPidMapping              lola/uid_pid_mapping.{h,cpp}
--   SubscriptionStateMachine   lola/subscription_state_machine.{h,cpp} and the states in
--                              lola/subscription_*_states.cpp: Data has the record and the guard of
--                              transaction_log_registration_guard.cpp, NotSubscribed,
--                              SubscriptionPending and Subscribed the states, Moves TransitionToState
--                              and Steps the calls. It uses EventSubscriptionControl and the logs of
--                              EventDataControl
--   SlotCollector              lola/slot_collector.{h,cpp} and slot_decrementer.{h,cpp}; it calls
--                              EventDataControl
--   EventReceiveHandlers       lola/subscription_helpers.{h,cpp}
--   TransactionLogRollbackExecutor  lola/transaction_log_rollback_executor.{h,cpp}: for all events of
--                              a service, it calls TransactionLogSet, EventDataControl,
--                              EventSubscriptionControl, UidPidMapping and NotifyEventHandler
--   SampleReferenceTracker     mw/com/impl/sample_reference_tracker.{h,cpp}
--   ElementFqId                lola/element_fq_id.{h,cpp} and lola/messaging/messages/message_common.cpp
--   Messages                   mw/com/message_passing/message.h and the rest of
--                              lola/messaging/messages/
--   NotifyEventHandler         lola/messaging/notify_event_handler.{h,cpp} and handler_base.h: the file
--                              has the tables and NotifyEvent, Registrations the registering in
--                              this process and at others, Incoming the messages of others. It
--                              sends the messages of Messages
--   MessagePassing             mw/com/message_passing/: Serializer has serializer.cpp and
--                              shared_properties.h, NonBlockingSender non_blocking_sender.{h,cpp}
--   ComError                   mw/com/impl/com_error.h
-- Base has the arithmetic tests, lists, the Option monad, (Base/Maps) maps as lists with a test for
-- the key and (Base/Atomic) atomic words. Tests has
-- the properties applied to concrete data, and runs of the code.
--
-- Operations keep their names in snake case and take the state last. A result none of type Option
-- means that the process ends (a violated precondition, an index out of range, std::terminate).
-- A call through GetTransactionLog is with_transaction_log, whose argument is what the caller does
-- to the log.
--
-- Concurrency: an Interference says what all other processes do to an array of atomic words before
-- each access of the process that is looked at, and which weak exchanges fail spuriously; the words
-- keep their number. A theorem for any Interference holds for any schedule of the others. alone is
-- the Interference without others. Waited relates an array of words to what it has become after
-- accesses of the process that wrote nothing, so a theorem that ends with one write on top of it
-- says when this write was made, on which words, and that it was the only one; Undone does this for
-- the two arrays of the composite, where a write may be taken back. UidPidMapping has Peers in the
-- same role, for a table of entries. The mutexes of NotifyEventHandler make each of its functions
-- one step but where it lets go of its lock: what other threads make of its map before each round
-- of NotifyEventRemote and NotifyEventLocally is an argument. For the non-blocking sender, threads
-- that send and the task that empties the queue are steps in any order. Memory orders are not
-- modelled: accesses are sequentially consistent.
--
-- Loops have the bounds of the code as the number of rounds (101 in AllocateNextSlot, 100 in the
-- reference loops and in AllocateNextMultiSlot, 2 or 3 times max_subscribers, modulo 2^16, in
-- EventSubscriptionControl, 50 in RegisterPid, 255 of 20 process ids each in NotifyEventRemote) or
-- the length of the array that they go over, so no run of these is cut off by the model. Two loops
-- have no bound in the code and run on fuel: NotifyEventLocally, where fuel above all registration
-- numbers is enough, and the exchange in SampleReferenceTracker, where three rounds are enough
-- while nobody interferes; both are theorems. Numbers are written with their width: 64 bits for a
-- slot's word and the counters, 32 for the subscription state, 16 for a sample count.
--
-- What leaves the model is recorded in the order in which it happens: the messages sent, the tasks
-- posted and the handlers called. For the receive handlers of a proxy, these calls are a list and
-- the registration number that comes back is a parameter, number_of. The ring buffer of the
-- non-blocking sender, from another library, is a parameter with its operations and what they do.
--
-- Not modelled: output (performance counters, logging), shared memory and its pointers, the
-- operating system below the messages, with the senders and receivers that are built on it and the
-- facade that makes them; and the parts of mw::com around this core: service discovery,
-- configuration, tracing, and the proxies and skeletons themselves.
pub mod Base
pub mod ComError
pub mod ElementFqId
pub mod EventDataControl
pub mod EventDataControlComposite
pub mod EventReceiveHandlers
pub mod EventSlotStatus
pub mod EventSubscriptionControl
pub mod MessagePassing
pub mod Messages
pub mod NotifyEventHandler
pub mod SampleReferenceTracker
pub mod SlotCollector
pub mod SubscriptionStateMachine
pub mod Tests
pub mod TransactionLog
pub mod TransactionLogRollbackExecutor
pub mod TransactionLogSet
pub mod UidPidMapping

-- ===== src/Lib.antt =====
-- ipmb: a bus on which processes of one machine exchange messages. Paths below are from the root of
-- the repository.
--
-- A process joins the bus under an identifier. The first one becomes the bus controller
-- (ipmb/src/bus_controller.rs), which runs a loop on a thread of its own; the others connect to it
-- with a version, a token and a label. An endpoint sends each message to the controller with a
-- selector, and the controller passes it to the endpoints whose label the selector matches. Handles
-- and shared memory regions travel with a message; a region's header counts the references to it.
--
-- Files, and what they model:
--   Prelude, Prelude/Tests, Prelude/Lists: names of the library, Boolean tests and lists over
--     native numbers.
--   Label: ipmb/src/label.rs, `Label` and `LabelOp` with their operations. Label/Laws treats a
--     label as a set, Label/Matching gives the meaning of `LabelOp::validate`.
--   Version: `Version` of ipmb/src/lib.rs.
--   Errors: ipmb/src/errors.rs.
--   Util: ipmb/src/util/mod.rs, and `alloc_buffer` of ipmb/src/platform/linux.rs.
--   Region: `MemoryRegion` of ipmb/src/platform/mod.rs. Headers holds the contents of all headers,
--     by kernel object, which processes share. Region/Counting has the steps of the processes and
--     the invariant of the count. Region/Mapping is `MemoryRegion::map` and `MappedRegion`.
--   Message: ipmb/src/message.rs, and `Selector`, `encode` and `decode` of ipmb/src/lib.rs.
--     Message/Derive is the code that ipmb-derive/src/lib.rs generates.
--   Linux: ipmb/src/platform/linux.rs and linux/encoded_message.rs: `Message::into_encoded` in
--     Linux/Encode, `EncodedMessage::from_local`, `send` and `extract_remote` in Linux/Receive, over
--     the reads and writes of a byte buffer in Linux/Buffer; `look_up` and `register` in
--     Linux/Connect, over what the system calls return; `IoHub::recv` in Linux/Hub, over the events
--     of the kernel; the wait of linux/io_mul.rs and `is_dead` of linux/fd.rs in Linux/Descriptors.
--   Bus: ipmb/src/bus_controller.rs. Bus has the state, Bus/Connect `endpoint_connect`, Bus/Route
--     `handle_message`, and Bus/Run one round of the loop with `detect_reachable` and `maintain`.
--     `run` folds the round over what `io_hub.recv` returned and the clock showed.
--   Endpoint: `Rule`, `Options`, and in Endpoint/Join `Rule::join` of ipmb/src/lib.rs. The loop
--     runs over a list of rounds, each with what `look_up` and `register` answer and what the clock
--     shows. Endpoint/Session has one round of `EndpointSender::send` and `EndpointReceiver::recv`,
--     and the step under the write lock by which they reconnect; Endpoint/Session/Loops has their
--     loops.
--   Registry: ipmb/src/memory_registry.rs, over the headers of Region. Callbacks are numbers, and
--     `freed` lists those that were called, in order. Registry/Maintain is `maintain_inner`, and
--     Registry/Alloc `alloc_inner`.
--   Windows: ipmb/src/platform/windows/mod.rs: `NamedPipe` with `listen` and `read` in Windows,
--     and `IoHub` in Windows/Hub, over what the system answers. Windows/Wire has the bytes of a
--     message and what becomes of the handles that are made in the remote process, Windows/Connect
--     has `look_up` and `register`, and Windows/Process is windows/util.rs, by which a client gets a
--     handle of the controller's process.
--   Macos: ipmb/src/platform/macos/mod.rs: the bytes of Mach messages in Macos/Wire
--     (`into_encoded`, `send`, `EncodedMessage::new`); Macos/Wire/Hops is about a message that the
--     controller sends on. `Pipe` and `IoHub` in Macos/Hub, over what the kernel answers; `look_up`
--     and `register` in Macos/Connect, which are composed with the hub and the wire format;
--     Macos/Port is `MachPort` and the rights that it owns.
--   Node: ipmb-js/src/lib.rs: `LocalBuffer` with `recv`, `close` and `delegate_receiver` in
--     Node/Buffer, the loop of the receiving thread in Node/Thread, `Sender::send` in Node/Upload.
--     Node/Run has histories of a buffer and an abstract view of it, two growing sequences, which
--     Node/Delivery compares.
--   Ffi: ipmb-ffi/src/lib.rs: the error codes in Ffi, the boxes that handles point to in
--     Ffi/Boxes, the messages and regions in them in Ffi/Messages and Ffi/Regions, and the labels in
--     Ffi/Labels.
--   Each component has its runs on concrete inputs in a module Examples.
--
-- Code outside the repository is a parameter. bincode is `Message.Codec`, with the law that a value
-- is read back from the front of its bytes. The calls of the controller to the platform are
-- `Bus.Platform`, with a state of the world that they thread, so that no behaviour of the kernel is
-- fixed; the link records each send with its result. Mapping is `Region.Mapping.System`. What the
-- kernel did in sendmsg and recvmsg is an argument (`Linux.Receive.Received`).
--
-- Numbers: a `u32` count wraps (`% 2 ^ 32`), `usize` arithmetic wraps at 2 ^ 64, casts to `u32`
-- wrap. The steps of Region/Counting keep fewer than 2 ^ 32 references to an object. Durations and
-- instants are in nanoseconds; the sum of an instant and a time to live panics where it is later
-- than `Bus.Platform.latest`, and other sums of instants are taken not to overflow. A UUID is one
-- number. Loops are over lists; the two that remove by index, `clean_timeout` of ipmb-js and the
-- pass over the pipes, take one more turn than the list is long as fuel, since each turn passes or
-- removes an element. `Rule::join`, `send` and `recv` may go on for ever, and their results say
-- where the list of rounds ends first. A panic, or a read outside a buffer, is `none`, and
-- `panicked` or `panics` in the loops. The loops of macOS are over lists of what the kernel answers,
-- and `climb` takes one more turn than there are parents.
--
-- Not modelled: the generated Mach bindings, the kqueue of macOS, the security descriptors of
-- Windows, the glue of ipmb-ffi and ipmb-js (strings, constructors, threads, cleanup hooks), the
-- registrations with epoll, and logging.
pub mod Prelude
pub mod Label
pub mod Version
pub mod Errors
pub mod Region
pub mod Util
pub mod Message
pub mod Node
pub mod Ffi
pub mod Linux
pub mod Windows
pub mod Macos
pub mod Bus
pub mod Endpoint
pub mod Registry

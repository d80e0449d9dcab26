-- ===== src/Lib.antt =====
-- esp-nimble-host: a Rust BLE host on Apache NimBLE for Espressif chips.
--
-- The crate wraps NimBLE's C host. A `Peripheral` (src/peripheral.rs) is a counted reference to
-- shared state: async methods start a NimBLE procedure and wait, C callbacks change the state and
-- wake them. GATT procedures share a `PeripheralOperation` (src/peripheral_operation.rs) with their
-- callback; reads and writes are in src/characteristic.rs, discovery in src/discovery.rs. The tasks
-- of src/lib.rs move HCI packets between NimBLE and the controller. All C functions return a code
-- that `return_code_to_result` (src/nimble_sys/mod.rs) turns into a `NimbleError`.
--
-- Files:
--   Prelude         tests on numbers, lists over native numbers, results and polls, bit masks
--   Build           build.rs: Table and Load have the configuration and its merge, Config its schema,
--                   Header the generated C header, Patch and Source the patched NimBLE sources,
--                   Main what is compiled
--   Bindings        the constants of the NimBLE headers, as a record
--   Platform        what comes from outside the repository: embassy-sync's signal and channel,
--                   `select`, mbufs and the uuid crate, as a record of operations with laws;
--                   Platform/Concrete is an instance to run the model on
--   Error           src/error.rs and `NimbleError`
--   ReturnCode      src/nimble_sys/mod.rs, `return_code_to_result`; Arms has its tables
--   Host            src/nimble_sys/host.rs and att.rs: mbuf copies and the ATT MTU; GapEvent has the
--                   enums of src/nimble_sys/gap.rs and gatts.rs
--   Operation       src/peripheral_operation.rs and how its users start and end an operation
--   Characteristic  src/characteristic.rs: Read and Write, each with its callback
--   Service         src/service.rs
--   Discovery       src/discovery.rs: Callbacks has the procedures, Enrich what is made of them
--   Data            src/data.rs: Uuid, Address and Advertisement
--   Libc            src/libc.rs: strncat
--   Peripheral      src/peripheral.rs: Events has the GAP event handlers, Connect the calls that
--                   wait for them, Gatt the MTU exchange, the discoveries and the subscriptions;
--                   Gatt/Cache has the cached services over a peripheral's life, Subscriber the
--                   owned subscribers
--   Scanner         src/lib.rs: the scanner and its event handler; Params has the parameters' C struct
--   Sync            src/lib.rs: waiting for the host and the controller to be synced; Start has the
--                   callbacks that `HostTransport::init` registers
--   Transport       src/lib.rs and src/nimble_sys/transport.rs: Receive has one turn of the receiving
--                   task and Receive/Task its waits, Send the senders, Link the queue and the
--                   sending task, Loopback one side after the other
--
-- How the code is modelled. A struct is a record and an enum a data type; integers are numbers,
-- with `as` casts that wrap written out. An async function is its part up to the last await and one
-- poll of that await; NimBLE's calls in between are a list of any length, in any order, so that
-- every interleaving at the awaits is covered. A callback takes the state and returns the code and
-- the new state, or a fault when it would use memory that was freed or panic. An allocation is
-- a strong count, and a box whether it was dropped. Loops over vectors and mbuf chains are recursion
-- on lists. Three functions take fuel: `Build/Patch.count` one more than the text is long, since each
-- match takes at least one character; `Build/Header.decimal` as much as the number, since each digit
-- divides it by ten; and `build` of Build/Source eight changes of the directory, since a build makes
-- at most seven.
--
-- Not modelled: what build.rs prints but for a cfg, its walks of directories, and its calls of
-- bindgen and the C compiler; the decoding of an advertised name; the Rust memory model (a handler
-- is one step); logging; the slot of its channel that a method's own
-- subscriber gives back when the method returns; wrappers that only pass arguments to C.
pub mod Bindings
pub mod Build
pub mod Characteristic
pub mod Data
pub mod Discovery
pub mod Error
pub mod Host
pub mod Libc
pub mod Operation
pub mod Peripheral
pub mod Platform
pub mod Prelude
pub mod ReturnCode
pub mod Scanner
pub mod Service
pub mod Sync
pub mod Transport

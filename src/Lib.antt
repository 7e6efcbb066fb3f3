-- ===== src/Lib.antt =====
-- HANFUN-IoTivity is a bridge between HAN FUN devices and OCF. A HAN client (src/han_client.cpp,
-- inc/han_client.h) talks UDP to a HAN server: its requests are `Message`s, packed to text; a
-- datagram that comes in is unpacked, and a device table goes on to the bridge. The bridge
-- (src/bridge.cpp, inc/bridge.h) discovers OCF devices with IoTivity: it asks for resources, and for
-- each device that answers it walks through a chain of requests, with a `DiscoverContext` that moves
-- from one callback to the next. src/resource.cpp and src/interfaces.cpp hold what is known of a
-- device, src/presence.cpp when it was last seen; src/resource.cpp also sends the requests, again to
-- the other addresses of a device where one does not answer well. The bridge reads the HAN server's
-- device table page by page and launches a process for each device, which is a bridge of its own that
-- stands for the device: it prints a line that src/samples/plugin_manager.cpp reads. It has two resources of its own: the secure mode
-- (src/secure_mode_resource.cpp) and the registration (src/registration_resource.cpp), which opens and
-- closes the HAN server for new devices through the HAN client. src/transport.cpp exchanges messages
-- with a HAN FUN application over TCP.
--
-- Files, and the code that they model:
--   Prelude      shared names: Boolean tests, lists over the native numbers, byte strings,
--                association lists with the counting of their entries
--   Stack        what comes from IoTivity: constants, addresses and payloads, as parameters
--   HanClient    src/han_client.cpp: Cstring and Number for the C library, Message (pack, unpack),
--                DeviceTable (`DeviceTableMessage`), Client (`HanClient`, `client_recv_cb`)
--                Client/Registration: its requests to open and close the registration
--   Resource     src/resource.h, src/resource.cpp, src/interfaces.cpp: `Resource`, `Device`,
--                `GetDevAddrs`, `IsSecure`, `TranslateResourceType`; Links: `SetCollectionLinks`;
--                Query: `ParseQuery`, `IsValidRequest`; Request: `DoResource`, `DoResourceCB`, `Cancel`;
--                Scan: `sscanf` of an endpoint; Parse: `ParseEndpoint`, `ParseLink`
--   Discovery    src/bridge.cpp: Iterator (`DiscoverContext::Iterator`), Ops (the heap, the map
--                `discovered_`, requests), Callbacks and Introspection (the response callbacks up to
--                `exit`), Steps (their ends, `DiscoverCB`), Process (`Destroy`, presence, tasks), Balance (who owns
--                a context), Secure (the two tests for a secure resource),
--                Poll (`Stop`, the OC part of `Process`)
--   Introspection  src/introspection.cpp: Schema (`SetPropertiesSchema`), Definition and Path
--                (`IntrospectDefinition`, `IntrospectPath`), Document (`Introspect`, and
--                `SetIntrospectionData` of src/bridge.cpp)
--   Entity       src/resource.cpp: `CreatePayload`, `SetResourceTypes`, `SetInterfaces`; SecureMode
--                and Registration: the two handlers `EntityHandlerCB`
--   Virtualization  src/bridge.cpp: Publish (`RDPublish`, the task loop), Table (the HAN part of
--                `Process`, `GetDeviceTableCB`, `Destroy` of an address); Identity: src/hash.cpp and
--                `GetProtocolIndependentId` of src/device_information.cpp
--   Transport    src/transport.cpp: `Message`, `HelloMessage`, `on_read`, `Link::send`
--   Plugin       src/samples/hanfun_bridge.cpp: the arguments of `main`, `ExecCB`, `KillCB`,
--                `GetSeenStateCB`; Manager: the loop of src/samples/plugin_manager.cpp
--   Occlient     src/tools/occlient.cpp: Discovered (`DiscoverCB`), Stoi, Arguments and Commands (the
--                loop of `main`), Json (`ConvertJSONToCBOR`)
--   Properties   Attempts (calls up to the first that fails), Device (src/device_resource.cpp,
--                src/platform_resource.cpp, src/virtual_ocf_device.cpp), Start (`Bridge::Start`),
--                Information (`DeviceInformation::Set`)
--   Examples     concrete inputs for the theorems
--
-- The state of the bridge is a record, and its operations are functions in a state monad whose
-- outcome is a result, the use of a dead context, or another undefined behaviour. A `DiscoverContext *`
-- is a number, `new` and `delete` work on a heap, and a handle is a number that grows. Byte strings are
-- lists of numbers; a block of memory is the list of its cells, and what memory holds behind a block
-- is a parameter. In HanClient `none` as a result is undefined behaviour.
--
-- Elsewhere `none` as a result is undefined behaviour, and a call of IoTivity that may fail is a
-- parameter or an input; where a function returns a null pointer or false, `none` is that.
--
-- Fuel: `query_pairs` takes one turn for each pair, and more turns than the query has bytes are enough;
-- the loop of `collect` in Discovery.Iterator.Pairs is enough with more than the number of pairs; `%u` (`decimal_text`) takes
-- as many rounds as its number says; the loop of `SetIntrospectionData` (`encode`) takes two rounds; the exchange
-- with the addresses of a request (`respond`) counts the answers.
-- All other loops are recursions on a list or on the number of rounds.
--
-- Parameters: IoTivity's constants; whether the stack accepts a request, `seen_state_cb_`, whether
-- allocation works, whether a payload takes a property, the own identifier, the time (`World`); the
-- statuses of libuv and the datagrams that it gives. OC_SECURE and OC_FLAG_SECURE are assumed to be
-- the same bit where a theorem says so. HAN-FUN's byte arrays and identifiers are the record `HanFun`,
-- with what they are documented to do as `IsHanFun`; SHA-1 and the text of a UUID are functions of
-- `Library`. TinyCBOR is the record `Cbor`, with what it is documented to do as `IsCbor`. In Introspection
-- the calls that may fail are numbered, and the answer to each is a parameter; in Plugin the results
-- of `fork` are. In Occlient cJSON_Parse is a function, and TinyCBOR a record of its own.
--
-- Not modelled: the introspection payloads that `GetCB` collects, beyond
-- the names in them; security, what the command line client prints, and what the `main` functions do beside the arguments and the lines; the set-up of connections, which only calls libuv; locking and logging. `int` is not bounded
-- in `atoi`.
pub mod Prelude
pub mod Stack
pub mod HanClient
pub mod Resource
pub mod Discovery
pub mod Introspection
pub mod Entity
pub mod Virtualization
pub mod Transport
pub mod Properties
pub mod Plugin
pub mod Occlient
mod Examples

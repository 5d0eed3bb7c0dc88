-- ===== src/Lib.antt =====
-- A model of the protocol adaptation layer of PaumIoT and of its common library, with theorems on
-- it.
--
-- The program. The layer keeps a table of protocol adapters (src/pal/pal.c, include/pal/pal.h). A
-- packet of a protocol goes to the adapter that is registered for it, which decodes it to a
-- message (message_t of include/common/types.h), and a message goes to the adapter of its
-- protocol, which encodes it. There are two adapters, for MQTT
-- (src/pal/adapters/mqtt/mqtt_adapter.c) and for CoAP (src/pal/adapters/coap/coap_adapter.c). Each
-- has a global state with counters. Results are the codes of include/common/errors.h, described by
-- src/common/errors.c. examples/mqtt_to_coap_bridge.c is a program that starts the middleware and
-- shows a message of the layer. Apart from this, common/ is a library of its own: result codes, a
-- queue, a memory pool and a logger.
--
-- The files.
--   Common has names of the libraries, tests on numbers, lists, masks as arithmetic, integers.
--   Codes has paumiot_result_t and paumiot_error_string of the middleware.
--   World has what the functions read and change besides their arguments. These are the states of
--     the two adapters (g_mqtt_state, g_coap_state), the number of memory blocks in use, and the
--     number of requests made to the environment. Env holds the environment's answers to them:
--     whether malloc, calloc, realloc and strdup grant a block, the text of a UUID (libuuid), and
--     the time as text. A function that may fail is a map from a world to a result and a world,
--     and keeps what it changed before it failed. A result is a value, an error code, or a fault:
--     an access outside a buffer, or a computation that C leaves undefined, as an int that
--     overflows. World.Rules has the rules for sequences of calls, World.Buffer those for buffers
--     that are filled.
--   Message has message_create, message_free, message_copy, message_set_payload,
--     message_generate_id and message_generate_timestamp of src/pal/pal.c. A pointer that may be
--     NULL is an Option, a string the list of its characters.
--   Mqtt has Fields (mqtt_decode_var_int, mqtt_encode_var_int, mqtt_decode_string,
--     mqtt_encode_string), Decode (mqtt_decode_publish, mqtt_adapter_decode), Encode
--     (mqtt_encode_publish, mqtt_adapter_encode), Control (capabilities, control commands, init,
--     cleanup). VarInt, Overlong, Bounds and Memory hold the theorems on the decoder, Writes,
--     Room, Format and Layout those on the encoder, Delivery, ReadPublish and Packet those on the
--     decoder against any PUBLISH packet, RoundTrip those on both.
--   Coap has Fields (option extensions, path, content type), Parse (coap_decode_message,
--     coap_free_message), Decode and Encode (coap_adapter_decode, coap_adapter_encode), Control.
--     The other files hold the theorems: Extension, Blocks, Parsing, Bounds, Handlers, Memory,
--     Delivery and Leak on the decoder, Format, ReadOption, ReadOptions, ReadMessage,
--     RefuseOption, EmptyOption, Making, ReadPath and ReadPacket on the decoder against the
--     packets of RFC 7252, Path, Layout, Written and Room on the encoder, Reading, Rebuilding,
--     RoundTrip, RootPath and LongSegment on both.
--   Pal has the table and pal_init, pal_register_adapter, pal_unregister_adapter,
--     pal_find_adapter; Traffic (pal_decode_packet, pal_encode_message, pal_get_stats, pal_cleanup
--     and the tests for NULL of all calls); Builtin (the two adapters as records). Directory says
--     what the table promises over a sequence of calls. Table, Registry, Removal, Distinct, Reach,
--     Dispatch, Capacity, Session, Relay and Cleanup hold theorems.
--   Bridge has the example examples/mqtt_to_coap_bridge.c: parse_args, send_test (the test message
--     of main), event_loop, run_bridge, with_config and main. Its files hold the theorems: Loop,
--     SendTest, Options and Lifecycle.
--   Util has Codes, Queue, Pool and Logging, which model common/src/errors.c, queue.c,
--     memory_pool.c and logging.c. Util.Queue.Threads has queue_enqueue, queue_dequeue, queue_peek
--     and queue_clear once more, as the atomic operations of several threads: a state machine of a
--     thread, and a step relation on the threads and the queue that they share. The other files
--     below these hold theorems.
--
-- Bounds and fuel. A byte that is stored is taken modulo 256, counters, sizes that are subtracted
-- from each other and the addresses of the memory pool modulo 2 ^ 64, packet and message
-- identifiers modulo 2 ^ 16. Two numbers of type int can grow: a length of variable size in its
-- fifth byte, and the seconds that the bridge counts. From 2 ^ 31 on the model has a fault. The
-- encoder of variable length integers has five rounds, which is enough for a uint32_t. The option
-- loop of the CoAP decoder has one round more than the packet has bytes, and each round takes a
-- byte. The path loop of the CoAP encoder has a round for each character, and each round takes
-- one. The event loop of the bridge takes a round more than there are tests of running that
-- succeed. A model that ran out of fuel would end in a fault.
--
-- Not modelled. With several threads, a copy of an element and a memset count as one step each,
-- and the memory model is that of sequentially consistent atomics, which is what the C operations
-- without an order argument are. The functions of the queue that read one value, and its creation,
-- are modelled for one thread. The text of a log line is an argument, since vfprintf makes it. The
-- layers and the client interfaces of middleware/include, client-plugin/include and
-- include/{bll,dal,pdl,smp} have no code. Tests and scripts are left out.
pub mod Common
pub mod Codes
pub mod World
pub mod Message
pub mod Mqtt
pub mod Coap
pub mod Pal
pub mod Bridge
pub mod Util

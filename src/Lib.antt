-- ===== src/Lib.antt =====
-- nkv, a key-value store with a tree of keys and notifications: its core, its storage, its server
-- and its client, from the data structures to the command lines.
--
-- src/trie.rs is Trie.antt: the nodes and the map of a node's children are Trie/Nodes.antt, and
-- insert, get, get_mut and remove keep their names. A trie stands for a map from paths, lists of
-- the parts of a key, to values: value_at in Trie/Lookup.antt. Trie/Shape.antt has the invariant
-- of its shape, Trie/Select.antt what get returns for wildcards, Trie/Remove.antt,
-- Trie/Sweep.antt, Trie/Outcome.antt and Trie/Flag.antt what remove does. The iterator is
-- Trie/Iter.antt, with Trie/IterLaws.antt and Trie/IterKeys.antt about what it yields; Display is
-- Trie/Display.antt. The order of a HashMap is the order of an association list; statements are
-- about members and lookups, not about the order.
--
-- src/storage/traits.rs is Storage.antt: the trait is the record StorageEngine. What the core
-- relies on is the record IsStore, the laws of get, put and delete on the keys that an engine
-- admits; IsLawful adds that keys lists what is stored. The statements about the core, the server
-- and the clients take an engine with IsStore. src/storage/memory_storage.rs is
-- Storage/Memory.antt, which admits every key. src/storage/router_storage.rs is
-- Storage/Router.antt, over the map in memory and the file storage; the engine of the server is
-- that one, and Storage/RouterLaws.antt has the keys it admits: those that start with runtime, and
-- those whose parts are names. Other keys, such as a/b and a..b, can share a file, and nothing is
-- stated of putting them. src/storage/file_storage.rs is Storage/Files.antt, with the paths of
-- keys in Storage/Paths.antt; a path is the list of its components. Storage/PathLaws.antt,
-- Storage/FileLaws.antt and Storage/FileMap.antt are about them. Its method keys, a walk over the
-- directories, is Storage/Folders.antt. What is stated of the file storage is about keys whose
-- parts are names.
--
-- src/nkv.rs is Core.antt and the modules below it: new and get in Core.antt, put in
-- Core/Put.antt, delete in Core/Delete.antt, subscribe, unsubscribe and trace in
-- Core/Subscribe.antt, the struct Notification in Core/Notifications.antt. Every method takes the
-- core and returns the new one beside its result. An Arc<Mutex<Notification>> is the address of a
-- cell of a heap, so clones of it are aliases. Core/Consistent.antt relates the tree of objects to
-- the storage; Core/PutLaws.antt, Core/DeleteLaws.antt and Core/Restart.antt are about put, delete
-- and new, and Core/Delivery.antt and Core/PutDelivery.antt about the messages that a put sends,
-- Core/Greeting.antt about those that a first subscriber gets, Core/SubscribePut.antt about both
-- together, and Core/Addresses.antt about the addresses of the notifiers.
--
-- src/request_msg.rs is Message.antt for the messages to subscribers, and Protocol.antt and the
-- modules below it for the text protocol: requests in Protocol/Request.antt, responses in
-- Protocol/Response.antt, the texts of messages in Protocol/Notice.antt, each with Display as
-- print_ and FromStr as parse_; Debug and PartialEq are Protocol/Debug.antt. Protocol/Words.antt
-- has the functions of str that cut a line. A parser that meets an expect on a failure returns
-- panic.
--
-- src/srv.rs is Server.antt: the task that owns the core is the record Task, its arms are the
-- functions serve_, the handlers keep their names, and one request is one step; a notifier is
-- there only its receiver and its clients. Server/Lines.antt goes from the line of a request to
-- the line of the reply, and Server/Reach.antt is about any sequence of requests, which
-- Server/Replay.antt replays on a map of contents. Server/SubLaws.antt and Server/SubForever.antt
-- are about clients that subscribe to one key, Server/Notified.antt about what the first one
-- hears. Server::new is Server/Start.antt, with start_over for its part behind the constructors of
-- the storage, over any engine; Server/Addresses.antt is about the notifiers from the start on.
-- Server/Started.antt is about a server over a directory, from its start on: the map in memory is
-- empty then, and the keys of the files are listed by the walk. Storage/RouterKeys.antt has what
-- the directory has to be like.
--
-- src/notifier.rs is Notifier.antt and the modules below it: StateBuf in Notifier/StateBuf.antt,
-- the Subscriber of the client side in Notifier/Subscriber.antt, and the tasks that a Notifier
-- spawns in Notifier/System.antt, as a step relation: each step is one thing that one task does, a
-- run is any sequence of steps, and a write to a client may fail at any time. Notifier/Latest.antt
-- has the invariant of a notifier, Notifier/Bounds.antt that of its buffer, Notifier/Settle.antt
-- is about its tasks at rest, and Notifier/Race.antt what may happen to two messages in a row.
--
-- src/lib.rs is Client.antt: the methods of NkvClient keep their names. Client/Wire.antt connects
-- clients to the server of Server.antt.
--
-- src/client/main.rs is ClientProgram.antt: a command takes the client and the network and returns
-- them with the text that it prints; main and the prompt are in ClientProgram/Start.antt. The
-- program stops where an unwrap fails. ClientProgram/Session.antt is about two commands in a row,
-- ClientProgram/Tree.antt about the trie of TREE.
--
-- src/server/main.rs is ServerProgram.antt. The files beside the address of the socket and the
-- file system of the data are two states there: they are taken to be apart.
--
-- src/flag_parser.rs is FlagParser.antt, and src/errors.rs is Errors.antt.
--
-- Not part of the sources, and so arguments: the file system and the crate tempfile (the record
-- FileSystem of Storage/FileSystem.antt, with a model in Storage/FileModel.antt), the channels of
-- tokio (the record Mpsc of Channels.antt with its documented behaviour and a model that has it),
-- the crate regex (a function is_match) and the crate base64 (the record Base64 of
-- Protocol/Base64.antt). Locks are not modelled: the core runs its methods one at a time. UUIDs
-- are arguments of the client, and its network is the record Network of Client.antt. Logging is
-- left out. The crates serde_json, rustyline_async, tracing and dirs_next, the clock, and the
-- tables of Unicode behind to_lowercase and the escapes of Debug are arguments of the client
-- program; UTF-8 and the formats of numbers, bytes and strings are Base/Utf8.antt and
-- Base/Format.antt. A text is the list of its code points, and keys are compared by them.
--
-- Not modelled: the sockets and the framing of src/srv.rs and src/notifier.rs, the signal that
-- stops the server, the reconnection of a Subscriber, and the benchmarks.
--
-- Recursion is structural but for two loops, which take fuel: the iterator of the trie, where the
-- fuel counts the nodes of the trie, and the walk over directories, where it counts the height of
-- the tree of directories. The engine of the server passes the latter on: without enough of it, its
-- keys would list no file.
pub mod Base
pub mod Trie
pub mod Errors
pub mod Storage
pub mod Message
pub mod Channels
pub mod Core
pub mod Protocol
pub mod Server
pub mod FlagParser
pub mod Notifier
pub mod Client
pub mod ClientProgram
pub mod ServerProgram

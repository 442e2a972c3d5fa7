-- ===== src/Lib.antt =====
-- mesh.pp: the parts of the library that keep what a node knows of its peers.
--
-- A node has a `p2pstate_ex` (libp2psocket/p2pstate.cpp). It holds a `communication_state`, the
-- addresses that the node listens on and connects to, a `KBucket` (kbucket/kbucket.hpp) of the
-- contacts that it knows by their node id, the peers whose signature it has verified, and the nodes
-- that were dropped. `p2psocket` (libp2psocket/p2psocket.cpp) calls it for each packet and for each
-- turn of its loop. A `session_manager` (libsessionutility) keeps what is to be done with a peer,
-- and libcryptoutility writes and reads the texts of keys. A `map_loader` (libsystemutility) is a
-- map of values that is kept in files, and a `vector_loader` a list of them. Paths in this comment
-- stand under the directory src of the repository.
--
-- Modules:
--   Prelude        lists, maps as association lists, sets of indices, texts, exceptions
--   Net            what belt.pp says of an address: two destinations that may be empty
--   Communication  libp2psocket/p2pstate.cpp, `peer_state` and `communication_state`.
--                  State: the fields. Insert: add_passive, add_active, set_value and
--                  set_active_value. Removal: remove_later, undo_remove, do_step and
--                  remove_pending. Query: the getters and remove_from_todo_list. Invariant and
--                  Entries: the invariant. Valid: one module for each group of operations.
--                  Reach: runs. Tests: runs at concrete inputs.
--   KBucket        kbucket/kbucket.hpp and kbucket/konnection.hpp. Distance: the index of a
--                  distance. Contacts: the bucket. Kontakt: the distance of two node ids. Valid,
--                  Erase and Metric: proofs.
--   NodeState      libp2psocket/p2pstate.cpp, `p2pstate_ex`. State: its members. Connections:
--                  what it passes on to the communication state. Contacts: what it does with the
--                  bucket. Dropped: the nodes that were dropped. Connected, Distinct, ContactLaws,
--                  AddContact, RemovePending, Backoff and Skipped: proofs.
--   P2pSocket      libp2psocket/p2psocket.cpp. State: its members and packets, and what belt.pp and
--                  the signatures give (Wire). Setup: the constructor and the configured
--                  addresses. Receive, Ping, Exchange: a function for each packet; Dispatch: the
--                  loop of receive. Loop: prepare_wait, timer_action, send, peers_distance. Trust,
--                  Sound, SoundReceive, Returns, Timer, Drop and Join: proofs.
--   Base58         libcryptoutility/cryptoutility.cpp, `to_base58` and `from_base58`. Convert: both,
--                  with their tables. Numeral: digits as numbers. Carry: the loops on the buffer.
--                  Size: the sizes of the buffers. Alphabet: the tables. Encode, Decode, Reads and
--                  RoundTrip: proofs.
--   Keys           libcryptoutility/cryptoutility.cpp. Wif: the texts of private keys. PublicKey:
--                  those of public keys. Distance: `distance`. Bytes: parts of byte strings.
--                  WifRoundTrip, PublicKeyRoundTrip and DistanceValue: proofs.
--   Session        libsessionutility. State: headers, actions and the container. Manager: `add` and
--                  `remove`. Process: `process` and `erase_all_pending`. Invariant: the unique
--                  indices. Found: what is looked for in the container. Errors and
--                  ProcessErrors: actions that are errored. Kept: the sessions that `add` does
--                  not address. Calls: runs. Throws: exceptions of the actions.
--   MapLoader      libsystemutility/fileutility.hpp and fileutility.cpp, `map_loader`. Filename: the
--                  names of the files. State: the members and the calls on keys. Save: save,
--                  discard and commit. Refines: what a loader stands for. Entries, Keys,
--                  Stores, Whole and Runs: proofs.
--   VectorLoader   libsystemutility/fileutility.hpp and fileutility.cpp, `vector_loader`. State: the
--                  members and the calls. Refines: what a loader stands for. Indices, Turns (of
--                  `save`), Saves, Whole and Runs: proofs.
--
-- Choices:
--   * An operation takes its object and returns it. The time that a call reads from a clock is an
--     argument. An unordered_map is an association list in which a key that is written is erased
--     first, so the order of its elements is that of the list; an unordered_set of indices is a
--     list. Of a pair of an iterator and a flag, only what a caller reads is returned.
--   * What C++ leaves undefined (an index out of range, the peer of a passive item) is `none`.
--     Exceptions are values.
--   * An index is a natural number: as many connections as a size_t counts do not occur. The index
--     of a distance wraps around at 2^64, as `--cnt` on a size_t does.
--   * The multi-index container of the bucket is the list of its contacts in the order of the
--     distance from the origin. Its second index only serves to count.
--   * An integer of Crypto++ is a natural number, and its bytes are its digits to the base 256. The
--     digest of a text (SHA-256) is a parameter.
--   * A call of p2psocket returns its `Turn`: the object, the packets that it sent, those that it
--     gives to its caller, and the exception, if it throws one. Each call reads each of the two
--     clocks once; `now` is the steady clock, `clock` the one of the system.
--   * What the socket of belt.pp answers is an argument, or a field of `Wire`: the packets that it
--     received, the peers that it listens or connects as, whether a timer has expired, and the
--     addresses of a peer. `assign` between an address and its message is the identity. `verify`
--     and `sign` are fields too. The log is left out.
--   * Loops on a distance take fuel: `index_from_distance` the distance and `byte_count` the value,
--     more than the number of halvings or of bytes. `decimal` takes the number, and the loop
--     that pads the text of a number takes four.
--   * The stamp of a packet is a time since 1970, a natural number of seconds. The system's clock
--     holds a signed integer of 64 bits; a stamp that does not fit is undefined behaviour. What is
--     left of an address that was moved from is a field of `Wire`.
--   * Bytes of a text that is converted are natural numbers. The digests SHA-256 and RIPEMD-160 and
--     the points of the curve are parameters of the texts of keys.
--   * `isspace` of a byte from 0x80 on is undefined where char is signed; here such a byte is no
--     space. `from_base58` takes the `c_str()` of a text, so a zero byte ends it.
--   * The actions of a session are parameters: a record of what `initiate` and `process` make of an
--     action, the packet and the header, or of the exception that they throw. They do not call the
--     manager that calls them. The container is a list, in which every key is looked for.
--   * The files of a `map_loader` are a function from a file name and a key to a value, and its
--     index file one from a key to a file name; a transaction has a copy of both, which `commit`
--     keeps and `rollback` drops. So it is for a `vector_loader`, with indices for keys and a size
--     in place of the index file. The text of a key is hashed by a parameter.
--
-- Not modelled: the printing of the bucket; signatures, encryption, hex, base64 and the choice of a
-- brain key, which are calls of Crypto++; the settings, lock files, blocks of files and single
-- files of libsystemutility; libmlog; NodeLookup, which no file includes; the test programs
-- and the code that is generated from the message descriptions.
pub mod Prelude
pub mod Net
pub mod Communication
pub mod KBucket
pub mod NodeState
pub mod P2pSocket
pub mod Base58
pub mod Keys
pub mod Session
pub mod MapLoader
pub mod VectorLoader

-- ===== src/Lib.antt =====
-- galaxy: consensus on blocks among a fixed set of nodes, the core logic of its policies.
--
-- A node takes a block from its producer, and the master proposes it to the others; they verify it and
-- answer with a signature; with enough signatures the master commits it and tells the others, who
-- commit it too. The policies fbft, dbft and bft are three forms of this; under solo a node decides on
-- its own. In fbft and dbft a master that stays silent is voted out by a change of view. A node of fbft
-- that comes back asks the others for its height, its view and its master, and for the blocks that it
-- lacks. The participants come from a contract, and the roles say who of them is the master.
--
-- The parts, from the bottom up, with the files of the repository:
--   Base        lists, maps as association lists, reorderings, words that wrap around, and calls that may
--               panic.
--   Account     accounts, blocks, headers and signatures of the types that the code imports.
--   Utils       consensus/utils/utils.go: Abs, AccountFilter, GetAccountById, GetAccountWithMinId.
--   Views       consensus/common/views.go: the votes for a change of view.
--   Content, Plugin   consensus/common/plugin.go: the content of a proposal with its signatures and
--               its state, and the cache of contents. The core keeps pointers to contents, so the cache
--               maps a digest to a number and a heap maps the number to the content.
--   Online      consensus/common/plugin.go: OnlineWizard, the count of the nodes that come online.
--   Messages    consensus/messages/message.go: the messages and their framing on a stream.
--   External    the code of other repositories, as parameters: the store of blocks, the check of a
--               block, signatures, hashes, json and the clock.
--   Payloads    consensus/utils/payloads.go, and HeaderHash of consensus/common/common.go.
--   Fbft        consensus/policy/fbft: the core of a node. Leader, Replica, Sync, ViewChanging and
--               Joining hold its handlers, Dispatch holds ProcessEvent, SendEvent and handleClient, and
--               Policy holds ToConsensus of fbft.go.
--   Bft         consensus/policy/bft: Rounds and Commits hold the handlers of the core, Dispatch the
--               server, Policy holds bft.go. Steps is what happens in a round and,
--               for the blocks a node keeps, from round to round, in any order; Locking is how
--               waitResponse and receiveResponse share a lock and a channel.
--   Dbft        consensus/policy/dbft: bft with a timer on the master, blocks from other nodes and a
--               change of view. Its core is that of bft with more fields, and the functions that the two
--               files have word for word are those of Bft.
--   Solo        consensus/policy/solo/solo.go: the policy of a node on its own.
--   Pbft        consensus/policy/pbft/tools: the event timer and the event manager.
--   Role        role/policy: the assignment of the master to the participants.
--   Participates   participates/policy: the list of the participants.
--
-- A handler is a function from the state of the core, and what is stored, to the new state with a list
-- of effects in the order of the code: messages, events, signals, timers that start, and the block that
-- is switched. A call that may panic gives an Outcome. Names are those of the code in snake case. Where
-- the code takes a lock or runs a handler in a goroutine, a handler is one step; `Step` of
-- Fbft/Dispatch/Steps.antt is a step of a node, and `Reached` any run of steps in any order, so that the
-- wait of waitResponse, of waitMasterTimeout and of ToConsensus is broken up by other steps. A loop over
-- a map of Go takes its order of the entries as an argument.
--
-- Numbers are natural, with the wrap of uint8 and uint64 written out where the code calculates. The
-- loops over heights and of SendEvent run on fuel and give `none` where it ends first; a loop over heights
-- takes one turn more than there are heights, and SendEvent of fbft one turn for an event of a message;
-- that of pbft/tools runs on any receiver, which need not come to an end.
--
-- What is not modelled: sockets and logs; times other than as numbers in messages, and how long a
-- countdown takes; the steps inside a handler, which other goroutines could interleave, except in
-- Bft/Locking.antt; the read lock that receiveChangeViewReq of dbft does not give back; a block pointer
-- that a message leaves nil; the sharing of one block between an entry of the core and the caller of
-- ToConsensus, since blocks are values; the listeners, and the functions that choose a policy by its
-- name.
pub mod Base
pub mod Account
pub mod Utils
pub mod Views
pub mod Content
pub mod Plugin
pub mod Online
pub mod Messages
pub mod External
pub mod Payloads
pub mod Fbft
pub mod Solo
pub mod Bft
pub mod Dbft
pub mod Pbft
pub mod Role
pub mod Participates

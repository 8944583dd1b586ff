-- ===== src/Lib.antt =====
-- The IRC servers of the repository, as programs on explicit state.
--
-- ann/srcs is one process: a poll loop accepts clients, reads bytes from them, cuts the bytes into
-- commands, runs each command on the tables of clients and channels, and appends the replies to a
-- buffer per client, which the loop sends when the socket takes them. The files:
--   Prelude.antt                shared names, Boolean tests and lemmas on lists
--   Text.antt                   std::string as a list of bytes; toLower (ann/srcs/utils.cpp)
--   Ann/State.antt              Cli, Ch and Server of ann/srcs/Server.hpp and their containers
--   Ann/Exec.antt               methods: state passing with a fault, and rules to reason on them
--   Ann/Parse.antt              splitBufToCmds, splitCmdToArgs, splitArgToSubargs (utils.cpp)
--   Ann/Number.antt             atoi and strtol on 64 and 32 bits, as MODE +l uses them
--   Ann/Replies.antt            prepareResp and its kin, getCh, getCli, getCliOnCh, getAdmOnCh,
--                               nbChannels, users (utils.cpp)
--   Ann/Commands/Register.antt  PASS, NICK, USER, CAP, PING, WHOIS (ann/srcs/Commands.cpp)
--   Ann/Commands/Talk.antt      PRIVMSG, NOTICE
--   Ann/Commands/Join.antt      JOIN
--   Ann/Commands/Leave.antt     PART, KICK, QUIT, and eraseCliFromCh (utils.cpp)
--   Ann/Commands/Channel.antt   INVITE, TOPIC
--   Ann/Commands/Mode.antt      MODE, with mode (utils.cpp)
--   Ann/Commands/Dispatch.antt  execCmd
--   Ann/Loop.antt               run, addNewClient, receiveBufAndExecCmds (ann/srcs/Server.cpp),
--                               sendPreparedResps, markPollsToSendMsgsTo, eraseUnusedClis,
--                               eraseUnusedChs (utils.cpp)
-- Proofs stand in modules of their own: Ann/Tables.antt (containers), Ann/Keeps.antt and below it
-- (a command keeps what its assignments keep), Ann/Total.antt (what cannot fault), Ann/Wf.antt and
-- below it (the invariant), Ann/Run.antt (the transition system), Ann/Lookups.antt,
-- Ann/Rights.antt and Ann/Access.antt (who may do what), Ann/Entry.antt and Ann/Admission.antt (JOIN),
-- Ann/Password.antt, Ann/Crash.antt, Ann/Buffers.antt, and the children of Ann/Parse.antt.
-- Ann/Tests.antt holds the tests.
--
-- How the model stands to the code. A pointer to a client is its address, a number; `clis` is the
-- list of live clients in the order of their descriptors, `chs` the list of channels in the order
-- of their names, a std::set of pointers the list of addresses in increasing order. A method is a
-- function from the state to an optional result and state: `none` is undefined behaviour of the
-- code, a null or dangling pointer or an index past the end of a vector, and the process has then
-- ended. The subscript `chs[name]` on a missing name inserts a null pointer in the code, and the
-- code that is modelled dereferences it at once, so the subscript is a fault. Bytes are numbers.
-- `ar`, the arguments of the current command, is an argument of each command.
-- `accept`, `recv` and `send` are not part of the repository: what they answer is the argument of
-- an event. Of `accept` and `new` it is assumed that the descriptor and the address are not in use
-- (`IsAllowed`); nothing is assumed of what clients send, of the order of events, or of how many
-- bytes `send` takes.
-- The loops of the splitting functions run on fuel, one unit more than the length of the text; each
-- round takes a byte at least, and the fuel lemmas show that it is enough. All other loops go over
-- a list. Limits are those of ann/srcs/Server.hpp: 512 bytes for a reply, 5 channels for a client,
-- 5 targets; a channel's limit is a number below 2 ^ 32.
--
-- project/mariia is another server of the same team, with the same parts: a poll loop, a parser of
-- the stream, a registration, and a table of commands. The files:
--   Mariia/Channel.antt         the class of project/mariia/sources/Channel.cpp, whose options are the
--                               bits of an unsigned int
--   Mariia/State.antt           Client and Server (headers/Client.hpp, headers/Server.hpp), the methods
--                               of sources/Client.cpp and the tables of the server
--   Mariia/Exec.antt            methods: state passing that returns, throws, crashes or is undefined
--   Mariia/Words.antt           split, mergeTokensToString, isBitMask and their kin (sources/utils.cpp),
--                               getline and the words of a stream
--   Mariia/Replies.antt         the texts of initServerMessages and serverSend... (sources/Server.cpp,
--                               sources/parsingServer.cpp)
--   Mariia/Modes.antt           handleModeI, T, K, L and O (sources/cmd/processMode.cpp) and
--                               isValidName (sources/utils.cpp), on one channel
--   Mariia/Join.antt            joinExistingChannel and the channel of createAndJoinNewChannel
--                               (sources/cmd/processJoin.cpp), on one channel
--   Mariia/Commands/*.antt      the commands of sources/cmd: Talk (PRIVMSG, NOTICE), Join, Leave (PART,
--                               KICK, QUIT), Mode, Topic (TOPIC, INVITE), Info (NAMES, LIST, WHO, WHOIS,
--                               PING), User (NICK, AWAY), and Common for what several repeat
--   Mariia/Parse.antt           parsBuffer, registrationProcess, processCmd (sources/parsingServer.cpp)
--   Mariia/Loop.antt            run, receiveData, sendData, addClient, removeClient (sources/Server.cpp)
-- Proofs: Mariia/Flags.antt (the mask of options), Mariia/Sound.antt (a channel), Mariia/Life.antt
-- (sequences of operations on it), Mariia/Safe.antt (rules for methods that do not crash),
-- Mariia/Tables.antt (the lists), Mariia/Frame.antt and the modules of Mariia/Calm (no command
-- crashes), Mariia/Wf.antt (the invariant of the server), Mariia/Remove.antt, Mariia/Polls.antt,
-- Mariia/Turn.antt, Mariia/Ends.antt and Mariia/Send.antt (the steps of the loop), Mariia/Run.antt
-- (the transition system), Mariia/Access.antt, Mariia/Delivery.antt, Mariia/Password.antt,
-- Mariia/Tokens.antt, Mariia/Limit.antt, Mariia/Stream.antt and Mariia/Crash.antt. Tests stand in
-- Mariia/Tests.antt and below it.
--
-- There a Client* is the descriptor of the client, which is its key in `clients`, and a Channel* is
-- the name of the channel, by which it is looked up again at each use: names are unique, and no
-- method renames a channel. A method returns or throws with a state. Or it crashes: a null pointer, a
-- read past the end of the tokens of a command, or SIGPIPE, which ends the process. Or its behaviour is
-- undefined and nothing is said of the state: an access to pollFds past its end, which may stay inside
-- the memory of the vector. What it throws is caught in `main`, which goes on. Two values are
-- parameters of the state: the text that ctime gives of the start, and the limit that the constructor
-- of Channel leaves uninitialised. An event is a connection, or what recv or send answers for an entry
-- of the poll. `IsExpected` says of which events the results on steps speak: of a new connection the
-- descriptor is not watched; of what is received no line is the word CAP alone; and a client that is
-- sent to has not closed its end (sendData would raise SIGPIPE, which main does not handle), has no
-- empty message in its queue and, as the last entry of the poll, does not quit.
-- One call of `run` is the marks of the queues and then any number of events. All loops go over a
-- list or a text, so that no fuel is needed but in the printing of a number, which has one unit more
-- than the number.
--
-- Not modelled: sockets, signals, the start of the processes and their argument checks, the
-- destructors, and what is printed to the log (withoutRN, infoCmd, infoServ of ann/srcs);
-- project/boris, a third server of the team; the stub General_server. The other servers under project/
-- are kept in the tree for comparison.
pub mod Prelude
pub mod Text
pub mod Ann
pub mod Mariia

-- ===== src/Lib.antt =====
-- A verification library for local_server_c: a server that answers commands of local clients through
-- a queue in shared memory and named pipes.
--
-- The parts of the program and where they are modelled:
--   libs/connection/connection.c, the request queue: Queue.antt has the state (`ServerQueue`,
--     `ShmRequest`), the calls `send_shm_request` and `fetch_shm_request` with every answer of the
--     kernel as an argument; Queue/System.antt has the interleavings of any number of callers as a
--     step relation; Queue/Invariant.antt and Queue/Preserved.antt the invariant; Queue/Safety.antt
--     and Queue/Progress.antt what follows; Queue/Solo.antt relates the whole calls to the steps.
--     Queue/Life.antt has the making, joining, leaving and removal of the shared memory.
--   libs/connection/connection.c, the request pipe: Request.antt has its functions (the child of
--     send_request too); Request/RoundTrip.antt proves them.
--   libs/connection/connection.c, the response pipe: Response.antt has send_response (its child too)
--     and listen_response; Response/RoundTrip.antt and Response/Status.antt prove them.
--   libs/list/list.c, the list of connected clients: LinkedList/Memory.antt has the heap,
--     LinkedList.antt the functions as commands over it; the modules below it prove them.
--   libs/yml_parser/yml_parser.c, the configuration: Yml/HashMap.antt has the table, Yml.antt the
--     passes of the expressions over a text, Yml/Parser.antt the life of a parser; Yml/Entries.antt,
--     Yml/Reading.antt and Yml/Failures.antt prove them. Yml/Expressions.antt has what the two regular
--     expressions find in a text; Yml/Lines.antt, Yml/Numbers.antt, Yml/Values.antt, Yml/Matches.antt and
--     Yml/RoundTrip.antt prove it for a configuration that is written line by line.
--   libs/commands/commands.c: Commands.antt has the table, the words of a command line and exec_cmd,
--     Commands/Mode.antt strmode and get_color, Commands/Copy.antt the command ccp; Commands/Words.antt,
--     Commands/Running.antt, Commands/Rights.antt and Commands/Copying.antt prove them.
--     Commands/Listing.antt has the command lsl (exec_lsl, print_file_info), with its theorems in
--     Commands/Directories.antt and Commands/Entries.antt; Commands/Info.antt has the commands info and
--     uinfo, with theorems in Commands/Pids.antt; Commands/Handlers.antt has the table of the handlers and
--     the command help, and Commands/Table.antt proves that the tables agree.
--   client.c: Client.antt has the command loop of main on the bytes that the user types,
--     Client/Life.antt main and sig_disconnect; Client/Requests.antt, Client/Answers.antt,
--     Client/Silence.antt, Client/Starting.antt and Client/Ending.antt prove them.
--   server.c: Server.antt has the list of clients, Server/Session.antt the thread of a client
--     (handle_request), Server/Life.antt main, skeleton_dameon and sig_free, Server/Settings.antt how they
--     read the configuration, Server/Crowd.antt the list while clients come and threads end;
--     Server/Clients.antt, Server/Population.antt, Server/Admission.antt (the queue and the list
--     together), Server/Serving.antt (the loop of main over many clients), Server/Starting.antt,
--     Server/Answers.antt, Server/Loading.antt, Server/Configuration.antt and Server/Shutdown.antt prove
--     them.
--   client.c with server.c: Conversation.antt feeds the requests of a client to the thread of the
--     server; Conversation/Pipe.antt has what a client hears of a message, Conversation/Delivery.antt gives
--     it the messages of the thread; Conversation/Whole.antt and Conversation/Delivery.antt prove what
--     comes of it.
--   Base.antt and the modules below it hold shared names, lists, C integers and C strings.
--
-- How they interact in the program: a client stores a request in the queue; the server fetches it
-- and, in `apply`, copies it into the list and starts a thread that serves the client. The client
-- then sends each command through its request pipe and reads the response; Client.antt and
-- Server/Session.antt both run on the models of the pipes and on the table of commands.
--
-- Numbers are native; a `size_t` wraps by `% 2 ^ 64`. Semaphores are their values. A wait on a
-- semaphore at 0 is the outcome `blocked`. The loops of list.c run on fuel of `size + 1` rounds, and
-- the theorems show that this is enough; so do the loops of exec_cmd (a round for each byte of the
-- command line and one more) and of ccp (a round for each byte of the source and one more),
-- and those of the response pipe (a round for each byte and two more). The digits of a number have ten
-- rounds, as a process number is below 10 ^ 10. The client's loop runs on its input.
--
-- The loop of main in server.c runs over a list of rounds: each holds what the clients have made of the
-- shared memory and the threads of the list before the request is fetched, and the answers of the system.
--
-- Not modelled: the messages of errors that are printed, and the
-- formats of `printf`; a line of lsl is a record of what it is printed from. `getopt`, regcomp
-- and regexec, and the answers of the system are arguments; where a theorem needs what regexec finds, it
-- says so as a hypothesis on the two expressions. The size argument of `list_add` is not
-- modelled: an element is copied whole.
pub mod Base
pub mod Queue
pub mod LinkedList
pub mod Yml
pub mod Commands
pub mod Response
pub mod Request
pub mod Server
pub mod Client
pub mod Conversation

-- ===== src/Lib.antt =====
-- The server of a file sharing network. Clients register a name, connect (they tell the server the port
-- of their own server), publish names of files with descriptions, and ask who is connected, what a user
-- has published and where a user is; the files themselves go from client to client. The server keeps a
-- directory ./database/<name>/ for each user, in it a file `connect` with the address and the port while
-- the user is connected, and a directory `files` with a file for each file published, which holds the
-- description. Each request is a thread of servidor.c that reads lines (comm.c), calls one handler of
-- servidor_handle.c and sends the code that it returns.
--
-- Which file models what:
--   Base         Boolean tests, equality, lists and integers over the native numbers.
--   CString      C strings as lists of bytes; snprintf with its cut; the constants of servidor_handle.h.
--   Posix        the interface of the file system: the calls, what POSIX documents of them (IsLawful),
--                and a system whose calls fail for no reason but the tree (IsReliable). Posix.Memory is
--                a tree in memory that satisfies both.
--   ConnectFile  the text of a `connect` file: `%d` printed (Decimal), `%s` and `%d` read (Scan).
--   Registry     what the server promises: a map from names to accounts with one operation for each
--                handler (Spec), the map that a tree of files stands for (View), single operations
--                and what a removal can lose (Deed).
--   Handle       servidor_handle.c. Handle.Paths has its path buffers, Handle.Account handle_register,
--                handle_connect, write_connection, handle_publish, handle_delete and handle_disconnect,
--                Handle.Purge remove_files_in_directory and handle_unregister, Handle.Listing
--                handle_list_users, handle_list_content and handle_get_file. A handler takes the state of
--                the file system and returns its code with the new state. Handle.Refines,
--                Handle.Unregister, Handle.ListUsers, Handle.ListContent, Handle.GetFile and
--                Handle.Names are the proofs. Handle.Layout has what stands where in ./database between two
--                requests, and Handle.Reliable the handlers where calls fail for no reason but the tree;
--                Handle.Tidy has what stays so whatever fails, Handle.Contact a connect file written and
--                read, and Handle.Unregister.Ends that
--                handle_unregister returns.
--   Comm         comm.c: sendMessage, writeLine, readLine and recvMessage (Comm.Receive). What `write` and
--                `read` return or find is an argument, the list of their results in order.
--                Comm.Network has the calls on sockets, with what POSIX documents of them, Comm.Sockets
--                serverSocket, serverAccept, clientSocket and closeSocket, Comm.Descriptors the proofs.
--   Accept       servidor.c: how the loop of `main` hands a socket to a thread, with the first lines of
--                tratar_peticion, as single statements in any order that `mutex` allows. A failed
--                pthread_create ends the process.
--   Request      servidor.c: tratar_peticion after its first lines. Request.Tree has threads as trees of the
--                calls that they make, Request.Calls send_result, send_info_to_rpc and exit_error,
--                Request.Dispatch the dispatch with a function for each operation, Request.Replies what
--                follows the code for LIST_USERS, LIST_CONTENT and GET_FILE. Request.Threads lets
--                threads take turns over the files and `file_mutex`; Request.Serve runs one thread over
--                the bytes of its socket, with readLine and writeLine of Comm. Request.Rules and
--                Request.Obedience with Request.Whole have rules for a thread's calls, from which
--                Request.Order, Request.Exclusion, Request.Release, Request.Stuck, Request.Closed and,
--                with Request.Changes, Request.History, Request.Accounts and Request.ListFiles,
--                Request.Evolution and Request.Tidiness argue. Request.Opening, Request.Orders, Request.Others,
--                Request.Refused, Request.UserList, Request.UserListing and Request.ContentListing are
--                proofs on whole requests, Request.Session on any number of clients one after the other
--                (Request.Clients), Request.Meeting on two requests one after the other, with
--                get_client_address of Request.Peer, Request.FileLines on the loop that sends a list,
--                Request.Buffers on the buffers that sprintf fills.
--   Start        servidor.c: main before its loop. Start.Defs.Errno has what POSIX says of errno after mkdir.
--                Start.Outcomes has how it can end, Start.Accounts what
--                becomes of the accounts over several starts, Start.Tidiness of the directory of users
--                (Start.Directory has one start), Start.Deaf a server without a socket,
--                Start.Service a server that is started and serves clients.
--   Tests        the theorems at work on concrete inputs.
--
-- Bounds and fuel. Handle.Places.IsUser asks a name to be one component of a path with at most 236 bytes,
-- so that ./database/<name>/connect and its NUL fit 256 bytes; Handle.Names says what happens past that.
-- remove_files_in_directory recurses on fuel, one unit for each level of directories, and the predicate
-- Handle.Unregister.Fits asks that it is enough; the directory of a user has one level below it, so 2 is
-- enough there; tratar_peticion takes that fuel as a function of the files. The loop over fgets runs on
-- the length of the file, of which each line takes a byte. `decimal` runs on one unit more than the
-- number, which has fewer digits than that. A byte and a length are natural numbers; the lengths in the
-- code stay far below the bounds of size_t.
--
-- Not modelled: d_type is taken to be exact, as on a system that never sets it to DT_UNKNOWN (POSIX has no
-- such field); malloc is taken to succeed and fscanf's %s not to pass its array; stdio's buffers (a call
-- of fprintf writes when it is made); the value of %d and of atoi past the range of int, which C leaves open;
-- what the server prints on its terminal; the calls of main that set up attributes, mutexes and the
-- condition; an end of the server by a signal, with signal_handler and cleanup; the log
-- over RPC, most of which rpcgen generates; the client, the web service and the tests in Python.
pub mod Base
pub mod CString
pub mod Posix
pub mod ConnectFile
pub mod Handle
pub mod Registry
pub mod Comm
pub mod Accept
pub mod Request
pub mod Start
mod Tests

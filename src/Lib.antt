-- ===== src/Lib.antt =====
-- Frommel, a server for the NetWare Core Protocol: a model of its core and what holds of it.
--
-- The program. A client is a node of the network that attaches to one of a fixed number of service
-- connections (src/src/server/conn.c). A connection keeps who is logged in, and arrays of directory, search
-- and file handles; a directory handle names a volume (src/src/lib/volume.c) and a path on it, and all
-- requests build their paths from such a handle (src/src/server/fs.c). What an object may do in a directory
-- stands in a trustee file there, and is inherited from the directories above (src/src/server/trustee.c).
-- The objects, their properties and the values of these stand in three files (src/src/server/binderyio.c).
-- A connection that has been silent is asked by a watchdog packet, and dropped if it stays silent
-- (src/src/server/wdog.c and conn_cleanup). Other servers tell of their services in packets that fill a
-- table and the bindery (src/src/server/sap.c). A remote console opens a session, proves that it knows the
-- password of the supervisor, and may then clear connections or send messages to them
-- (src/src/server/gasp_server.c). Servers that are configured as linked greet each other
-- (src/src/server/link.c).
--
-- The files.
--   Base       the names all parts share: tests, lists, searches, C strings, bit operations, byte fields
--              (src/include/misc.h) and files of fixed-size records
--   Volume     src/src/lib/volume.c: the table of volumes
--   Station    src/include/conn.h: the record CONNECTION and its handles
--   Fs         src/src/server/fs.c: fs_build_path, directory handles, and in Fs/Files closing of files
--   Opening    the part of src/src/server/fs.c on top of the trustees: fs_open_file and fs_con_alloc_sh
--   Conn       src/src/server/conn.c: attaching, logging out, clearing, counting
--   Watchdog   src/src/server/wdog.c and conn_cleanup
--   Trustee    src/src/server/trustee.c: looking rights up; Trustee/Files: granting and removing them
--   BinderyIo  src/src/server/binderyio.c: the files of objects, properties and values; BinderyIo/Store adds,
--              reads and writes, BinderyIo/Delete deletes
--   Bindery    src/src/server/bindery.c over these files: sets of objects, access checks, passwords; and
--              conn_is_manager and conn_is_operator
--   Sap        src/src/server/sap.c: the table of the services that other servers advertise; Sap/Handle
--              also registers servers in the bindery
--   Gasp       src/src/server/gasp_server.c: the sessions of remote consoles; Gasp/Info answers their
--              questions, Gasp/Handle dispatches their packets
--   Link       src/src/server/link.c: greeting the servers that are configured as linked, and answering
--              their greetings
--   Ncp        src/src/server/ncp.c: requests and replies; Ncp/Messages is src/src/server/ncp_21.c,
--              Ncp/Handle dispatches, and takes the functions that need more than a connection as a
--              parameter; Ncp/Calls is
--              the dispatch of src/src/server/ncp_23.c, whose functions stand in Ncp/About, Ncp/Objects,
--              Ncp/Values, Ncp/Groups, Ncp/Keys and Ncp/Stations; Ncp/Service is the dispatch
--              of src/src/server/ncp_22.c, whose functions stand in Ncp/Dirs, Ncp/Trustees, Ncp/Space and
--              Ncp/Scandir over what Ncp/Machine says of the kernel, and of the stubs
--              src/src/server/ncp_34.c and src/src/server/ncp_87.c; Ncp/Wildcards is match_fn of
--              src/src/lib/misc.c
-- A function keeps its name without the module's prefix: conn_attach_client is Conn.attach_client. The
-- other modules below a part hold its theorems; Tests holds small runs of the code.
--
-- The conventions. The state is passed on explicitly: an operation returns its code and the new state.
-- A result `none` is an access out of bounds, a loop that does not end, or a fault of the same kind; a
-- string is the bytes before its terminator. Numbers are natural, with the cut to 8, 16 or 32 bits
-- written out; -1 is a `none`, a `false`, or the bits of -1. A `uint32` has 32 bits.
--
-- Parameters stand for what is not in the repository: whether a path exists, what files can be created,
-- written and cut, the clock, random numbers, and what stood in memory that was never written. The
-- property of an object that the trustees read is a parameter too, since there are three binderies
-- behind it. A file is the list of its whole records, as it stands when all buffers are written.
--
-- Fuel. The climb of trust_scan_rights gets one round more than the path has bytes: each round makes
-- the path shorter. The loop over SECURITY_EQUALS gets 33 rounds, one for each value of its counter.
--
-- The walk along a chain of properties gets one round more than the file has records: a longer one meets a
-- record again and never ends. Deleting an object gets as many: each round that goes on cuts the file.
--
-- The loop that finds the scale of a volume gets one round more than there are blocks: the scale grows by
-- two in each.
--
-- A received packet is a buffer of bytes with the size that came in; a reply is returned as bytes, with
-- the address it goes to.
--
-- Not modelled: sockets, timers, the main loop, logging, the console programs and the web interface; the hashing of
-- passwords (src/src/lib/crypt.c), which is a copy of another program's and a parameter here; the
-- SQL binderies, whose operations are queries.
-- Of the NCP functions those that work on files (62 to 64, 67 to 69, 71 to 73 and 76) are not modelled
-- either. Functions 18, 22 and 23 stand by themselves: the dispatch of Ncp/Handle, which has no bindery
-- and no trustee files, takes them as a parameter, with all others that it does not know.
pub mod Base
pub mod Volume
pub mod Station
pub mod Fs
pub mod Conn
pub mod Watchdog
pub mod Trustee
pub mod BinderyIo
pub mod Bindery
pub mod Gasp
pub mod Sap
pub mod Link
pub mod Ncp
pub mod Opening
pub mod Tests

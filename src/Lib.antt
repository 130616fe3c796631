-- ===== src/Lib.antt =====
-- unwedge: a daemon that owns a target board (serial console, power, U-Boot, TFTP images, SSH)
-- behind a gRPC service, with an exclusive session lock.
--
-- Ring      internal/serialconsole/ring.go, the scrollback buffer: record Ring, newRing as
--           `new_ring`, `write`, `reset`, `snapshot`.
-- Console   internal/serialconsole/console.go: record Console over a Ring; publish, Subscribe,
--           Close, Reset as atomic operations; a subscription is a Feed, the map `subs` and its
--           channel together; Scanner has the search of WaitForPattern, Rearm its replays.
-- Keys      internal/serialconsole/keys.go: KeyBytes and KeysBytes as `key_bytes`, `keys_bytes`.
-- Session   internal/session/session.go: record Manager and its methods, each atomic under the
--           mutex; Acquire is a loop over rounds, in which the other goroutines act before the
--           attempt and during the wait; Step is the interleaving of all goroutines.
-- Gate      internal/server/session.go: the session RPCs and the interceptor before the other RPCs,
--           on a Manager or, without locking, none.
-- Power     internal/power: a Controller on a world; `cycle`, the hook, the controller in memory,
--           and the APC outlet over SNMP with its address parser.
-- Images    internal/tftp/imagestore.go: the directory as the list of its entries; Save, List,
--           Delete, Prune, the names and the prefix of an instance; Listing has what List shows.
-- Uboot     internal/uboot/uboot.go: sendAndExpect, RunCommand, InterruptBoot and Netboot on a
--           device, which stands for the console, the power control and the receiver of events; Sent
--           and Order have what Netboot writes and its course.
-- Service   internal/server/server.go: handlers that join the parts and map errors to codes; Streams
--           has UploadImage over Images and SCPUpload over Scp, on the list of what is received.
-- Client    internal/client/client.go: the session id that calls carry, Acquire, Release, Ping, and
--           the messages of uploads; its Calls and Uploads put it against Gate and Service.
-- Scp       internal/sshexec/scp.go: SCPUpload and SCPDownload on a wire, the file record, the
--           quoting of the path.
-- Net       SplitHostPort and JoinHostPort of Go's package net, as ClientConfig and Ssh use them.
-- ClientConfig  internal/clientconfig/clientconfig.go: Resolve, ResolveEndpoint, EnsurePort and
--           PreScanConfig, with `of_record` and `of_answer` for what a DNS answer leads to.
-- Daemon    internal/config/config.go: the configuration, Validate, Load; and what
--           cmd/unwedged/main.go builds from it.
-- Mcp       internal/mcp/mcp.go: record Server, AddTool, handleLine as `handle_line` with the switch
--           over the method as `dispatch`, Serve.
-- Bridge    cmd/unwedge-mcp/main.go: callWithSession, ensureSession, sessionLost, the collector of
--           boot events.
-- Ssh       internal/sshexec/sshexec.go: dial as `ssh_dial`, Exec as `exec`, over record Libraries.
-- Tftp      internal/tftp/server.go: readHandler as `read_handler`, on the directory of Images.
-- Cli       cmd/unwedge/main.go: the requests of each command as `requests`, and whether it takes the
--           lock; Locking has their RPCs.
-- Smoke     internal/smoke/smoke.go: Run over what it meets (record World), waitForMarker and trySSH
--           over the lists of their turns, checkSSH as `check_ssh` and `judged`.
-- Grpc      status codes, replies and the int64 arithmetic of durations.
-- Base      shared tests, lists, texts, decimal and hexadecimal texts and integers.
--
-- Numbers are unbounded but for durations in milliseconds, which wrap as int64. Texts are lists of
-- bytes, taken as ASCII. Clock readings, random bytes and what the operating system, the network and
-- libraries answer are arguments. Digits are read off by fuel one above the number, which is
-- enough since each digit divides it by ten. The eight attempts of InterruptBoot are counted down.
-- A loop that waits runs over the list of what arrives, and is still waiting at its end; in Uboot the
-- end of that list is the end of the context.
--
-- The loop over the control lines of scp has fuel one above the length of the input, which is enough
-- since every line it goes on behind takes a byte or more.
--
-- Not modelled: the SSH sessions around transfers, the serial port and TLS helpers, which
-- are calls of libraries; the generated code; the parsing of flags and the printing of the command
-- line client; the byte tunnel and the handlers SCPDownload, GetStatus, WaitForPattern and RunUbootCommand; of the
-- bridge, the tools that only decode arguments, call the stub and print.
pub mod Base
pub mod Bridge
pub mod Cli
pub mod Client
pub mod ClientConfig
pub mod Console
pub mod Daemon
pub mod Gate
pub mod Grpc
pub mod Images
pub mod Keys
pub mod Mcp
pub mod Net
pub mod Power
pub mod Ring
pub mod Scp
pub mod Service
pub mod Session
pub mod Smoke
pub mod Ssh
pub mod Tftp
pub mod Uboot

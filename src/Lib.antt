-- ===== src/Lib.antt =====
-- A verification development for syswatcher, a daemon that collects data of the system through plugins.
--
-- The parts of the program, the files that model them, and how they interact:
-- - include/list.h: rings of linked nodes on a heap, in ListHead. Every function is a command on the
--   heap that can fault, by an access to a node that is not live or to NULL. The two loops run on
--   fuel; a round goes on to the next node, so that more fuel than nodes is enough.
-- - core/fifo.c: the queue of actions, on that heap, in Fifo.
-- - include/plugin_ext_def.h, include/defs.h: the records that cross the border to the plugins, in
--   Channel. CString has the functions of string.h that the sources use.
-- - core/metric.c: the metrics, their time rings and the update threads, in Metric. There the queue is a
--   list, that of Fifo.Queue; Metric.Build and Metric.Destroy build a unit of blocks on the heap, and
--   take it apart. The text of the display is in Display; what printf gives for floating-point numbers
--   is its parameter.
-- - core/plugin_mgr.c: the plugins that are loaded, in PluginMgr: Load, Unload, Parser and Param hold
--   the functions of the same names. It calls `load` and `unload` of its context, which are an
--   interface here, PluginMgr.Host, that the metrics fill in Main (core/main.c).
-- - include/plugin_protocol.h, tools/plugin_client.c: commands as bytes, in PluginProtocol.
-- - core/plugin_server.c: the life of the manager, and the loop that serves the commands of the pipe, in
--   PluginServer. The loop runs on fuel; a round takes a whole command, so that one for each is enough.
-- - core/log.c: the messages and the thread that writes them, in Log.
-- - core/cleanup.c, core/main.c: the end and the start of the daemon, in Cleanup and Main.
-- - core/collector.c: the answers to the clients, in Collector, as steps between which core/metric.c
--   prints new texts.
-- - plugins/plugin_include/plugin_def.h: what every plugin's init function does, in Plugin, with the
--   values that a plugin writes. Plugin.Channels joins it to the plugin manager, and Plugin.Typed goes
--   through the items of all plugins, which are in the Entry module of each.
-- - plugins/mod_cpu: cpu_data.c, the usage of the processors as exact fractions, in CpuData; libcpu.c,
--   the items, in CpuPlugin.
-- - plugins/mod_disk/libdisk.c: the hash table of device names in DeviceTable, and the pass over the
--   mounts in Disk.
-- - plugins/mod_memory/libmemory.c, plugins/mod_temp/libtemp.c, plugins/mod_sysinfo/libsysinfo.c: in
--   Memory, Temperature and SysInfo.
-- - plugins/libs/file.c: reading a file into a buffer, and the copy that is read again when it is old,
--   in File; its two functions on text stand in CpuData.
--
-- Numbers are natural numbers, with the wrap-around of the counters written out; an int that can be
-- negative is an integer. Text is the list of its bytes up to the NUL. What the dynamic linker,
-- `malloc`, the clock and the functions of a plugin do is a parameter, PluginMgr.Env, and so is what
-- the client asks the system, PluginProtocol.ClientEnv. A section under a lock is one step, and an
-- interleaving is a list of steps. A result of `none` stands for a fault: a call or an access through
-- NULL, or past a buffer.
--
-- The loops of the plugins run on the text or the list of reads that they consume; the two that count
-- have fuel, eight rounds for the units of 64 bits and 129 for the 128 places of the sensors. A sum or
-- a percentage that the plugins keep in floating point is an exact number or quotient.
--
-- Not modelled: the JSON tree of the display, the set-up of the sockets, the banner and the signal
-- handlers, which only print or call the system; and the copies of cJSON and of dmidecode, which are
-- other projects' and whose results are arguments.
mod Base
pub mod ListHead
pub mod Fifo
pub mod Channel
pub mod Metric
pub mod CString
pub mod PluginMgr
pub mod PluginProtocol
pub mod PluginServer
pub mod Collector
pub mod Log
pub mod Main
pub mod Cleanup
pub mod CpuData
pub mod DeviceTable
pub mod Disk
pub mod Plugin
pub mod CpuPlugin
pub mod Temperature
pub mod SysInfo
pub mod File
pub mod Memory
pub mod Display

-- ===== src/CpuPlugin/Examples.antt =====
-- The cpu plugin on a /proc/stat with one line.
use syswatcher.Base.{true, some, List, [], ◌∷◌, pos}
use syswatcher.Channel.{Str}
use syswatcher.CString.{codes}
use syswatcher.CpuData.{Stat}
use syswatcher.Display.{m_int32}
use syswatcher.Plugin.{Datum, int32}
use syswatcher.File.{TimelyFile, got}
use syswatcher.CpuPlugin.{Reading, CpuState}

abbrev stat : Str
stat = codes "cpu 10 2 3 85 1 0 0 0"

abbrev no_counts : Stat
no_counts = record { last = 0; last_total = 0 }

abbrev stat_file : TimelyFile
stat_file = record {
  last_read = record { tv_sec = 9; tv_usec = 0 };
  thresh = 0;
  buffer = some (record { text = []; capacity = 65536 });
  buffersize = 65536;
}

abbrev stat_file_read : TimelyFile
stat_file_read = record {
  last_read = record { tv_sec = 10; tv_usec = 0 };
  thresh = 0;
  buffer = some (record { text = stat; capacity = 65536 });
  buffersize = 65536;
}

abbrev second_run : CpuState
second_run = record {
  cpu_stat = stat_file;
  cpuinfo = stat_file;
  run_count = 1;
  stats =
      record {
        core_stat = no_counts;
        user_stat = no_counts;
        sys_stat = no_counts;
        iowait_stat = no_counts;
      }
      ∷ [];
}

abbrev reading : Reading
reading = record { now = record { tv_sec = 10; tv_usec = 0 }; opened = true; reads = got stat ∷ [] }

abbrev unwritten : Datum
unwritten = record { name = []; unit = []; t = m_int32; val = int32 (pos 0) }

abbrev block : List Datum
block = unwritten ∷ unwritten ∷ unwritten ∷ unwritten ∷ []

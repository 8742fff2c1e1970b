-- ===== src/CpuPlugin/Entry.antt =====
-- The init function of plugins/mod_cpu/libcpu.c, and its item of the processor's name.
use syswatcher.Base.{
  ltb, length, take, ℕ, ◌+◌, ◌-◌, ◌*◌, Bool, true, false, ◌||◌, Option, none, some, List, [], ◌∷◌,
  if◌then◌else◌, ℤ, pos, negsuc,
}
use syswatcher.Channel.{Str, CollectItem, PluginInfo}
use syswatcher.CString.{codes, strstr, up_to_newline, strcmp_eq}
use syswatcher.CpuData.{skip_whitespace, skip_token, get_core_num, num_cpustates_func}
use syswatcher.Display.{m_int32, m_string}
use syswatcher.Plugin.{str, int32, Datum, plugin_init_macro}
use syswatcher.PluginMgr.Param.{find_param}
use syswatcher.File.{TimelyFile}
use syswatcher.CpuPlugin.{data_per_core, Reading, read_again, CpuState}

-- What is left of a text of which `rest` is the end, when it is cut after so many bytes of `rest`.
unfoldable pub cut_in : Str → Str → ℕ → Str
cut_in text rest n = take (length text - length rest + n) text

-- The name, and the text as it is after a NUL is set behind the name. The outer `none` is a write
-- through NULL, the inner one a returned NULL.
unfoldable pub find_cpuname : Str → Option (Option Str × Str)
unfolding strstr skip_whitespace skip_token up_to_newline cut_in
find_cpuname info = elim (strstr (codes "model name") info) [
  | none ↦ some (none, info)
  | some p ↦
      let cpuname = skip_whitespace (skip_token (skip_token (skip_token p))) in
      elim (up_to_newline cpuname) [
        | none ↦ none
        | some name ↦ some (some name, cut_in info cpuname (length name))
      ]
]

unfoldable pub spec_data : Str → ℤ → List Datum
spec_data cpuname cores =
    (record { name = codes "cpu name"; unit = codes "N/A"; t = m_string; val = str cpuname })
    ∷ (record { name = codes "cpu num"; unit = codes "N/A"; t = m_int32; val = int32 cores })
    ∷ []

unfoldable pub shown_name : Option Str → Str
shown_name none = codes "unknow"
shown_name (some name) = name

unfoldable pub set_buffer_text : Str → TimelyFile → TimelyFile
set_buffer_text text tf = record tf {
  buffer = elim tf.buffer [ none ↦ none | some b ↦ some (record b { text = text }) ];
}

-- The two readings are of /proc/stat and of /proc/cpuinfo. A name of 128 bytes or more is written past
-- the text of the value.
unfoldable pub cpu_spec_collect : Reading → Reading → CpuState → Option (ℕ × List Datum × CpuState)
unfolding read_again find_cpuname get_core_num spec_data shown_name set_buffer_text
cpu_spec_collect of_stat of_cpuinfo s = elim (read_again of_stat s.cpu_stat) [
  | none ↦ none
  | some (cpu_stat, stat) ↦ elim (read_again of_cpuinfo s.cpuinfo) [
    | none ↦ none
    | some (cpuinfo, info) ↦ elim (find_cpuname info) [
      | none ↦ none
      | some (cpuname, info') ↦
          if ltb 127 (length (shown_name cpuname))
          then none
          else some (
            2,
            spec_data (shown_name cpuname) (get_core_num stat),
            record s { cpu_stat = cpu_stat; cpuinfo = set_buffer_text info' cpuinfo },
          )
    ]
  ]
]

-- corenum as the init function sets it: all cores apart only if SUM is false.
unfoldable pub corenum_for : Option Str → Str → ℤ
unfolding get_core_num
corenum_for sum stat = elim sum [
  | none ↦ pos 0
  | some v ↦
      if strcmp_eq v (codes "false") || strcmp_eq v (codes "FALSE")
      then get_core_num stat
      else pos 0
]

-- corenum + 1; the number of cores is never below -1.
abbrev pub cores_of : ℤ → ℕ
cores_of (pos n) = n + 1
cores_of (negsuc n) = 0

-- items[0] and items[1] of the plugin.
abbrev pub cpu_spec_item : CollectItem
cpu_spec_item = record {
  item_name = codes "cpu spec";
  item_desc = codes "cpu name, core num, and others.";
  run_once = true;
  collect_data_func = 0;
  interval = pos 1;
  data_count = 2;
}

abbrev pub cpu_usage_item : (cores : ℕ) → CollectItem
cpu_usage_item cores = record {
  item_name = codes "cpu usage";
  item_desc = codes "cpu usage, sys user iowait...";
  run_once = false;
  collect_data_func = 1;
  interval = pos 1;
  data_count = cores * data_per_core;
}

unfoldable pub cpu_items : (cores : ℕ) → List CollectItem
cpu_items cores = cpu_spec_item ∷ cpu_usage_item cores ∷ []

abbrev pub cpu_pluginfo : PluginInfo
cpu_pluginfo = record {
  name = some (codes "cpu misc");
  desc = some (codes "all information about cpu");
  version = none;
  collect_item = none;
  item_count = 2;
  argc = 0;
  argv = [];
}

-- PLUGIN_ENTRY(cpu, plugin_info): what is filled in, corenum + 1, libcpu.c's num_cpustates, and the
-- plugin's state.
unfoldable pub cpu_init :
    (malloc : Bool) → Reading → PluginInfo → CpuState → Option (PluginInfo × ℕ × ℕ × CpuState)
unfolding read_again corenum_for cpu_items plugin_init_macro find_param num_cpustates_func
cpu_init malloc reading plugin_info s = elim (read_again reading s.cpu_stat) [
  | none ↦ none
  | some (cpu_stat, stat) ↦ elim (find_param (some plugin_info) (some (codes "SUM"))) [
    | none ↦ none
    | some sum ↦ elim (num_cpustates_func stat) [
      | none ↦ none
      | some num_cpustates ↦
          let cores = cores_of (corenum_for sum stat) in
          elim (plugin_init_macro malloc (cpu_items cores) cpu_pluginfo plugin_info) [
            | none ↦ none
            | some info ↦ some (info, cores, num_cpustates, record s { cpu_stat = cpu_stat })
          ]
    ]
  ]
]

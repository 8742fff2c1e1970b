-- ===== src/CpuPlugin/Writes.antt =====
-- What cpu_data_collect of plugins/mod_cpu/libcpu.c writes, and that it stays in its arrays.
use mathlib.Core.List.{append_assoc}
use syswatcher.Base.{
  ◌%◌, ◌^◌, All-append, ℕ, zero, suc, ◌+◌, ◌*◌, ◌≤◌, ◌<◌, ◌≡◌, refl, ◌∙◌, ◌⊎◌, Bool, true, false,
  some, List, [], ◌∷◌, ◌++◌, ◌==◌, length, length-append, arith, All, Bool-cases, inl, inr,
}
use syswatcher.Channel.{Str}
use syswatcher.Plugin.{Datum, IsDatum}
use syswatcher.File.{TimelyFile}
use syswatcher.CpuPlugin.{
  Reading, read_again, CoreStats, CpuState, data_per_core, core_round, core_loop, cpu_data_collect,
}
use syswatcher.CpuPlugin.Arrays.{split_at}
use syswatcher.CpuPlugin.Rounds.{HasLines, round-writes, round-first}

loop-step :
    (left : ℕ) (first_run : Bool) (i : ℕ) (p : Str) (stats stats' : List CoreStats)
    (data_set data_set' : List Datum)
    → core_round first_run i p stats data_set ≡ some (stats', data_set')
    → core_loop (suc left) first_run i p stats data_set
      ≡ core_loop left first_run (i + 1) p stats' data_set'
unfolding core_loop
loop-step left first_run i p stats stats' data_set data_set' e = rw (e, core_loop) refl

-- A round and the rounds after it, where the lists are in three parts.
loop-more :
    (left i : ℕ) (p : Str) (stats stats' stats'' : List CoreStats)
    (done todo old rest new more : List Datum)
    → todo ≡ old ++ rest
    → core_round false i p stats (done ++ (old ++ rest)) ≡ some (stats', done ++ (new ++ rest))
    → core_loop left false (i + 1) p stats' (done ++ new ++ rest)
      ≡ some (stats'', done ++ new ++ more)
    → core_loop (suc left) false i p stats (done ++ todo) ≡ some (stats'', done ++ (new ++ more))
loop-more left i p stats stats' stats'' done todo old rest new more e round runs =
    rw (e, ← append_assoc done new more)
      (loop-step left false i p stats stats' _ _ round ∙ rw (← append_assoc done new rest) runs)

loop-writes :
    (left i : ℕ) (p : Str) (stats : List CoreStats) (done todo : List Datum)
    → HasLines (i + left) p
    → i + left ≤ length stats
    → length done ≡ i * 4
    → length todo ≡ left * 4
    → (stats' : List CoreStats) × (new : List Datum) × (core_loop left false i p stats
          (done ++ todo)
        ≡ some (stats', done ++ new))
      × (length stats' ≡ length stats)
      × (length new ≡ length todo)
      × All IsDatum new
loop-writes zero i p stats done [] lines room at long =
    (stats, [], unfold core_loop in refl, refl, refl, tt)
loop-writes zero i p stats done (d ∷ todo) lines room at long = absurd (omega arith)
loop-writes (suc left) i p stats done todo lines room at long =
    let (old, rest, e, four, both) = split_at 4 todo (omega (arith, long)) in
    let (q, line) = lines i (omega arith) in
    let (stats', new, runs, l, four', are) =
      round-writes i p q stats done old rest line (omega arith) at four in
    let (stats'', more, runs', l', long', are') =
      loop-writes left (i + 1) p stats' (done ++ new) rest (λ j lt. lines j (omega arith))
        (omega (arith, l, room)) (omega (arith, length-append done new)) (omega arith) in
    (
      stats'',
      new ++ more,
      loop-more left i p stats stats' stats'' done todo old rest new more e runs runs',
      l' ∙ l,
      omega (arith, length-append new more),
      All-append IsDatum new more are are',
    )

loop-first :
    (left i : ℕ) (p : Str) (stats : List CoreStats) (data_set : List Datum)
    → HasLines (i + left) p
    → i + left ≤ length stats
    → (stats' : List CoreStats) × (core_loop left true i p stats data_set ≡ some (stats', data_set))
      × (length stats' ≡ length stats)
loop-first zero i p stats data_set lines room = (stats, unfold core_loop in refl, refl)
loop-first (suc left) i p stats data_set lines room =
    let (q, line) = lines i (omega arith) in
    let (stats', runs, l) = round-first i p q stats data_set line (omega arith) in
    let (stats'', runs', l') =
      loop-first left (i + 1) p stats' data_set (λ j lt. lines j (omega arith))
        (omega (arith, l, room)) in
    (stats'', loop-step left true i p stats stats' data_set data_set runs ∙ runs', l' ∙ l)

-- The state after a collection.
abbrev pub counted : CpuState → TimelyFile → List CoreStats → CpuState
counted s cpu_stat stats' = record {
  cpu_stat = cpu_stat;
  cpuinfo = s.cpuinfo;
  run_count = (s.run_count + 1) % 2 ^ 64;
  stats = stats';
}

collect-parts :
    (first_run : Bool) (reading : Reading) (cores : ℕ) (p : Str) (tf : TimelyFile)
    (data_set data_set' : List Datum) (s : CpuState) (stats' : List CoreStats)
    → read_again reading s.cpu_stat ≡ some (tf, p)
    → (s.run_count == 0) ≡ first_run
    → core_loop cores first_run 0 p s.stats data_set ≡ some (stats', data_set')
    → cpu_data_collect reading cores data_set s
      ≡ some (cores * data_per_core, data_set', counted s tf stats')
unfolding cpu_data_collect
collect-parts first_run reading cores p tf data_set data_set' s stats' got_ e runs =
    rw (cpu_data_collect, got_, e) (rw (runs, cpu_data_collect) refl)

pub cpu_data_collect-writes :
    (reading : Reading) (cores : ℕ) (p : Str) (tf : TimelyFile) (data_set : List Datum)
    (s : CpuState)
    → read_again reading s.cpu_stat ≡ some (tf, p)
    → HasLines cores p
    → cores ≤ length s.stats
    → length data_set ≡ cores * data_per_core
    → (data_set' : List Datum) × (stats' : List CoreStats) × (cpu_data_collect reading cores
          data_set s
        ≡ some (cores * data_per_core, data_set', counted s tf stats'))
      × (length stats' ≡ length s.stats)
      × (length data_set' ≡ length data_set)
      × ((s.run_count ≡ 0) × (data_set' ≡ data_set) ⊎ (0 < s.run_count) × All IsDatum data_set')
cpu_data_collect-writes reading cores p tf data_set s got_ lines room long =
    elim (Bool-cases (s.run_count == 0)) [
      | inl first ↦
          let (stats', runs, l) =
            loop-first cores 0 p s.stats data_set (λ j lt. lines j (omega arith)) (omega arith) in
          (
            data_set,
            stats',
            collect-parts true reading cores p tf data_set data_set s stats' got_ first runs,
            l,
            refl,
            inl (ground arith, refl),
          )
      | inr later ↦
          let (stats', new, runs, l, long', are) =
            loop-writes cores 0 p s.stats [] data_set (λ j lt. lines j (omega arith)) (omega arith)
              (omega arith) long in
          (
            new,
            stats',
            collect-parts false reading cores p tf data_set new s stats' got_ later runs,
            l,
            long',
            inr (ground arith, are),
          )
    ]

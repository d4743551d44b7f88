-- ===== src/Ipc/System.antt =====
-- A queue of ce_util/ce_ipc_shm.c that several processes use. The writer is the process that holds
-- `dbk_write_mark`; between the choice of its block and the end of its record, the thread that looks for
-- blocks that wait too long, processes that end, and readers take steps.
use cloudeagle.Common.{ℕ, ◌+◌, ◌%◌, ◌^◌, ◌<◌, ◌≡◌, none, some, List, Bool, true, length}
use cloudeagle.Common.Memory.{Memory}
use cloudeagle.Ipc.{Shared}
use cloudeagle.Ipc.Readers.{ipc_shm_reader_register, ipc_shm_queue_reader_info_clean}
use cloudeagle.Ipc.Write.{DataRecord, Env, Place, ipc_queue_dbk_get, write_failed}
use cloudeagle.Ipc.Read.{note_read}
use cloudeagle.Ipc.Writing.{IsRecord}
use cloudeagle.Ipc.Record.{finish}
use cloudeagle.Ipc.Timeout.{check_queue, exit_queue}

-- Where the writer stands: between two records, or with a block that it has yet to write to.
pub data Writer : Type 0 where
  idle : Writer
  holding : (dbk : ℕ) (r : DataRecord) → Writer

-- `t_size`
abbrev pub total_size : DataRecord → ℕ
total_size r = (r.rcd_size + 4 + 1) % 2 ^ 32

-- What the callers see to: the record's function writes as many bytes as the record says, and these
-- with the mark and the length are fewer than 2 ^ 32.
abbrev pub Allowed : Writer → Type 0
Allowed idle = Unit
Allowed (holding dbk r) = (content : List ℕ) × IsRecord r content × (length content + 5 < 2 ^ 32)

-- ipc_shm_record_write in two steps: up to decision_write_area, and from there to its end.
pub data WriterStep (fuel : ℕ) (place : Place) (s : Shared) (mem : Memory)
    : Writer → Shared → Memory → Writer → Type 0 where
  get :
      {s' : Shared} {dbk : ℕ} (r : DataRecord) (sent : Bool)
      → ipc_queue_dbk_get fuel s (total_size r) sent ≡ some (s', some dbk)
      → WriterStep fuel place s mem idle s' mem (holding dbk r)
  refuse :
      {s1 s' : Shared} (r : DataRecord) (env : Env)
      → ipc_queue_dbk_get fuel s (total_size r) env.sent ≡ some (s1, none)
      → write_failed fuel env.proc_exist s1 ≡ some s'
      → WriterStep fuel place s mem idle s' mem idle
  fill :
      {s' : Shared} {mem' : Memory} {dbk : ℕ} {r : DataRecord} (env : Env)
      → finish env place r mem s dbk (total_size r) ≡ some (s', mem', true)
      → WriterStep fuel place s mem (holding dbk r) s' mem' idle

-- The steps of the others.
pub data OtherStep (fuel : ℕ) (s : Shared) : Shared → Type 0 where
  timeout : (now : ℕ) (sent : Bool) → OtherStep fuel s (check_queue now sent s)
  leave : (sent : Bool) → OtherStep fuel s (exit_queue sent s)
  note : (pid dbk : ℕ) → OtherStep fuel s (note_read s pid dbk)
  register :
      {s' : Shared} {ok : Bool} (pid : ℕ) (name : List ℕ) (connected : Bool)
      → ipc_shm_reader_register fuel s pid name connected ≡ some (s', ok)
      → OtherStep fuel s s'
  clean :
      {s' : Shared} (pid : ℕ)
      → ipc_shm_queue_reader_info_clean fuel s pid ≡ some s'
      → OtherStep fuel s s'

-- The states that come from one where no block is held, in any order of the steps, for records that
-- are allowed.
pub data Reach (fuel : ℕ) (place : Place) (s : Shared) (mem : Memory)
    : Shared → Memory → Writer → Type 0 where
  start : Reach fuel place s mem s mem idle
  write :
      {s1 s2 : Shared} {mem1 mem2 : Memory} {w1 w2 : Writer}
      → Reach fuel place s mem s1 mem1 w1
      → WriterStep fuel place s1 mem1 w1 s2 mem2 w2
      → Allowed w2
      → Reach fuel place s mem s2 mem2 w2
  other :
      {s1 s2 : Shared} {mem1 : Memory} {w1 : Writer}
      → Reach fuel place s mem s1 mem1 w1
      → OtherStep fuel s1 s2
      → Reach fuel place s mem s2 mem1 w1

-- ===== src/Record/Envelope.antt =====
-- The header of a message: what `record_append_start` and `record_append_end` write around a body,
-- and how `record_get_start` and `record_get_end` take it.
use cloudeagle.Common.{ℕ, ◌+◌, ◌^◌, ◌≤◌, ◌<◌, ◌≡◌, ◌≢◌, ◌∙◌, arith, some, none, List, [], ◌∷◌}
use cloudeagle.Common.Memory.{Memory, Holds, Holds-frame, store, store_outside, ptr_add}
use cloudeagle.Record.{CspRecord, done, failed, Call, ◌>>=◌, ◌>>◌, load_record_size, size_bytes}
use cloudeagle.Record.{init_record, record_start_mark}
use cloudeagle.Record.Append.{record_append_start, record_append_end}
use cloudeagle.Record.Get.{record_get_start, record_get_end}
use cloudeagle.Record.Room.{buf_full-room}

unfoldable pub enclosed : Call (Unit {0}) → Call (Unit {0})
enclosed body = do record_append_start; body; record_append_end

-- The record after `n` bytes more, with memory `m`.
abbrev pub moved : CspRecord → Memory → ℕ → CspRecord
moved r m n = record r { mem = m; pos = r.pos + n; record_size = r.record_size + n }

abbrev pub begun : CspRecord → CspRecord
begun r = record r {
  mem = store (store r.mem r.pos (r.start_mark ∷ [])) (r.pos + 2) (size_bytes 0);
  pos = r.pos + 4;
  record_size = 4;
  cur_msg_hdr = some r.pos;
}

-- The record that `init_record` makes.
abbrev pub fresh : Memory → ℕ → ℕ → ℕ → ℕ → CspRecord
fresh mem mapped start len p = record {
  mem = mem;
  mapped = mapped;
  start = start;
  pos = start;
  end = start + len;
  cur_msg_hdr = none;
  private_data = p;
  start_mark = record_start_mark;
  record_size = 0;
}

pub init_record-fresh :
    (mem : Memory) (mapped start len p : ℕ)
    → 0 < start
    → 0 < len
    → start + len < 2 ^ 64
    → init_record mem mapped start len p ≡ some (fresh mem mapped start len p)
unfolding init_record
init_record-fresh mem mapped start len p nonnull nonempty wrap = ground arith

-- What a body does that leaves `bytes`, and `m`, behind the header.
abbrev pub Wrote : List ℕ → CspRecord → Memory → Type 0
Wrote bytes r m = Holds m r.pos bytes × ((a : ℕ) → a < r.pos → m a ≡ r.mem a)

-- A whole message at `p`: a header with the mark and the size `size`, and `bytes` behind it.
pub record Written (mark p size : ℕ) (bytes : List ℕ) (m : Memory) : Type 0 where
  pub mark_at : m p ≡ mark
  pub size_at : load_record_size m p ≡ size
  pub body_at : Holds m (p + 4) bytes

-- The record after a message whose body took it to `pos` and to the size `size`.
abbrev pub ended : CspRecord → Memory → ℕ → ℕ → CspRecord
ended r m pos size = record r { mem = m; pos = pos; record_size = size; cur_msg_hdr = none }

record_append_start-room :
    (r : CspRecord)
    → r.pos + 4 ≤ r.end
    → r.end + 2 ^ 33 ≤ 2 ^ 64
    → record_append_start r ≡ done tt (begun r)
unfolding record_append_start
record_append_start-room r room wrap =
    let at : ptr_add r.pos 4 ≡ r.pos + 4 = omega arith in rw (buf_full-room r 4 room wrap, at)

load-store_record_size :
    (m : Memory) (p n : ℕ) → n < 2 ^ 16 → load_record_size (store m (p + 2) (size_bytes n)) p ≡ n
unfolding store
load-store_record_size m p n h = ground arith

begun-mark : (r : CspRecord) → (begun r).mem r.pos ≡ r.start_mark
unfolding store
begun-mark r = ground arith

-- `body` goes from the opened message to position `pos` and size `size`.
pub enclosed-room :
    (body : Call (Unit {0})) (r : CspRecord) (m : Memory) (pos size : ℕ) (bytes : List ℕ)
    → r.pos + 4 ≤ r.end
    → r.end + 2 ^ 33 ≤ 2 ^ 64
    → size < 2 ^ 16
    → body (begun r) ≡ done tt (record (begun r) { mem = m; pos = pos; record_size = size })
    → Wrote bytes (begun r) m
    → (m' : Memory) × (enclosed body r ≡ done tt (ended r m' pos size))
      × Written r.start_mark r.pos size bytes m'
unfolding enclosed record_append_end
enclosed-room body r m pos size bytes room wrap small wrote (there, before) = (
  store m (r.pos + 2) (size_bytes size),
  rw (record_append_start-room r room wrap, ◌>>=◌) (rw (wrote, ◌>>=◌)),
  record {
    mark_at =
        store_outside m (r.pos + 2) (size_bytes size) r.pos (omega arith)
        ∙ before r.pos (omega arith)
        ∙ begun-mark r;
    size_at = load-store_record_size m r.pos size small;
    body_at =
        Holds-frame m _ (r.pos + 4) bytes
          (λ a lo hi. store_outside m (r.pos + 2) (size_bytes size) a (omega arith)) there;
  },
)

abbrev pub entered : CspRecord → CspRecord
entered r = record r { pos = r.pos + 4; cur_msg_hdr = some r.pos; record_size = 4 }

pub record_get_start-lem :
    (r : CspRecord) (size : ℕ) (bytes : List ℕ)
    → r.pos + 4 ≤ r.mapped
    → r.mapped < 2 ^ 64
    → size ≢ 0
    → Written r.start_mark r.pos size bytes r.mem
    → record_get_start r ≡ done tt (entered r)
unfolding record_get_start
record_get_start-lem r size bytes mapped wrap nonzero w = ground (arith, w.mark_at, w.size_at)

pub record_get_end-lem :
    (r : CspRecord) (h : ℕ)
    → r.cur_msg_hdr ≡ some h
    → r.record_size ≡ load_record_size r.mem h
    → record_get_end r ≡ done tt (record r { cur_msg_hdr = none; record_size = 0 })
unfolding record_get_end
record_get_end-lem r h opened same = ground arith

pub record_get_end-failed :
    (r : CspRecord) (h : ℕ)
    → r.cur_msg_hdr ≡ some h
    → r.record_size ≢ load_record_size r.mem h
    → record_get_end r ≡ failed r
unfolding record_get_end
record_get_end-failed r h opened differ = ground arith

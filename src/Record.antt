-- ===== src/Record.antt =====
-- cwaf/csp_kernel_record.h and cwaf/csp_kernel_record.c: `struct csp_record`, the cursor over the
-- memory of one message. `Append` has the functions that write a message, `Get` those that read it.
-- A record pointer that a caller passes is not NULL; for a NULL one each function returns -1.
use cloudeagle.Common.{ℕ, ◌+◌, ◌*◌, ◌/◌, ◌%◌, ◌^◌, Bool, ◌||◌, Option, none, some, List, [], ◌∷◌}
use cloudeagle.Common.{ltb, ◌==◌, if◌then◌else◌}
use cloudeagle.Common.Memory.{Memory, ptr_add}
pub mod Append
pub mod Get
pub mod Calls
pub mod Room
pub mod Structs
pub mod Safety
pub mod Envelope
pub mod Message
pub mod Texts
pub mod StructSize
pub mod Reading
pub mod Wraps
mod Tests

-- `struct csp_record` with its `struct csp_wrap_buf`. Pointers are addresses in `mem`, of which
-- those below `mapped` can be read. `private_data` is handed on and never looked into.
pub record CspRecord : Type 0 where
  pub mem : Memory
  pub mapped : ℕ
  pub start : ℕ
  pub pos : ℕ
  pub end : ℕ
  pub cur_msg_hdr : Option ℕ
  pub private_data : ℕ
  pub start_mark : ℕ
  pub record_size : ℕ

-- What a call comes to: `done` for a result with the record after it, `failed` for -1 or NULL, and
-- `fault` for an access through NULL, a header that is not mapped or a C string with no end in mapped
-- memory. The bytes of a number are read whether or not they are mapped.
pub data Reply (A : Type 0) : Type 0 where
  done : A → CspRecord → Reply A
  failed : CspRecord → Reply A
  fault : Reply A

abbrev pub Call : Type 0 → Type 0
Call A = CspRecord → Reply A

infixl 5 ◌>>=◌ ◌>>◌
abbrev pub ◌>>=◌ : {A B : Type 0} → Call A → (A → Call B) → Call B
◌>>=◌ m f r = elim (m r) [ done a r' ↦ f a r' | failed r' ↦ failed r' | fault ↦ fault ]

abbrev pub ◌>>◌ : {A B : Type 0} → Call A → Call B → Call B
m >> k = m >>= λ _. k

abbrev pub result : {A : Type 0} → A → Call A
result a r = done a r

-- RECORD_START_MARK, and `sizeof(struct csp_msg_hdr)`: a mark, a byte of padding and the size in
-- two bytes, the low one first.
abbrev pub record_start_mark : ℕ
record_start_mark = 0xfd

abbrev pub hdr_size : ℕ
hdr_size = 4

abbrev pub size_bytes : ℕ → List ℕ
size_bytes n = (n % 256) ∷ (n / 256 % 256) ∷ []

-- `msg_hdr->record_size` of a header at `h`.
abbrev pub load_record_size : Memory → ℕ → ℕ
load_record_size m h = m (h + 2) + 256 * m (h + 3)

-- BUF_FULL
abbrev pub buf_full : CspRecord → ℕ → Bool
buf_full r sz = ltb r.end (ptr_add r.pos sz)

-- `none` is the failed assertion.
unfoldable pub init_record : Memory → ℕ → ℕ → ℕ → ℕ → Option CspRecord
init_record mem mapped start len private_data =
    if start == 0 || len == 0
    then none
    else some (record {
      mem = mem;
      mapped = mapped;
      start = start;
      pos = start;
      end = ptr_add start len;
      cur_msg_hdr = none;
      private_data = private_data;
      start_mark = record_start_mark;
      record_size = 0;
    })

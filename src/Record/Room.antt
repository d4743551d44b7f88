-- ===== src/Record/Room.antt =====
-- Calls that have room: the tests pass, and the cursor moves by the bytes taken.
use cloudeagle.Common.{
  ℕ, ◌+◌, ◌%◌, ◌^◌, ◌≤◌, ◌<◌, ◌≡◌, arith, some, none, List, length, true, false,
}
use cloudeagle.Common.Memory.{store, ptr_add}
use cloudeagle.Record.{CspRecord, done, failed, fault, load_record_size, buf_full}
use cloudeagle.Record.Append.{append_checked}
use cloudeagle.Record.Get.{get_checked, past_end, skip}

pub buf_full-room :
    (r : CspRecord) (sz : ℕ) → r.pos + sz ≤ r.end → r.end + 2 ^ 33 ≤ 2 ^ 64 → buf_full r sz ≡ false
buf_full-room r sz room small = ground arith

-- Where there is room for them, bytes are written at the cursor, and it moves behind them.
pub append_checked-room :
    (bytes : List ℕ) (r : CspRecord)
    → r.pos + length bytes ≤ r.end
    → r.end + 2 ^ 33 ≤ 2 ^ 64
    → append_checked bytes r
      ≡ done tt (record r {
        mem = store r.mem r.pos bytes;
        pos = r.pos + length bytes;
        record_size = (r.record_size + length bytes) % 2 ^ 16;
      })
unfolding append_checked
append_checked-room bytes r room small =
    let e : ptr_add r.pos (length bytes) ≡ r.pos + length bytes = omega arith in
    rw (buf_full-room r (length bytes) room small, e)

pub past_end-room :
    (r : CspRecord) (h sz : ℕ)
    → r.record_size + sz ≤ load_record_size r.mem h
    → r.record_size + sz < 2 ^ 16
    → r.pos + sz ≤ r.end
    → r.end + 2 ^ 33 ≤ 2 ^ 64
    → past_end (2 ^ 64) sz r h ≡ false
past_end-room r h sz fits small room wrap = ground arith

-- Inside the message, a read returns its value and moves the cursor.
pub get_checked-room :
    {A : Type 0} (h sz : ℕ) (value : CspRecord → A) (r : CspRecord)
    → r.cur_msg_hdr ≡ some h
    → r.record_size + sz ≤ load_record_size r.mem h
    → r.record_size + sz < 2 ^ 16
    → r.pos + sz ≤ r.end
    → r.end + 2 ^ 33 ≤ 2 ^ 64
    → get_checked (2 ^ 64) sz value r
      ≡ done (value r) (record r { pos = r.pos + sz; record_size = r.record_size + sz })
unfolding get_checked
get_checked-room h sz value r opened fits small room wrap =
    let at : ptr_add r.pos sz ≡ r.pos + sz = omega arith in
    let size : (r.record_size + sz) % 2 ^ 16 ≡ r.record_size + sz = omega arith in
    simp (opened, get_checked) (rw (past_end-room r h sz fits small room wrap, at, size))

-- The three ways that a checked read goes.
module _ {A : Type 0} (wide sz : ℕ) (value : CspRecord → A) (r : CspRecord) where
  pub get_checked-none : r.cur_msg_hdr ≡ none → get_checked wide sz value r ≡ fault
  unfolding get_checked
  get_checked-none closed = simp (closed, get_checked)

  pub get_checked-past :
      (h : ℕ)
      → r.cur_msg_hdr ≡ some h
      → past_end wide sz r h ≡ true
      → get_checked wide sz value r ≡ failed r
  unfolding get_checked
  get_checked-past h opened past = simp (opened, get_checked) (rw past)

  pub get_checked-inside :
      (h : ℕ)
      → r.cur_msg_hdr ≡ some h
      → past_end wide sz r h ≡ false
      → get_checked wide sz value r ≡ done (value r) (skip sz r)
  unfolding get_checked
  get_checked-inside h opened inside = simp (opened, get_checked) (rw inside)

-- ===== src/Record/Tests.antt =====
-- Runs of the record functions, and the theorems at concrete inputs.
use cloudeagle.Common.{ℕ, ◌+◌, ◌-◌, refl, ◌*◌, ◌%◌, ◌^◌, ◌≡◌, arith, some, none, List, [], ◌∷◌, map}
use cloudeagle.Common.Memory.{Memory, Holds, load}
use cloudeagle.Value.{value_append}
use cloudeagle.Record.{CspRecord, done, failed, ◌>>◌, init_record}
use cloudeagle.Record.Append.{record_append_string, record_append_struct}
use cloudeagle.Record.Wraps.{record_append_struct-wraps}
use cloudeagle.Record.Get.{
  get_checked, record_get_skip_bytes, record_get_start, record_get_string, record_get_struct,
  record_get_end,
}
use cloudeagle.Record.Calls.{
  bool, int, ushort, float, open_msg, close_msg, value, string, struct, AppendCall, append_calls,
  append_struct,
}
use cloudeagle.Record.Envelope.{enclosed, fresh}
use cloudeagle.Record.Safety.{Keeps, append_calls-Keeps}
use cloudeagle.Record.Reading.{GetCall, get_calls, Stays, get_calls-Stays}
use cloudeagle.Record.Message.{Field, write_message, read_message, kind_of, read_back}
use cloudeagle.Record.Message.RoundTrip.{read_message-write_message}
use cloudeagle.Record.Texts.{record_get_end-record_get_string}
use cloudeagle.Record.StructSize.{record_get_end-record_get_struct}

abbrev zeroes : Memory
zeroes a = 0

abbrev masked : ℕ → ℕ → ℕ
masked b s = b * 2 ^ (s % 32) % 2 ^ 32

abbrev fields : List Field
fields = (int, 897879) ∷ (bool, 257) ∷ (ushort, 8080) ∷ (float, 0x7f800001) ∷ []

abbrev name : List ℕ
name = b's' ∷ b'h' ∷ b'a' ∷ []

read_message-write_message_example :
    (w r q : CspRecord) × (init_record zeroes 2000 100 1000 0 ≡ some w)
    × (write_message fields w ≡ done tt r)
    × (init_record r.mem 2000 100 r.record_size 7 ≡ some q)
    × (read_message masked (map kind_of fields) q
        ≡ done
            (map read_back fields)
            (record q { pos = 100 + r.record_size; cur_msg_hdr = none; record_size = 0 }))
unfolding value_append
read_message-write_message_example =
    read_message-write_message masked fields zeroes 2000 100 1000 0 7 (omega arith) (omega arith)
      (omega arith) (omega arith) (omega arith) (omega arith)

record_get_end-record_get_string_example :
    (w r q s : CspRecord) × (init_record zeroes 2000 100 1000 0 ≡ some w)
    × (enclosed (record_append_string name) w ≡ done tt r)
    × (init_record r.mem 2000 100 r.record_size 7 ≡ some q)
    × ((record_get_start >> record_get_string) q ≡ done (100 + 4, 3) s)
    × (load s.mem (100 + 4) 3 ≡ name)
    × (record_get_end s ≡ failed s)
record_get_end-record_get_string_example =
    record_get_end-record_get_string name zeroes 2000 100 1000 0 7 (omega arith) (omega arith)
      (omega arith) (omega arith) (omega arith) (omega arith)

record_get_end-record_get_struct_example :
    (w r q s : CspRecord) × (init_record zeroes 2000 100 1000 0 ≡ some w)
    × (enclosed (append_struct name) w ≡ done tt r)
    × (100 + r.record_size ≡ r.pos + 4)
    × (init_record r.mem 2000 100 r.record_size 7 ≡ some q)
    × ((record_get_start >> record_get_struct masked) q ≡ done (100 + 4 + 4, 3) s)
    × Holds s.mem (100 + 4 + 4) name
    × (record_get_end s ≡ failed s)
record_get_end-record_get_struct_example =
    record_get_end-record_get_struct masked name zeroes 2000 100 1000 0 7 (omega arith)
      (omega arith) (omega arith) (omega arith) (omega arith)

-- A caller that writes into a record of 20 bytes and minds no result.
abbrev careless : List AppendCall
careless =
    close_msg
    ∷ open_msg
    ∷ value int 5
    ∷ string name
    ∷ struct name
    ∷ struct (0 ∷ name)
    ∷ close_msg
    ∷ []

append_calls-Keeps_example :
    Keeps (fresh zeroes 2000 100 20 0) (append_calls careless (fresh zeroes 2000 100 20 0))
append_calls-Keeps_example =
    append_calls-Keeps careless (fresh zeroes 2000 100 20 0) (omega arith) (omega arith)

abbrev probing : List GetCall
probing =
    GetCall.value int
    ∷ GetCall.string
    ∷ GetCall.struct
    ∷ GetCall.skip_bytes 4000000000
    ∷ GetCall.close_msg
    ∷ []

abbrev hostile : CspRecord
hostile = record (fresh (λ a. 255) 2000 100 20 0) {
  pos = 104;
  cur_msg_hdr = some 100;
  record_size = 4;
}

get_calls-Stays_example : Stays hostile (get_calls masked probing hostile)
get_calls-Stays_example = get_calls-Stays masked probing hostile (omega arith) (omega arith)

-- A skip of 2 ^ 64 - 1 bytes passes both tests, and the cursor goes back by one.
skip_back :
    record_get_skip_bytes (2 ^ 64 - 1) hostile
    ≡ done tt (record hostile { pos = 103; record_size = 3 })
unfolding record_get_skip_bytes get_checked
skip_back = refl

record_append_struct-wraps_example :
    (p : ℕ) × (r' : CspRecord) × (record_append_struct (2 ^ 64 - 5) (fresh zeroes 2000 100 20 0)
      ≡ done p r')
    × (r'.pos + 5 ≡ 100 + 4)
record_append_struct-wraps_example =
    record_append_struct-wraps 5 (fresh zeroes 2000 100 20 0) (omega arith) (omega arith)
      (omega arith) (omega arith)

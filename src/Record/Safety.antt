-- ===== src/Record/Safety.antt =====
-- The calls that write stay inside the memory that `init_record` was given.
use cloudeagle.Common.{ℕ, ◌+◌, ◌%◌, ◌^◌, ◌≤◌, ◌<◌, ◌≡◌, refl, ◌∙◌, ◌⊎◌, arith}
use cloudeagle.Common.{
  Option, none, some, List, [], ◌∷◌, length, length-append, All, Bool-cases, Option-cases, inl, inr,
}
use cloudeagle.Common.Memory.{Memory, store, store_outside}
use cloudeagle.Value.{value_append}
use cloudeagle.Value.Bytes.{length-value_append}
use cloudeagle.Record.{CspRecord, Reply, done, failed, fault, init_record}
use cloudeagle.Record.{size_bytes, hdr_size, buf_full}
use cloudeagle.Record.Append.{
  append_checked, record_append_start, record_append_end, record_append_string, after,
}
use cloudeagle.Record.Structs.{append_struct-full, append_struct-room}
use cloudeagle.Record.Calls.{
  Kind, bool, size_of, raw_bits, append_kind_lem, AppendCall, open_msg, close_msg, value, string,
  struct, append_call, append_calls, append_struct, fill,
}

-- An open header lies before the cursor.
abbrev pub IsHdr : ℕ → ℕ → Option ℕ → Type 0
IsHdr start pos none = Unit
IsHdr start pos (some h) = (start ≤ h) × (h + 4 ≤ pos)

-- The cursor is in its memory, which does not reach the last 2 ^ 33 addresses.
pub record IsSafe (r : CspRecord) : Type 0 where
  pub after_start : r.start ≤ r.pos
  pub before_end : r.pos ≤ r.end
  pub no_wrap : r.end + 2 ^ 33 ≤ 2 ^ 64
  pub hdr : IsHdr r.start r.pos r.cur_msg_hdr

-- `r'` is safe, over the same memory as `r`, and differs in no byte outside of it.
pub record Keeps (r r' : CspRecord) : Type 0 where
  pub safe : IsSafe r'
  pub same_start : r'.start ≡ r.start
  pub same_end : r'.end ≡ r.end
  pub outside : (a : ℕ) → (a < r.start) ⊎ (r.end ≤ a) → r'.mem a ≡ r.mem a

abbrev pub KeepsReply : {A : Type 0} → CspRecord → Reply A → Type 0
KeepsReply r (done a r') = Keeps r r'
KeepsReply r (failed r') = Keeps r r'
KeepsReply r fault = Unit

Keeps-self : (r : CspRecord) → IsSafe r → Keeps r r
Keeps-self r s = record { safe = s; same_start = refl; same_end = refl; outside = λ a h. refl }

Keeps-trans : (r r' r'' : CspRecord) → Keeps r r' → Keeps r' r'' → Keeps r r''
Keeps-trans r r' r'' k l = record {
  safe = l.safe;
  same_start = l.same_start ∙ k.same_start;
  same_end = l.same_end ∙ k.same_end;
  outside = λ a h. l.outside a (ground (arith, k.same_start, k.same_end)) ∙ k.outside a h;
}

IsHdr-later : (start p p' : ℕ) (o : Option ℕ) → p ≤ p' → IsHdr start p o → IsHdr start p' o
IsHdr-later start p p' none le h = tt
IsHdr-later start p p' (some a) le h = omega arith

append_checked-Keeps :
    (bytes : List ℕ) (r : CspRecord)
    → length bytes < 2 ^ 33
    → IsSafe r
    → KeepsReply r (append_checked bytes r)
unfolding append_checked
append_checked-Keeps bytes r lt s = elim (Bool-cases (buf_full r (length bytes))) [
  | inl full ↦ rw full (Keeps-self r s)
  | inr room ↦ rw room (record {
    safe = record {
      after_start = ground arith;
      before_end = ground arith;
      no_wrap = s.no_wrap;
      hdr = IsHdr-later r.start r.pos _ r.cur_msg_hdr (ground arith) s.hdr;
    };
    same_start = refl;
    same_end = refl;
    outside = λ a h. store_outside r.mem r.pos bytes a (ground arith);
  })
]

record_append_start-Keeps : (r : CspRecord) → IsSafe r → KeepsReply r (record_append_start r)
unfolding record_append_start
record_append_start-Keeps r s = elim (Bool-cases (buf_full r hdr_size)) [
  | inl full ↦ rw full (Keeps-self r s)
  | inr room ↦ rw room (record {
    safe = ground arith;
    same_start = refl;
    same_end = refl;
    outside = λ a h.
        store_outside _ (r.pos + 2) (size_bytes 0) a (ground arith)
        ∙ store_outside r.mem r.pos (r.start_mark ∷ []) a (ground arith);
  })
]

-- `record_append_end` at a header `h`.
close-Keeps :
    (r : CspRecord) (h : ℕ) (m : Memory)
    → m ≡ store r.mem (h + 2) (size_bytes r.record_size)
    → IsSafe r
    → IsHdr r.start r.pos (some h)
    → Keeps r (record r { mem = m; cur_msg_hdr = none })
close-Keeps r h m e s at = record {
  safe = record {
    after_start = s.after_start;
    before_end = s.before_end;
    no_wrap = s.no_wrap;
    hdr = tt;
  };
  same_start = refl;
  same_end = refl;
  outside = λ a far. rw e (store_outside r.mem (h + 2) (size_bytes r.record_size) a (ground arith));
}

record_append_end-Keeps : (r : CspRecord) → IsSafe r → KeepsReply r (record_append_end r)
unfolding record_append_end
record_append_end-Keeps r s = elim (Option-cases r.cur_msg_hdr) [
  | inl closed ↦ rw closed tt
  | inr (h, open_at) ↦ rw (open_at, KeepsReply) (close-Keeps r h _ refl s (rw open_at at s.hdr))
]

size_of-le : (k : Kind) → size_of k ≤ 8
size_of-le bool = omega arith
size_of-le _ = omega arith

-- Inside a record's memory, so that `p` and what is written from there on stays there.
fill-Keeps :
    (bytes : List ℕ) (p : ℕ) (r : CspRecord)
    → r.start ≤ p
    → p + length bytes ≤ r.end
    → IsSafe r
    → KeepsReply r (fill bytes p r)
fill-Keeps bytes p r lo hi s = record {
  safe = record {
    after_start = s.after_start;
    before_end = s.before_end;
    no_wrap = s.no_wrap;
    hdr = s.hdr;
  };
  same_start = refl;
  same_end = refl;
  outside = λ a far. store_outside r.mem p bytes a (ground arith);
}

append_struct-Keeps :
    (bytes : List ℕ) (r : CspRecord)
    → length bytes < 2 ^ 32
    → IsSafe r
    → KeepsReply r (append_struct bytes r)
append_struct-Keeps bytes r lt s = elim (Bool-cases (buf_full r ((length bytes + 4) % 2 ^ 64))) [
  | inl full ↦ rw (append_struct-full bytes r full, KeepsReply) (Keeps-self r s)
  | inr room ↦
      rw (append_struct-room bytes r lt s.before_end s.no_wrap room, KeepsReply)
        (record {
          safe = record {
            after_start = ground arith;
            before_end = ground arith;
            no_wrap = s.no_wrap;
            hdr = IsHdr-later r.start r.pos _ r.cur_msg_hdr (ground arith) s.hdr;
          };
          same_start = refl;
          same_end = refl;
          outside = λ a h.
              store_outside _ (r.pos + 4) bytes a (ground arith)
              ∙ store_outside r.mem r.pos (value_append 4 (length bytes)) a
                  (ground (arith, length-value_append 4 (length bytes)));
        })
]

-- The sizes that fit 32 bits, as a `__u32` length prefix asks for.
abbrev pub Fits : AppendCall → Type 0
Fits (string bytes) = length bytes < 2 ^ 32
Fits (struct bytes) = length bytes < 2 ^ 32
Fits _ = Unit

append_call-Keeps :
    (c : AppendCall) (r : CspRecord) → Fits c → IsSafe r → KeepsReply r (append_call c r)
unfolding append_call record_append_string
append_call-Keeps open_msg r f s = record_append_start-Keeps r s
append_call-Keeps close_msg r f s = record_append_end-Keeps r s
append_call-Keeps (value k v) r f s = rw append_kind_lem (
    append_checked-Keeps _ r
      (omega (arith, length-value_append (size_of k) (raw_bits k v), size_of-le k)) s)
append_call-Keeps (string bytes) r f s =
    append_checked-Keeps _ r (omega (arith, length-append {0} bytes (0 ∷ []))) s
append_call-Keeps (struct bytes) r f s = append_struct-Keeps bytes r f s

after-Keeps :
    {A : Type 0} (reply : Reply A) (r : CspRecord)
    → IsSafe r
    → KeepsReply r reply
    → Keeps r (after reply r)
after-Keeps (done a r') r s k = k
after-Keeps (failed r') r s k = k
after-Keeps fault r s k = Keeps-self r s

-- Any sequence of calls that write, with strings and structures shorter than 2 ^ 32 bytes, in a memory
-- that ends 2 ^ 33 bytes or more before the address space does, leaves the cursor inside the memory
-- between `start` and `end` if it starts there, whatever the caller does with their results, and
-- changes no byte outside of that memory.
pub append_calls-Keeps :
    (cs : List AppendCall) (r : CspRecord) → All Fits cs → IsSafe r → Keeps r (append_calls cs r)
unfolding append_calls
append_calls-Keeps [] r f s = Keeps-self r s
append_calls-Keeps (c ∷ cs) r (f, fs) s =
    let step : Keeps r (after (append_call c r) r) =
      after-Keeps (append_call c r) r s (append_call-Keeps c r f s) in
    Keeps-trans r _ _ step (append_calls-Keeps cs _ fs step.safe)

-- What `init_record` accepts is safe.
pub init_record-IsSafe :
    (mem : Memory) (mapped start len private_data : ℕ) {r : CspRecord}
    → start + len + 2 ^ 33 ≤ 2 ^ 64
    → init_record mem mapped start len private_data ≡ some r
    → IsSafe r
unfolding init_record
init_record-IsSafe mem mapped start len private_data h e = ground arith

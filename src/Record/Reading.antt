-- ===== src/Record/Reading.antt =====
-- The calls that read keep the cursor inside the message's memory and change nothing there.
use cloudeagle.Common.{
  ℕ, zero, suc, ◌+◌, ◌-◌, ◌^◌, ◌≤◌, ◌<◌, ◌≡◌, refl, ◌∙◌, arith, some, List, [], ◌∷◌, All, inl, inr,
  Bool-cases, Option-cases,
}
use cloudeagle.Common.Memory.{Memory, strlen}
use cloudeagle.Value.{value_get}
use cloudeagle.Record.{CspRecord, Reply, done, failed, fault, Call, ◌>>=◌, result, load_record_size}
use cloudeagle.Record.Append.{after}
use cloudeagle.Record.Get.{
  skip, get_checked, get_value, past_end, record_get_end, record_get_skip_bytes, record_get_string,
  record_get_struct, record_get_uint32,
}
use native.Mathlib.Decide.{ℕ_discrete}
use cloudeagle.Record.Envelope.{record_get_end-lem, record_get_end-failed}
use cloudeagle.Record.Room.{get_checked-none, get_checked-past, get_checked-inside}
use cloudeagle.Record.Calls.{Kind, bool, size_of, get_kind, get_kind_lem}

-- A call that reads behind the header, its result dropped.
pub data GetCall : Type 0 where
  value : Kind → GetCall
  string struct close_msg : GetCall
  skip_bytes : ℕ → GetCall

abbrev pub dropped : {A : Type 0} → Call A → Call (Unit {0})
dropped m = m >>= λ _. result tt

unfoldable pub get_call : (ℕ → ℕ → ℕ) → GetCall → Call (Unit {0})
unfolding get_kind
get_call wide_shl (value k) = dropped (get_kind wide_shl k)
get_call wide_shl string = dropped record_get_string
get_call wide_shl struct = dropped (record_get_struct wide_shl)
get_call wide_shl close_msg = record_get_end
get_call wide_shl (skip_bytes size) = record_get_skip_bytes size

unfoldable pub get_calls : (ℕ → ℕ → ℕ) → List GetCall → CspRecord → CspRecord
get_calls wide_shl [] r = r
get_calls wide_shl (c ∷ cs) r = get_calls wide_shl cs (after (get_call wide_shl c r) r)

-- The cursor is not behind the end, and the memory does not reach the last 2 ^ 33 addresses.
pub record IsInside (r : CspRecord) : Type 0 where
  pub before_end : r.pos ≤ r.end
  pub no_wrap : r.end + 2 ^ 33 ≤ 2 ^ 64
  pub mapped_fits : r.mapped < 2 ^ 64

pub record Stays (r r' : CspRecord) : Type 0 where
  pub inside : IsInside r'
  pub onwards : r.pos ≤ r'.pos
  pub same_end : r'.end ≡ r.end
  pub same_mem : r'.mem ≡ r.mem

abbrev pub StaysReply : {A : Type 0} → CspRecord → Reply A → Type 0
StaysReply r (done a r') = Stays r r'
StaysReply r (failed r') = Stays r r'
StaysReply r fault = Unit

Stays-self : (r : CspRecord) → IsInside r → Stays r r
Stays-self r i = record { inside = i; onwards = omega arith; same_end = refl; same_mem = refl }

Stays-trans : (r r' r'' : CspRecord) → Stays r r' → Stays r' r'' → Stays r r''
Stays-trans r r' r'' s t = record {
  inside = t.inside;
  onwards = omega (arith, s.onwards, t.onwards);
  same_end = t.same_end ∙ s.same_end;
  same_mem = t.same_mem ∙ s.same_mem;
}

StaysReply-trans :
    {A : Type 0} (r r' : CspRecord) (reply : Reply A)
    → Stays r r'
    → StaysReply r' reply
    → StaysReply r reply
StaysReply-trans r r' (done a q) s t = Stays-trans r r' q s t
StaysReply-trans r r' (failed q) s t = Stays-trans r r' q s t
StaysReply-trans r r' fault s t = tt

dropped-Stays :
    {A : Type 0} (m : Call A) (r : CspRecord) → StaysReply r (m r) → StaysReply r (dropped m r)
dropped-Stays {A} m r s = go (m r) s
  where
    go :
        (reply : Reply A)
        → StaysReply r reply
        → StaysReply r (elim reply as (λ _. Reply (Unit {0})) [
          | done a r' ↦ done tt r'
          | failed r' ↦ failed r'
          | fault ↦ fault
        ])
    go (done a r') s = s
    go (failed r') s = s
    go fault s = tt

get_checked-Stays :
    {A : Type 0} (wide sz : ℕ) (give : CspRecord → A) (r : CspRecord)
    → r.pos + sz < 2 ^ 64
    → IsInside r
    → StaysReply r (get_checked wide sz give r)
unfolding skip
get_checked-Stays wide sz give r small i = elim (Option-cases r.cur_msg_hdr) [
  | inl closed ↦ rw (get_checked-none wide sz give r closed, StaysReply) tt
  | inr (h, opened) ↦ elim (Bool-cases (past_end wide sz r h)) [
    | inl past ↦ rw (get_checked-past wide sz give r h opened past, StaysReply) (Stays-self r i)
    | inr room ↦
        rw (get_checked-inside wide sz give r h opened room, StaysReply)
          (record {
            inside = ground arith;
            onwards = ground arith;
            same_end = refl;
            same_mem = refl;
          })
  ]
]

value_get-lt :
    (wide_shl : ℕ → ℕ → ℕ) (n : ℕ) (m : Memory) (p acc : ℕ)
    → acc < 2 ^ 32
    → value_get wide_shl 32 n m p acc < 2 ^ 32
unfolding value_get
value_get-lt wide_shl zero m p acc h = h
value_get-lt wide_shl (suc n) m p acc h = value_get-lt wide_shl n m (p + 1) _ (omega arith)

strlen-le : (fuel : ℕ) (m : Memory) (p n : ℕ) → strlen fuel m p ≡ some n → n < fuel
unfolding strlen
strlen-le zero m p n e = cc
strlen-le (suc fuel) m p n e = elim (Option-cases (strlen fuel m (p + 1))) [
  | inl runs_out ↦ ground arith
  | inr (k, found) ↦ ground (arith, strlen-le fuel m (p + 1) k found)
]

record_get_end-Stays : (r : CspRecord) → IsInside r → StaysReply r (record_get_end r)
unfolding record_get_end
record_get_end-Stays r i = elim (Option-cases r.cur_msg_hdr) [
  | inl closed ↦ simp (closed, record_get_end, StaysReply) tt
  | inr (h, opened) ↦ elim (ℕ_discrete r.record_size (load_record_size r.mem h)) [
    | yes same ↦
        rw (record_get_end-lem r h opened same, StaysReply)
          (record {
            inside = record {
              before_end = i.before_end;
              no_wrap = i.no_wrap;
              mapped_fits = i.mapped_fits;
            };
            onwards = omega arith;
            same_end = refl;
            same_mem = refl;
          })
    | no differ ↦ rw (record_get_end-failed r h opened differ, StaysReply) (Stays-self r i)
  ]
]

record_get_string-Stays : (r : CspRecord) → IsInside r → StaysReply r (record_get_string r)
unfolding record_get_string
record_get_string-Stays r i = elim (Option-cases (strlen (r.mapped - r.pos) r.mem r.pos)) [
  | inl runs_out ↦ rw (runs_out, record_get_string, StaysReply) tt
  | inr (n, found) ↦
      rw (found, record_get_string, StaysReply)
        (get_checked-Stays (2 ^ 64) n (λ r'. (r'.pos, n)) r
          (omega (arith, strlen-le _ r.mem r.pos n found)) i)
]

size_of-le : (k : Kind) → size_of k ≤ 8
size_of-le bool = omega arith
size_of-le _ = omega arith

get_kind-Stays :
    (wide_shl : ℕ → ℕ → ℕ) (k : Kind) (r : CspRecord)
    → IsInside r
    → StaysReply r (get_kind wide_shl k r)
unfolding get_value
get_kind-Stays wide_shl k r i =
    rw get_kind_lem (get_checked-Stays (2 ^ 64) (size_of k) _ r (omega (arith, size_of-le k)) i)

-- A structure's size is a `__u32`, so the cursor does not wrap round.
record_get_struct-Stays :
    (wide_shl : ℕ → ℕ → ℕ) (r : CspRecord)
    → IsInside r
    → StaysReply r (record_get_struct wide_shl r)
unfolding record_get_struct record_get_uint32 get_value skip
record_get_struct-Stays wide_shl r i =
    let give : CspRecord → ℕ = λ q. value_get wide_shl 32 4 q.mem q.pos 0 in
    let first : StaysReply r (get_checked (2 ^ 64) 4 give r) =
      get_checked-Stays (2 ^ 64) 4 give r (omega arith) i in
    elim (Option-cases r.cur_msg_hdr) [
      | inl closed ↦ rw (get_checked-none (2 ^ 64) 4 give r closed, ◌>>=◌, StaysReply) tt
      | inr (h, opened) ↦ elim (Bool-cases (past_end (2 ^ 64) 4 r h)) [
        | inl past ↦
            rw (get_checked-past (2 ^ 64) 4 give r h opened past, ◌>>=◌, StaysReply)
              (Stays-self r i)
        | inr room ↦
            let step : Stays r (skip 4 r) =
              rw (get_checked-inside (2 ^ 64) 4 give r h opened room, StaysReply) at first in
            rw (get_checked-inside (2 ^ 64) 4 give r h opened room, ◌>>=◌)
              (StaysReply-trans r (skip 4 r) _ step (
                get_checked-Stays (2 ^ 32) (give r) _ (skip 4 r)
                  (omega (
                    arith,
                    value_get-lt wide_shl 4 r.mem r.pos 0 (omega arith),
                    step.inside.before_end,
                    step.inside.no_wrap,
                  ))
                  step.inside))
      ]
    ]

-- The sizes that a caller skips fit 32 bits.
abbrev pub Fits : GetCall → Type 0
Fits (skip_bytes size) = size < 2 ^ 32
Fits _ = Unit

get_call-Stays :
    (wide_shl : ℕ → ℕ → ℕ) (c : GetCall) (r : CspRecord)
    → Fits c
    → IsInside r
    → StaysReply r (get_call wide_shl c r)
unfolding get_call record_get_skip_bytes
get_call-Stays wide_shl (value k) r f i =
    dropped-Stays (get_kind wide_shl k) r (get_kind-Stays wide_shl k r i)
get_call-Stays wide_shl string r f i =
    dropped-Stays record_get_string r (record_get_string-Stays r i)
get_call-Stays wide_shl struct r f i =
    dropped-Stays (record_get_struct wide_shl) r (record_get_struct-Stays wide_shl r i)
get_call-Stays wide_shl close_msg r f i = record_get_end-Stays r i
get_call-Stays wide_shl (skip_bytes size) r f i =
    get_checked-Stays (2 ^ 64) size _ r (omega arith) i

after-Stays :
    {A : Type 0} (reply : Reply A) (r : CspRecord)
    → IsInside r
    → StaysReply r reply
    → Stays r (after reply r)
after-Stays (done a r') r i s = s
after-Stays (failed r') r i s = s
after-Stays fault r i s = Stays-self r i

-- Whatever bytes a message holds, sizes and lengths in it included: any sequence of the calls that
-- read behind a header (all of them but record_get_string_copy, which writes into the caller's
-- buffer), each skip of fewer than 2 ^ 32 bytes, their results ignored, moves the cursor forwards
-- only and never behind the end, and changes no byte of memory. The cursor starts inside the memory,
-- which ends 2 ^ 33 bytes or more before the address space does.
pub get_calls-Stays :
    (wide_shl : ℕ → ℕ → ℕ) (cs : List GetCall) (r : CspRecord)
    → All Fits cs
    → IsInside r
    → Stays r (get_calls wide_shl cs r)
unfolding get_calls
get_calls-Stays wide_shl [] r f i = Stays-self r i
get_calls-Stays wide_shl (c ∷ cs) r (f, fs) i =
    let step : Stays r (after (get_call wide_shl c r) r) =
      after-Stays (get_call wide_shl c r) r i (get_call-Stays wide_shl c r f i) in
    Stays-trans r _ _ step (get_calls-Stays wide_shl cs _ fs step.inside)

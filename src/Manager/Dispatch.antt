-- ===== src/Manager/Dispatch.antt =====
-- What kmannetlink_rcv_skb of cwaf/csp_kernel_manager.c makes of a message.
use cloudeagle.Common.{
  ℕ, ◌+◌, ◌-◌, ◌%◌, ◌^◌, ◌<◌, ◌≤◌, ◌≡◌, ◌≢◌, refl, sym, ap, ◌∙◌, arith, Bool, Bool-cases, true,
  false, not, Option, Option-cases, none, some, List, length, inl, inr, ◌⊎◌, ◌==◌, ◌||◌, ltb,
  if◌then◌else◌,
}
use cloudeagle.Common.Memory.{Memory, ptr_add}
use cloudeagle.Record.{CspRecord, init_record, record_start_mark}
use cloudeagle.Record.Reading.{IsInside}
use cloudeagle.Manager.{
  KmanCmd, Family, find_kan_family, find_kman_cmd, kmannetlink_rcv_skb, called, oops, call_cmd,
  load_u16, load_u32,
}
use cloudeagle.Manager.Registry.{Registered, Represents}
use cloudeagle.Manager.Commands.{Lists, first_of, find_kman_cmd-lem}

-- The fields of a message at `nlh`.
module _ (mem : Memory) (nlh : ℕ) where
  abbrev pub msg_len : ℕ
  msg_len = load_u32 mem nlh

  abbrev pub msg_family : ℕ
  msg_family = load_u16 mem (nlh + 16)

  abbrev pub msg_cmd : ℕ
  msg_cmd = load_u16 mem (nlh + 16 + 2)

  abbrev pub msg_mark : ℕ
  msg_mark = load_u16 mem (nlh + 16 + 6)

length-cases : (n : ℕ) → 24 ≤ n → ((n ≡ 24) × (ltb 24 n ≡ false)) ⊎ ((24 < n) × (ltb 24 n ≡ true))
length-cases n h = ground arith

-- A message of a registered family and a command of it.
module _ (mem : Memory) (mapped skb nlh : ℕ) (fas : List Family) (f : Registered)
    (r : Represents fas f) (fa : Family) (cs : List KmanCmd) (c : KmanCmd)
    (long_enough : 24 ≤ msg_len mem nlh) (marked : msg_mark mem nlh ≡ 0xfe)
    (registered : f (msg_family mem nlh) ≡ some fa) (array : Lists fa.cmd_arr 0 cs)
    (few : length cs < 2 ^ 16) (known : first_of (msg_cmd mem nlh) cs ≡ some c) where
  -- What is left is the call.
  known-lem : kmannetlink_rcv_skb mem mapped skb nlh fas ≡ (
      if ltb 24 (msg_len mem nlh)
      then elim (init_record mem mapped (nlh + 24) ((msg_len mem nlh - 24) % 2 ^ 16) skb) [
        | none ↦ oops
        | some q ↦ call_cmd c (nlh + 16) (some q) fa.private_data
      ]
      else call_cmd c (nlh + 16) none fa.private_data)
  unfolding kmannetlink_rcv_skb
  known-lem =
      let not_short : ltb (msg_len mem nlh) 24 ≡ false = ground arith in
      let mark : not (msg_mark mem nlh == 0xfe) ≡ false = ground (arith, marked) in
      let family : find_kan_family (msg_family mem nlh) fas ≡ some fa =
        r.found (msg_family mem nlh) ∙ registered in
      let cmd : find_kman_cmd fa (msg_cmd mem nlh) ≡ some (some c) =
        find_kman_cmd-lem fa (msg_cmd mem nlh) cs array few ∙ ap some known in
      rw (not_short, mark, family, cmd, kmannetlink_rcv_skb) refl

  abbrev record_over : ℕ → ℕ → CspRecord
  record_over start len = record {
    mem = mem;
    mapped = mapped;
    start = start;
    pos = start;
    end = ptr_add start len;
    cur_msg_hdr = none;
    private_data = skb;
    start_mark = record_start_mark;
    record_size = 0;
  }

  some_cmd : c.do_cmd ≢ 0 → (c.do_cmd == 0) ≡ false
  some_cmd h = ground arith

  -- A message of at least 24 and fewer than 24 + 2 ^ 16 bytes, with the mark, of a registered family
  -- and of a command among the fewer than 2 ^ 16 in its array, whose function is not NULL: this
  -- function is called with the header, a record over exactly the bytes behind it, or NULL if there
  -- are none, and the family's private data.
  pub kmannetlink_rcv_skb-called :
      c.do_cmd ≢ 0
      → 0 < nlh
      → mapped < 2 ^ 64
      → msg_len mem nlh < 24 + 2 ^ 16
      → nlh + msg_len mem nlh + 2 ^ 33 ≤ 2 ^ 64
      → ((msg_len mem nlh ≡ 24)
          × (kmannetlink_rcv_skb mem mapped skb nlh fas
              ≡ called c.do_cmd (nlh + 16) none fa.private_data))
        ⊎ ((q : CspRecord) × (kmannetlink_rcv_skb mem mapped skb nlh fas
              ≡ called c.do_cmd (nlh + 16) (some q) fa.private_data)
            × (q.mem ≡ mem)
            × (q.pos ≡ nlh + 24)
            × (q.end ≡ nlh + msg_len mem nlh)
            × (q.private_data ≡ skb)
            × IsInside q)
  unfolding init_record
  kmannetlink_rcv_skb-called function pos map short wrap =
      let some_function = some_cmd function in
      elim (length-cases (msg_len mem nlh) long_enough) [
        | inl (e, bare) ↦ inl (e, known-lem ∙ rw (bare, some_function) refl)
        | inr (longer, body) ↦
            let some_body : ((nlh + 24 == 0) || ((msg_len mem nlh - 24) % 2 ^ 16 == 0)) ≡ false =
              ground arith in
            inr (
              record_over (nlh + 24) ((msg_len mem nlh - 24) % 2 ^ 16),
              known-lem ∙ rw (body, some_body, some_function, init_record) refl,
              refl,
              refl,
              omega arith,
              refl,
              record { before_end = omega arith; no_wrap = omega arith; mapped_fits = map },
            )
      ]

  -- Such a message, the function aside, with a body of a positive multiple of 2 ^ 16 bytes stops the
  -- kernel: the length is 0 in a `__u16`, which init_record refuses.
  pub kmannetlink_rcv_skb-oops :
      24 < msg_len mem nlh
      → (msg_len mem nlh - 24) % 2 ^ 16 ≡ 0
      → kmannetlink_rcv_skb mem mapped skb nlh fas ≡ oops
  unfolding init_record
  kmannetlink_rcv_skb-oops longer none_left =
      let body : ltb 24 (msg_len mem nlh) ≡ true = ground arith in
      let no_body : ((nlh + 24 == 0) || ((msg_len mem nlh - 24) % 2 ^ 16 == 0)) ≡ true =
        ground arith in
      known-lem ∙ rw (body, no_body, init_record) refl

-- A call of `c` for a family, as its outcome shows it.
abbrev pub IsCall : KmanCmd → Family → ℕ → ℕ → ℕ → ℕ → Type 0
IsCall c fa hdr h hdr' p = (c.do_cmd ≡ h) × (h ≢ 0) × (hdr' ≡ hdr) × (p ≡ fa.private_data)

call_cmd-IsCall :
    (c : KmanCmd) (fa : Family) (hdr h hdr' p : ℕ) (q q' : Option CspRecord)
    → call_cmd c hdr q fa.private_data ≡ called h hdr' q' p
    → IsCall c fa hdr h hdr' p
call_cmd-IsCall c fa hdr h hdr' p q q' e = ground arith

module _ (mem : Memory) (mapped skb nlh : ℕ) (fas : List Family) (f : Registered)
    (r : Represents fas f) where
  -- The part behind the search of the command.
  body-IsCall :
      (c : KmanCmd) (fa : Family) (h hdr' p : ℕ) (q' : Option CspRecord) (longer : Bool)
      → (if longer
          then elim (init_record mem mapped (nlh + 24) ((msg_len mem nlh - 24) % 2 ^ 16) skb) [
            | none ↦ oops
            | some q ↦ call_cmd c (nlh + 16) (some q) fa.private_data
          ]
          else call_cmd c (nlh + 16) none fa.private_data)
        ≡ called h hdr' q' p
      → IsCall c fa (nlh + 16) h hdr' p
  body-IsCall c fa h hdr' p q' false e = call_cmd-IsCall c fa (nlh + 16) h hdr' p none q' e
  body-IsCall c fa h hdr' p q' true e =
      elim (Option-cases
        (init_record mem mapped (nlh + 24) ((msg_len mem nlh - 24) % 2 ^ 16) skb)) [
          | inl x ↦ let z = rw x at e in cc
          | inr (q, x) ↦ call_cmd-IsCall c fa (nlh + 16) h hdr' p (some q) q' (rw x at e)
        ]

  -- A function is called only for a message that is long enough and marked, of a registered family
  -- and a command that the search finds there, and with that family's private data.
  pub kmannetlink_rcv_skb-authentic :
      (h hdr' p : ℕ) (q' : Option CspRecord)
      → kmannetlink_rcv_skb mem mapped skb nlh fas ≡ called h hdr' q' p
      → (fa : Family) × (c : KmanCmd) × (24 ≤ msg_len mem nlh)
        × (msg_mark mem nlh ≡ 0xfe)
        × (f (msg_family mem nlh) ≡ some fa)
        × (find_kman_cmd fa (msg_cmd mem nlh) ≡ some (some c))
        × IsCall c fa (nlh + 16) h hdr' p
  unfolding kmannetlink_rcv_skb
  kmannetlink_rcv_skb-authentic h hdr' p q' e = elim (Bool-cases (ltb (msg_len mem nlh) 24)) [
    | inl x ↦ let z = rw (x, kmannetlink_rcv_skb) at e in cc
    | inr x ↦ elim (Bool-cases (not (msg_mark mem nlh == 0xfe))) [
      | inl y ↦ let z = rw (x, y, kmannetlink_rcv_skb) at e in cc
      | inr y ↦ elim (Option-cases (find_kan_family (msg_family mem nlh) fas)) [
        | inl u ↦ let z = rw (x, y, u, kmannetlink_rcv_skb) at e in cc
        | inr (fa, u) ↦ elim (Option-cases (find_kman_cmd fa (msg_cmd mem nlh))) [
          | inl v ↦ let z = rw (x, y, u, v, kmannetlink_rcv_skb) at e in cc
          | inr (o, v) ↦ elim (Option-cases o) [
            | inl w ↦
                let v' = v ∙ ap some w in let z = rw (x, y, u, v', kmannetlink_rcv_skb) at e in cc
            | inr (c, w) ↦
                let v' : find_kman_cmd fa (msg_cmd mem nlh) ≡ some (some c) = v ∙ ap some w in
                (
                  fa,
                  c,
                  ground (arith, x),
                  ground (arith, y),
                  sym (r.found (msg_family mem nlh)) ∙ u,
                  v',
                  body-IsCall c fa h hdr' p q' (ltb 24 (msg_len mem nlh))
                      (rw (x, y, u, v', kmannetlink_rcv_skb) at e),
                )
          ]
        ]
      ]
    ]
  ]

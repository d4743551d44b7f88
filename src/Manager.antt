-- ===== src/Manager.antt =====
-- cwaf/csp_kernel_manager.h and cwaf/csp_kernel_manager.c: families of commands, and the message that
-- calls one. The lock makes each of the functions one step.
use cloudeagle.Common.{
  ℕ, zero, suc, ◌+◌, ◌-◌, ◌*◌, ◌%◌, ◌^◌, Bool, ◌&&◌, not, true, false, Option, none, some, List, [],
  ◌∷◌, ◌++◌,
}
use cloudeagle.Common.{ltb, ◌==◌, if◌then◌else◌}
use cloudeagle.Common.Memory.{Memory}
use cloudeagle.Record.{CspRecord, init_record}
pub mod Registry
pub mod Commands
pub mod Dispatch
mod Tests

-- `struct csp_kman_cmd`; a NULL function is 0.
pub record KmanCmd : Type 0 where
  pub cmd : ℕ
  pub do_cmd : ℕ
  pub done_cmd : ℕ

-- `struct csp_kman_family` without its link: the list of the manager is a list of these.
pub record Family : Type 0 where
  pub family : ℕ
  pub private_data : ℕ
  pub cmd_arr : ℕ → KmanCmd

unfoldable pub find_kan_family : ℕ → List Family → Option Family
find_kan_family family [] = none
find_kan_family family (fa ∷ fas) = elim (fa.family == family) [
  | true ↦ some fa
  | false ↦ find_kan_family family fas
]

abbrev pub is_last_cmd : KmanCmd → Bool
is_last_cmd c = (c.do_cmd == 0) && (c.done_cmd == 0)

-- The loop of `find_kman_cmd` from `i` on, which is a `__u16`. The outer `none` is a loop that has not
-- ended.
unfoldable pub find_kman_cmd_from : ℕ → (ℕ → KmanCmd) → ℕ → ℕ → Option (Option KmanCmd)
find_kman_cmd_from zero arr cmd i = none
find_kman_cmd_from (suc fuel) arr cmd i = elim (is_last_cmd (arr i)) [
  | true ↦ some none
  | false ↦ elim ((arr i).cmd == cmd) [
    | true ↦ some (some (arr i))
    | false ↦ find_kman_cmd_from fuel arr cmd ((i + 1) % 2 ^ 16)
  ]
]

-- After as many turns as a `__u16` has values, the loop is where it began.
unfoldable pub find_kman_cmd : Family → ℕ → Option (Option KmanCmd)
unfolding find_kman_cmd_from
find_kman_cmd fa cmd = find_kman_cmd_from (2 ^ 16) fa.cmd_arr cmd 0

-- `none` is a BUG_ON. `alloc` is whether `kmem_cache_alloc` gives memory.
unfoldable pub register_kernel_manager_cmds :
    Bool → ℕ → Option (ℕ → KmanCmd) → ℕ → List Family → Option (List Family)
unfolding find_kan_family
register_kernel_manager_cmds alloc family cmd_arr private_data fas = elim cmd_arr [
  | none ↦ none
  | some arr ↦ elim (find_kan_family family fas) [
    | some fa ↦ none
    | none ↦
        if alloc
        then some
            (fas ++ (record { family = family; private_data = private_data; cmd_arr = arr } ∷ []))
        else none
  ]
]

-- `list_del` of the entry that `find_kan_family` gives.
unfoldable pub del_family : ℕ → List Family → List Family
del_family family [] = []
del_family family (fa ∷ fas) = elim (fa.family == family) [
  | true ↦ fas
  | false ↦ fa ∷ del_family family fas
]

unfoldable pub unregister_kernel_manager_cmds : ℕ → List Family → Option (List Family)
unfolding find_kan_family del_family
unregister_kernel_manager_cmds family fas = elim (find_kan_family family fas) [
  | none ↦ none
  | some fa ↦ some (del_family family fas)
]

-- `__u16` and `__u32` in memory, the low byte first.
abbrev pub load_u16 : Memory → ℕ → ℕ
load_u16 m a = m a + 256 * m (a + 1)

abbrev pub load_u32 : Memory → ℕ → ℕ
load_u32 m a = load_u16 m a + 2 ^ 16 * load_u16 m (a + 2)

-- NLMSG_HDRLEN, the size of `struct nlmsghdr`, which starts with the length of the message.
abbrev pub nlmsg_hdrlen : ℕ
nlmsg_hdrlen = 16

-- KMAN_MSG_MIN_LEN: then come the family, the command, the flags and the mark, two bytes each.
abbrev pub kman_msg_min_len : ℕ
kman_msg_min_len = nlmsg_hdrlen + 8

abbrev pub kman_hdr_mark : ℕ
kman_hdr_mark = 0xfe

-- What comes of a message: -EINVAL, the call of a function with its three arguments, a BUG_ON or a
-- call of NULL, or a search of a command that does not end.
pub data Outcome : Type 0 where
  einval : Outcome
  called : ℕ → ℕ → Option CspRecord → ℕ → Outcome
  oops : Outcome
  endless : Outcome

abbrev pub call_cmd : KmanCmd → ℕ → Option CspRecord → ℕ → Outcome
call_cmd c hdr r private_data = if c.do_cmd == 0 then oops else called c.do_cmd hdr r private_data

-- The message is at `nlh`; that its bytes are there is checked by the kernel before the call.
unfoldable pub kmannetlink_rcv_skb : Memory → ℕ → ℕ → ℕ → List Family → Outcome
kmannetlink_rcv_skb mem mapped skb nlh fas =
    let len = load_u32 mem nlh in
    let hdr = nlh + nlmsg_hdrlen in
    if ltb len kman_msg_min_len
    then einval
    else if not (load_u16 mem (hdr + 6) == kman_hdr_mark)
    then einval
    else elim (find_kan_family (load_u16 mem hdr) fas) [
      | none ↦ einval
      | some fa ↦ elim (find_kman_cmd fa (load_u16 mem (hdr + 2))) [
        | none ↦ endless
        | some none ↦ einval
        | some (some c) ↦
            if ltb kman_msg_min_len len
            then elim (init_record mem mapped (nlh + kman_msg_min_len)
                ((len - kman_msg_min_len) % 2 ^ 16) skb) [
                  | none ↦ oops
                  | some r ↦ call_cmd c hdr (some r) fa.private_data
                ]
            else call_cmd c hdr none fa.private_data
      ]
    ]

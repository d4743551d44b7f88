-- ===== src/Manager/Tests.antt =====
-- Runs of the kernel manager, and the theorems at concrete inputs.
use cloudeagle.Common.{
  ℕ, ◌+◌, ◌≤◌, ◌≡◌, ◌≢◌, refl, arith, true, Option, none, some, List, [], ◌∷◌, ◌==◌, if◌then◌else◌,
  ◌⊎◌,
}
use cloudeagle.Common.Memory.{Memory, store}
use cloudeagle.Record.{CspRecord, init_record}
use cloudeagle.Record.Reading.{IsInside}
use cloudeagle.Manager.{
  KmanCmd, Family, kmannetlink_rcv_skb, find_kan_family, find_kman_cmd, find_kman_cmd_from, einval,
  called, oops, register_kernel_manager_cmds, unregister_kernel_manager_cmds,
}
use cloudeagle.Manager.Registry.{
  Represents, put, nil-Represents, one-Represents, register_kernel_manager_cmds-Represents,
  unregister_kernel_manager_cmds-Represents,
}
use cloudeagle.Manager.Commands.{find_kman_cmd-lem, find_kman_cmd_from-endless}
use cloudeagle.Manager.Dispatch.{
  msg_len, msg_family, msg_cmd, msg_mark, IsCall, kmannetlink_rcv_skb-called,
  kmannetlink_rcv_skb-oops, kmannetlink_rcv_skb-authentic,
}

abbrev do_test : KmanCmd
do_test = record { cmd = 1; do_cmd = 5000; done_cmd = 6000 }

abbrev last : KmanCmd
last = record { cmd = 0; do_cmd = 0; done_cmd = 0 }

abbrev cmds : ℕ → KmanCmd
cmds i = if i == 0 then do_test else last

abbrev test_family : Family
test_family = record { family = 1234; private_data = 77; cmd_arr = cmds }

-- A message for the command 1 of the family 1234, its length given by its four bytes.
abbrev message : List ℕ → Memory
message len = store (store (λ a. 0) 1000 len) 1016 (210 ∷ 4 ∷ 1 ∷ 0 ∷ 0 ∷ 0 ∷ 0xfe ∷ 0 ∷ [])

abbrev good : Memory
good = message (32 ∷ 0 ∷ 0 ∷ 0 ∷ [])

-- 24 and 2 ^ 16 bytes.
abbrev too_long : Memory
too_long = message (24 ∷ 0 ∷ 1 ∷ 0 ∷ [])

abbrev nothing : ℕ → Option Family
nothing g = none

abbrev families : List Family
families = test_family ∷ []

good_call :
    kmannetlink_rcv_skb good 2000 9 1000 families
    ≡ called 5000 1016
        (some (record {
          mem = good;
          mapped = 2000;
          start = 1024;
          pos = 1024;
          end = 1032;
          cur_msg_hdr = none;
          private_data = 9;
          start_mark = 0xfd;
          record_size = 0;
        }))
        77
unfolding kmannetlink_rcv_skb find_kan_family find_kman_cmd find_kman_cmd_from init_record store
good_call = refl

unknown_family : kmannetlink_rcv_skb good 2000 9 1000 [] ≡ einval
unfolding kmannetlink_rcv_skb find_kan_family store
unknown_family = refl

kmannetlink_rcv_skb-called_example :
    ((msg_len good 1000 ≡ 24)
      × (kmannetlink_rcv_skb good 2000 9 1000 families ≡ called 5000 (1000 + 16) none 77))
    ⊎ ((q : CspRecord) × (kmannetlink_rcv_skb good 2000 9 1000 families
          ≡ called 5000 (1000 + 16) (some q) 77)
        × (q.mem ≡ good)
        × (q.pos ≡ 1000 + 24)
        × (q.end ≡ 1000 + msg_len good 1000)
        × (q.private_data ≡ 9)
        × IsInside q)
unfolding store
kmannetlink_rcv_skb-called_example =
    kmannetlink_rcv_skb-called good 2000 9 1000 families (put 1234 (some test_family) nothing)
      (one-Represents test_family) test_family (do_test ∷ []) do_test (omega arith) refl refl
      (refl, refl, refl) (omega arith) refl (omega arith) (omega arith) (omega arith) (omega arith)
      (omega arith)

kmannetlink_rcv_skb-oops_example : kmannetlink_rcv_skb too_long 100000 9 1000 families ≡ oops
unfolding store
kmannetlink_rcv_skb-oops_example =
    kmannetlink_rcv_skb-oops too_long 100000 9 1000 families (put 1234 (some test_family) nothing)
      (one-Represents test_family) test_family (do_test ∷ []) do_test (omega arith) refl refl
      (refl, refl, refl) (omega arith) refl (omega arith) refl

kmannetlink_rcv_skb-authentic_example :
    (fa : Family) × (c : KmanCmd) × (24 ≤ msg_len good 1000)
    × (msg_mark good 1000 ≡ 0xfe)
    × (put 1234 (some test_family) nothing (msg_family good 1000) ≡ some fa)
    × (find_kman_cmd fa (msg_cmd good 1000) ≡ some (some c))
    × IsCall c fa (1000 + 16) 5000 1016 77
kmannetlink_rcv_skb-authentic_example =
    kmannetlink_rcv_skb-authentic good 2000 9 1000 families (put 1234 (some test_family) nothing)
      (one-Represents test_family) 5000 1016 77 _ good_call

register_kernel_manager_cmds-Represents_example :
    ((nothing 1234 ≡ none)
      × ((fas' : List Family) × (register_kernel_manager_cmds true 1234 (some cmds) 77 []
            ≡ some fas')
          × Represents fas' (put 1234 (some test_family) nothing)))
    ⊎ ((nothing 1234 ≢ none) × (register_kernel_manager_cmds true 1234 (some cmds) 77 [] ≡ none))
register_kernel_manager_cmds-Represents_example =
    register_kernel_manager_cmds-Represents [] nothing nil-Represents 1234 77 cmds

unregister_kernel_manager_cmds-Represents_example :
    ((some test_family ≢ none)
      × ((fas' : List Family) × (unregister_kernel_manager_cmds 1234 families ≡ some fas')
          × Represents fas' (put 1234 none (put 1234 (some test_family) nothing))))
    ⊎ ((some test_family ≡ none) × (unregister_kernel_manager_cmds 1234 families ≡ none))
unregister_kernel_manager_cmds-Represents_example =
    unregister_kernel_manager_cmds-Represents families (put 1234 (some test_family) nothing)
      (one-Represents test_family) 1234

find_kman_cmd-lem_example : find_kman_cmd test_family 1 ≡ some (some do_test)
find_kman_cmd-lem_example =
    find_kman_cmd-lem test_family 1 (do_test ∷ []) (refl, refl, refl) (omega arith)

find_kman_cmd_from-endless_example : find_kman_cmd_from 1000000 (λ i. do_test) 2 0 ≡ none
find_kman_cmd_from-endless_example =
    find_kman_cmd_from-endless (λ i. do_test) 2 (λ i b. refl) (λ i b. refl) 1000000 0 (omega arith)

-- ===== src/Tests/LooperTests.antt =====
-- The loops of binder/binder.c over concrete answers of the driver.
use linux_labs.TestClient.{svcmgr_lookup, lookup_call}
use linux_labs.TestClient.Lookup.{IsLooked, svcmgr_lookup-IsLooked}
use linux_labs.Binder.Looper.Call.{Called}
use linux_labs.Tests.ManagerTests.{yo}
use linux_labs.Binder.Types.{BinderIo}
use linux_labs.Prelude.{ℕ, ◌≡◌, none, some, [], ◌∷◌, ◌++◌, false}
use linux_labs.Memory.{Mem, store}
use linux_labs.Binder.Looper.{Br, Env, Machine, binder_parse}
use linux_labs.Binder.Looper.Loop.{Returns, binder_parse-Returns}
use linux_labs.Binder.Looper.Call.{no_answer, filled}
use linux_labs.Binder.Looper.Rounds.{Looped, binder_loop}
use linux_labs.ServiceManager.Main.{Services, running, svcmgr_env, svcmgr_loop-IsGood, IsGood}
use linux_labs.Binder.Looper.{
  br_noop, br_transaction_complete, br_increfs, br_acquire, br_release, br_decrefs, br_spawn_looper,
  br_transaction, br_reply, br_dead_binder, br_failed_reply, br_dead_reply,
}
use linux_labs.Tests.ManagerTests.{
  malloc, malloc-IsAllocator, one_service, one_service-IsList, one_service-IsBalanced, request_txn,
  out,
}
use linux_labs.TestClient.Greetings.{
  hello_interface, goodbye_interface, say_to_call, sayhello_to, saygoodbye_to,
}
use linux_labs.TestClient.Greetings.Answers.{IsSaid, greetings-AreSaid}
use linux_labs.TestServer.{hello_svr_cmd_sayhello_to, goodbye_svr_cmd_saygoodbye_to}
use linux_labs.Binder.Device
use linux_labs.Binder.Device.{Leaves, is_open, binder_open, binder_open-Leaves}
use linux_labs.Resources.{descriptor}

-- Words that differ, in place of those that the kernel's macros make.
abbrev pub code_of : Br → ℕ
code_of br_noop = 12
code_of br_transaction_complete = 6
code_of br_increfs = 7
code_of br_acquire = 8
code_of br_release = 9
code_of br_decrefs = 10
code_of br_spawn_looper = 13
code_of br_transaction = 2
code_of br_reply = 3
code_of br_dead_binder = 15
code_of br_failed_reply = 17
code_of br_dead_reply = 5

abbrev env : Env Services
env = svcmgr_env malloc code_of 600 700 out (request_txn 0 0)

abbrev machine : Machine Services
machine = record {
  state = running one_service.svclist;
  sent = one_service.sent;
  spawned = 0;
  mem = λ _. 0;
}

-- BR_NOOP, BR_DEAD_BINDER for the service at 4096, BR_NOOP.
abbrev death_round : Mem
death_round = store 4 512 12 (store 4 508 4096 (store 4 504 15 (store 4 500 12 (λ _. 0))))

-- BR_TRANSACTION_COMPLETE, and BR_REPLY with a message of 8 bytes at address 2000.
abbrev pub reply_round : Mem
reply_round = store 4 540 2000 (store 4 532 8 (store 4 504 3 (store 4 500 6 (λ _. 0))))

binder_parse-Returns_example :
    Returns (binder_parse env none 500 16 (record machine { mem = death_round }))
binder_parse-Returns_example =
    binder_parse-Returns env none 500 16 (record machine { mem = death_round })

abbrev quiet_env : Env Services
quiet_env = record env { death = λ p mc. mc }

svcmgr_loop-IsGood_example :
    (st : Looped) × (mc1 : Machine Services) × (binder_loop env 500
        (filled death_round 16 ∷ no_answer ∷ [])
        machine
      ≡ some (st, mc1))
    × IsGood mc1.state mc1.sent
svcmgr_loop-IsGood_example =
    svcmgr_loop-IsGood malloc malloc-IsAllocator code_of 600 700 out (request_txn 0 0) 500
      (filled death_round 16 ∷ no_answer ∷ []) machine (one_service-IsList, one_service-IsBalanced)

svcmgr_lookup-IsLooked_example :
    (st : Called) × (io : BinderIo) × (mc1 : Machine Services) × (r : ℕ × Machine Services)
    × (lookup_call env 500 8000 ((filled reply_round 48 ∷ []) ++ no_answer ∷ []) 0 yo machine
        ≡ some (st, io, mc1))
    × (svcmgr_lookup env 500 8000 ((filled reply_round 48 ∷ []) ++ no_answer ∷ []) 0 yo machine
        ≡ some r)
    × IsLooked st io mc1 r
svcmgr_lookup-IsLooked_example =
    svcmgr_lookup-IsLooked env 500 8000 (filled reply_round 48 ∷ []) [] 0 yo machine

greetings-AreSaid_example :
    let answers = (filled reply_round 48 ∷ []) ++ no_answer ∷ [] in
    ((st : Called) × (io : BinderIo) × (mc1 : Machine Services) × (r : ℕ × Machine Services)
      × (say_to_call env 500 8000 answers hello_interface yo 3 hello_svr_cmd_sayhello_to machine
          ≡ some (st, io, mc1))
      × (sayhello_to env 500 8000 answers 3 yo machine ≡ some r)
      × IsSaid st io mc1 r)
    × ((st : Called) × (io : BinderIo) × (mc1 : Machine Services) × (r : ℕ × Machine Services)
        × (say_to_call env 500 8000 answers goodbye_interface yo 3 goodbye_svr_cmd_saygoodbye_to
              machine
            ≡ some (st, io, mc1))
        × (saygoodbye_to env 500 8000 answers 3 yo machine ≡ some r)
        × IsSaid st io mc1 r)
greetings-AreSaid_example =
    greetings-AreSaid env 500 8000 (filled reply_round 48 ∷ []) [] 3 yo machine

-- The driver has another version.
abbrev other_version : Device.Answers
other_version = record { malloc = some 10; opened_fd = some 3; version_ok = false; mmap = none }

binder_open-Leaves_example :
    (is_open (binder_open other_version 131_072) ≡ false)
    × Leaves (descriptor 3 ∷ []) (binder_open other_version 131_072)
binder_open-Leaves_example = binder_open-Leaves other_version 131_072

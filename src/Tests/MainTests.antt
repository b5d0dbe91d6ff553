-- ===== src/Tests/MainTests.antt =====
-- The programs of binder/ from their start, and the client of epoll/, at concrete inputs.
use linux_labs.Prelude.{
  ℕ, ◌≡◌, refl, ◌≢◌, inl, true, Option, none, some, List, [], ◌∷◌, ◌++◌, arith, length, codes,
}
use linux_labs.Memory.{Mem, load_units, store, SameOutside, load}
use linux_labs.Memory.Copy.{bytes}
use linux_labs.Binder.Types.{binder_type_handle}
use linux_labs.Binder.Device.{Answers}
use linux_labs.Binder.Looper.{Env, Machine}
use linux_labs.Binder.Looper.Call.{filled}
use linux_labs.ServiceManager.LogText.{str8, str8_lem}
use linux_labs.ServiceManager.{low_bytes}
use linux_labs.ServiceManager.Contract.{Request, registers, asks, dies, Follows, no_names}
use linux_labs.ServiceManager.Contract.Histories.{responses, history-Follows}
use linux_labs.ServiceManager.Runs.{start}
use linux_labs.ServiceManager.Main.{Services, running}
use linux_labs.ServiceManager.Start
use linux_labs.TestClient.Main
use linux_labs.TestClient.Main.References
use linux_labs.TestClient.Main.References.{client_main-Ends}
use linux_labs.EpollClient.{Input, eintr, wrote, c_string, main, is_quit, write_line}
use linux_labs.EpollClient.Exchange.{IsTyped, client_quits, reads}
use linux_labs.EpollServer.{Server, each_ready}
use linux_labs.Resources.{takes, gives, descriptor}
use linux_labs.Tests.LooperTests.{code_of}
use linux_labs.Tests.ManagerTests.{malloc, malloc-IsAllocator, out, request_txn}

-- BR_TRANSACTION_COMPLETE, and BR_REPLY with a reference to the handle `h`, which stands at 2000.
abbrev handle_round : (h : ℕ) → Mem
handle_round h = store 4 3000 0 (
    store 4 2008 h (
      store 4 2000 binder_type_handle (
        store 4 544 3000 (
          store 4 540 2000
            (store 4 536 4 (store 4 532 16 (store 4 504 3 (store 4 500 6 (λ _. 0)))))))))

abbrev client_env : Env ℕ
client_env = record {
  code_of = code_of;
  func = none;
  death = λ p mc. mc;
  rdata = 600;
  status_at = 700;
  junk_io = out;
  junk_txn = request_txn 0 0;
}

abbrev all_had : Answers
all_had = record { malloc = some 10; opened_fd = some 3; version_ok = true; mmap = some 20 }

abbrev client : Machine ℕ
client = record { state = 0; sent = []; spawned = 0; mem = λ _. 0 }

abbrev no_calls : Main.Calls
no_calls = record { goodbye = []; hello = []; greeting = [] }

-- The goodbye service is 5, the hello service is 6, and the greeting fails.
abbrev both_found : Main.Calls
both_found = record {
  goodbye = filled (handle_round 5) 48 ∷ [];
  hello = filled (handle_round 6) 48 ∷ [];
  greeting = [];
}

abbrev hello_bob : List (List ℕ)
hello_bob = codes "test_client" ∷ codes "hello" ∷ codes "bob" ∷ []

abbrev client_run : Option (Main.ClientRun ℕ)
client_run =
    Main.main client_env 500 8000 (References.all_failing both_found no_calls) all_had hello_bob
      client

is_real : ◌≢◌ {A = ℕ} 5 0
is_real = ground arith

client_main-Ends_example :
    References.Ends client_env (λ p mc. refl) 500 8000 both_found no_calls 5 is_real [] client_run
client_main-Ends_example =
    client_main-Ends client_env (λ p mc. refl) 500 8000 both_found no_calls 5 is_real all_had
      hello_bob client

abbrev manager_start : Machine Services
manager_start = record { state = running []; sent = []; spawned = 0; mem = λ _. 0 }

-- Three units, of which the second has a high byte, and the third is a NUL.
abbrev name_units : Mem
name_units = store 2 1002 0x141 (store 2 1000 0x68 (λ _. 0))

str8_lem_example :
    let (p, m1) = str8 5000 (some 1000) 9 name_units in
    (p ≡ 5000) × (bytes 3 p m1 ≡ 0x68 ∷ 0x41 ∷ 0 ∷ []) × SameOutside 5000 128 name_units m1
unfolding low_bytes load_units load store
str8_lem_example = str8_lem 5000 1000 9 name_units (inl (omega arith))

abbrev typed : List ℕ → Input
typed line = record { fgets = some line; writes = eintr ∷ wrote (length line) ∷ [] }

abbrev hi : List ℕ
hi = codes "hi"

abbrev quit_line : List ℕ
quit_line = codes "Quit now"

hi-IsTyped : IsTyped (typed hi) hi
unfolding c_string write_line
hi-IsTyped = record { typed = refl; text = refl; taken = refl }

quit_line-IsTyped : IsTyped (typed quit_line) quit_line
unfolding c_string write_line
quit_line-IsTyped = record { typed = refl; text = refl; taken = refl }

abbrev server : Server
server = record { epoll_sockfd = 3; watched = []; events = []; printed = [] }

client_quits_example :
    let r = main 3 (some 4) 5000 true ((typed hi ∷ []) ++ typed quit_line ∷ typed hi ∷ []) in
    (r.code ≡ some 0)
    × (r.sent ≡ hi ∷ quit_line ∷ [])
    × (r.events ≡ takes (descriptor 4) ∷ gives (descriptor 4) ∷ [])
    × (each_ready (reads 7 r.sent) server
        ≡ some (record server { printed = some hi ∷ some quit_line ∷ [] }))
unfolding is_quit
client_quits_example =
    client_quits 4 5000 (typed hi ∷ []) (hi ∷ []) (typed quit_line) quit_line (typed hi ∷ []) 7
      server refl (hi-IsTyped, refl, tt) quit_line-IsTyped refl
      ((omega arith, omega arith), hi-IsTyped.text, tt) (omega arith, omega arith) refl

-- A registration, one without a handle, a question, the death, and the question again.
abbrev history : List Request
history =
    registers (codes "hello") [] 0 5 1000 0 7
    ∷ registers (codes "other") [] 0 0 1000 0 7
    ∷ asks (codes "hello") [] 1000 8
    ∷ dies (codes "hello")
    ∷ asks (codes "hello") [] 1000 8
    ∷ []

history-Follows_example : Follows no_names history (responses malloc history (start malloc))
history-Follows_example = history-Follows malloc history malloc-IsAllocator

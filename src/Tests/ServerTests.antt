-- ===== src/Tests/ServerTests.antt =====
-- The services of binder/test_server.c at concrete requests.
use linux_labs.Prelude.{
  ℕ, zero, suc, ◌+◌, ◌≤◌, ◌≡◌, refl, List, [], ◌∷◌, arith, length, false, true,
}
use linux_labs.Memory.{Mem, SameOutside}
use linux_labs.Binder.Types.{BinderIo}
use linux_labs.Binder.Bio.{c_str, align4, bio_init_from_txn, message_txn}
use linux_labs.Binder.Bio.Layout.{AreSendable, put_items, sizes, IsSendable, text}
use linux_labs.Binder.Bio.Puts.{Wrote-put_items}
use linux_labs.Binder.Bio.RoundTrip.{received}
use linux_labs.Binder.Bio.Bounds.{Kept}
use linux_labs.TestServer.{Service, hello_service_handler}
use linux_labs.TestServer.Greets.{named, Asks, greets, greets_overrun}
use linux_labs.Binder.Bio.{bio_init}
use linux_labs.Binder.Looper.{Machine, Handler}
use linux_labs.TestClient.Greetings.{read_answer}
use linux_labs.TestServer.Main.{Greeted, hello_func, goodbye_func, test_server_handler}
use linux_labs.TestServer.Main.Calls.{hello_round_trip}
use linux_labs.Tests.ManagerTests.{
  hi, yo, all_units, all_units-AreUnits, request_txn, out, reply_io,
}

-- A buffer for a long name.
abbrev wide : BinderIo
wide = record (out) { data_avail = 2000 }

abbrev filled : List ℕ → BinderIo × Mem
filled k = put_items (named 0 hi k) (wide, λ _. 0)

abbrev service : List ℕ → Service
service k = record {
  cnt = record { said = 4; said_to = 6; is_overrun = false };
  msg = bio_init_from_txn (message_txn (filled k).0 (request_txn 2 1000));
  reply = reply_io;
  mem = (filled k).1;
}

many : ℕ → List ℕ
many zero = []
many (suc n) = 97 ∷ many n

abbrev long_name : List ℕ
long_name = many 512

service-Asks :
    (k : List ℕ)
    → AreSendable (named 0 hi k)
    → sizes (named 0 hi k) ≤ 2000
    → Asks (request_txn 2 1000) (service k) 0 hi k
service-Asks k ok fits =
    let w = Wrote-put_items (named 0 hi k) wide (λ _. 0) (omega arith) ok fits (omega arith) in
    let (whole, held) =
      received (named 0 hi k) wide (filled k).0 (λ _. 0) (filled k).1 (request_txn 2 1000) refl refl
        w in
    record { code = refl; sendable = ok; room = omega arith; held = held }

hi-IsSendable : IsSendable (text hi)
unfolding c_str all_units
hi-IsSendable = (all_units-AreUnits hi refl, refl, omega arith)

yo-IsShort : IsSendable (text yo)
unfolding c_str all_units
yo-IsShort = (all_units-AreUnits yo refl, refl, omega arith)

long_name-IsSendable : IsSendable (text long_name)
unfolding c_str all_units many
long_name-IsSendable = (all_units-AreUnits long_name refl, refl, omega arith)

greets_example :
    let (res, w1) = hello_service_handler 9000 (request_txn 2 1000) (service yo) in
    (res ≡ 0)
    × (w1.cnt.said_to ≡ 7)
    × (w1.cnt.said ≡ 4)
    × (w1.cnt.is_overrun ≡ false)
    × ((m : Mem) × SameOutside 9000 512 (service yo).mem m × Kept reply_io m w1.reply w1.mem)
unfolding align4
greets_example =
    greets 9000 0 hi yo (request_txn 2 1000) (service yo)
      (service-Asks yo (omega arith, (hi-IsSendable, (yo-IsShort, tt))) (omega arith)) (omega arith)
      (omega arith)

greets_overrun_example :
    (9000 + 512 ≤ 9000 + length long_name)
    × ((hello_service_handler 9000 (request_txn 2 1000) (service long_name)).1.mem
          (9000 + length long_name)
        ≡ 0)
    × ((hello_service_handler 9000 (request_txn 2 1000) (service long_name)).1.cnt.is_overrun
        ≡ true)
unfolding align4 many
greets_overrun_example =
    greets_overrun 9000 0 hi long_name (request_txn 2 1000) (service long_name)
      (service-Asks long_name (omega arith, (hi-IsSendable, (long_name-IsSendable, tt)))
        (omega arith))
      (omega arith) (omega arith) (omega arith)

-- Both services in one process, before a request to hello.
abbrev greeter : Machine Greeted
greeter = record {
  state = record {
    hello = record { said = 4; said_to = 6; is_overrun = false };
    goodbye = record { said = 1; said_to = 2; is_overrun = false };
  };
  sent = [];
  spawned = 0;
  mem = (service yo).mem;
}

-- The request goes to address 0.
abbrev functions : ℕ → Handler Greeted
functions zero = hello_func 9000
functions (suc n) = goodbye_func 9000

asked : Asks (request_txn 2 1000) (service yo) 0 hi yo
unfolding align4
asked = service-Asks yo (omega arith, (hi-IsSendable, (yo-IsShort, tt))) (omega arith)

hello_round_trip_example :
    let (res, io, mc1) =
      test_server_handler functions
        (request_txn 2 1000)
        (service yo).msg
        (bio_init 3000 256 4 reply_io)
        greeter in
    (res ≡ 0)
    × ((read_answer (bio_init_from_txn (message_txn io (request_txn 2 1000))) mc1.mem).0 ≡ 7)
    × (mc1.state.hello.said_to ≡ 7)
    × (mc1.state.hello.is_overrun ≡ false)
    × (mc1.state.goodbye ≡ greeter.state.goodbye)
unfolding align4
hello_round_trip_example =
    hello_round_trip functions 9000 0 hi yo (request_txn 2 1000) (service yo).msg greeter 3000 256 4
      reply_io refl (record { offsets_fit = omega arith; in_word = omega arith }) (omega arith)
      (record { code = refl; sendable = asked.sendable; room = asked.room; held = asked.held })
      (omega arith) (omega arith)

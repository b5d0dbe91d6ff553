-- ===== src/Tests/ManagerTests.antt =====
-- The service manager of binder/service_manager.c at concrete lists and requests.
use linux_labs.Prelude.{
  ℕ, ◌+◌, ◌≤◌, ◌≡◌, refl, Bool, true, ◌&&◌, Option, some, List, [], ◌∷◌, ◌++◌, arith, ltb,
}
use linux_labs.Binder.Types.{BinderIo, Transaction, no_flags}
use linux_labs.Binder.Bio.Layout.{text, ref, Item, put_items}
use linux_labs.ServiceManager.{
  SvcInfo, Manager, same_units, do_find_service, do_add_service, Status,
}
use linux_labs.ServiceManager.Registry.{IsList, IsFresh, lookup}
use linux_labs.ServiceManager.References.{acquired, released, holders, IsBalanced}
use linux_labs.ServiceManager.Finding.{visible, is_isolated, find-add}
use linux_labs.ServiceManager.Runs.{IsAllocator, Event, adds, run, dies, start, run-start}
use linux_labs.Binder.Driver.{acquire}
use linux_labs.Binder.Bio.{bio_init_from_txn, message_txn}
use linux_labs.ServiceManager.Handler.{World, svcmgr_handler}
use linux_labs.ServiceManager.Handler.Requests.{header}
use linux_labs.Memory.{Mem, AreUnits}
use linux_labs.ServiceManager.Handler.Safety.{IsSafe, svcmgr_handler-IsSafe}

abbrev pub hi : List ℕ
hi = 104 ∷ 105 ∷ []

abbrev pub yo : List ℕ
yo = 121 ∷ 111 ∷ []

-- "hi" is registered at address 4096 under handle 3.
abbrev hi_svc : SvcInfo
hi_svc = record { addr = 4096; handle = 3; allow_isolated = 0; len = 2; name = 104 ∷ 105 ∷ 0 ∷ [] }

abbrev pub one_service : Manager
one_service = record { svclist = hi_svc ∷ []; sent = acquire 3 ∷ [] }

pub one_service-IsList : IsList one_service.svclist
one_service-IsList = record {
  entries =
      (record { named = refl; measured = refl; not_empty = omega arith; short = omega arith }, tt);
  distinct = (tt, tt);
}

pub one_service-IsBalanced : IsBalanced one_service
unfolding acquired released holders
one_service-IsBalanced h ne = omega arith

find-add_example :
    do_find_service
      (yo ++ [])
      2
      1000
      1
      (do_add_service (some 8192) (yo ++ 0 ∷ []) 2 9 1000 1 1 one_service).1.svclist
    ≡ 9
unfolding visible is_isolated same_units lookup
find-add_example =
    find-add yo [] 0 8192 9 1000 1 1 one_service one_service-IsList (omega arith) yo [] 1000 1
      (omega arith, tt)

-- The objects stand one behind the other: an address that is above all in use.
above : List SvcInfo → ℕ
above [] = 4096
above (si ∷ rest) = si.addr + 64 + above rest

above-IsFresh : (n : ℕ) (l : List SvcInfo) → above l ≤ n → IsFresh n l
unfolding above
above-IsFresh n [] h = tt
above-IsFresh n (si ∷ rest) h = (omega arith, above-IsFresh n rest (omega arith))

pub malloc : List SvcInfo → Option ℕ
malloc l = some (above l)

pub malloc-IsAllocator : IsAllocator malloc
unfolding malloc
malloc-IsAllocator l p e = above-IsFresh p l (ground arith)

abbrev history : List Event
history =
    adds hi [] 0 3 1000 0 1 ∷ adds yo [] 0 9 1000 0 1 ∷ adds hi [] 0 4 1000 0 1 ∷ dies 4096 ∷ []

run-start_example :
    IsList (run malloc (start malloc) history).svclist
    × IsBalanced (run malloc (start malloc) history)
run-start_example = run-start malloc history malloc-IsAllocator

-- A request as the client writes it at address 1000, and the world in which it is served.
abbrev pub out : BinderIo
out = record {
  cursor = 1016;
  offs = 1000;
  data_avail = 496;
  offs_avail = 4;
  data0 = 1016;
  offs0 = 1000;
  flags = no_flags;
}

abbrev pub reply_io : BinderIo
reply_io = record {
  cursor = 5016;
  offs = 5000;
  data_avail = 240;
  offs_avail = 4;
  data0 = 5016;
  offs0 = 5000;
  flags = no_flags;
}

abbrev pub request_txn : ℕ → ℕ → Transaction
request_txn code euid = record {
  target = 0;
  cookie = 0;
  code = code;
  flags = 0;
  sender_pid = 10;
  sender_euid = euid;
  data_size = 0;
  offsets_size = 0;
  buffer = 0;
  offsets = 0;
}

abbrev request_world : Manager → List Item → World
request_world mgr xs =
    let (io, m) = put_items xs (out, λ _. 0) in
    record {
      mgr = mgr;
      msg = bio_init_from_txn (message_txn io (request_txn 0 0));
      reply = reply_io;
      mem = m;
    }

abbrev publication : List Item
publication = header 0 (text yo ∷ ref 9 ∷ [])

abbrev question : List Item
question = header 0 (text yo ∷ [])

unfoldable pub all_units : List ℕ → Bool
all_units [] = true
all_units (x ∷ xs) = ltb x 65536 && all_units xs

pub all_units-AreUnits : (xs : List ℕ) → all_units xs ≡ true → AreUnits xs
unfolding all_units
all_units-AreUnits [] e = tt
all_units-AreUnits (x ∷ xs) e = (ground arith, all_units-AreUnits xs (ground arith))

abbrev filled : List Item → BinderIo × Mem
filled xs = put_items xs (out, λ _. 0)

abbrev served : Status × World
served = svcmgr_handler 0 (some 8192) (request_txn 3 1000) (request_world one_service publication)

svcmgr_handler-IsSafe_example : IsSafe reply_io (request_world one_service publication).mem served.1
svcmgr_handler-IsSafe_example =
    svcmgr_handler-IsSafe 0 (some 8192) (request_txn 3 1000) (request_world one_service publication)
      (λ p e. (ground arith, tt)) one_service-IsList one_service-IsBalanced

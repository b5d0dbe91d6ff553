-- ===== src/TestClient/Greetings.antt =====
-- The calls of the two services in binder/test_client.c: `sayhello`, `sayhello_to`, `saygoodbye` and
-- `saygoodbye_to`.
pub mod Answers
use linux_labs.Prelude.{ℕ, Option, none, some, List, [], ◌==◌, if◌then◌else◌, codes}
use linux_labs.Memory.{Mem}
use linux_labs.Binder.Types.{BinderIo}
use linux_labs.Binder.Bio.{bio_init, bio_put_uint32, bio_put_string16_x, bio_get_uint32}
use linux_labs.Binder.Looper.{Env, Machine}
use linux_labs.Binder.Looper.Call.{Answer, Called, call_ok, call_failed, binder_call, binder_done}
use linux_labs.TestServer.{
  refused, hello_svr_cmd_sayhello, hello_svr_cmd_sayhello_to, goodbye_svr_cmd_saygoodbye,
  goodbye_svr_cmd_saygoodbye_to,
}

abbrev pub hello_interface : List ℕ
hello_interface = codes "IHelloService"

abbrev pub goodbye_interface : List ℕ
goodbye_interface = codes "IGoodbyeService"

-- A request without a name, in the array `iodata` of 512 bytes, and one with a name.
unfoldable pub say_request : (iodata : ℕ) → (interface : List ℕ) → BinderIo → Mem → BinderIo × Mem
say_request iodata interface junk m =
    bio_put_string16_x (some interface) (bio_put_uint32 0 (bio_init iodata 512 4 junk, m))

unfoldable pub say_to_request :
    (iodata : ℕ) → (interface name : List ℕ) → BinderIo → Mem → BinderIo × Mem
unfolding say_request
say_to_request iodata interface name junk m =
    bio_put_string16_x (some name) (say_request iodata interface junk m)

-- What a reply says: -1 where its first word is not 0, else its second word.
unfoldable pub read_answer : BinderIo → Mem → ℕ × BinderIo
read_answer reply m =
    let (exception, reply1) = bio_get_uint32 reply m in
    if exception == 0 then bio_get_uint32 reply1 m else (refused, reply1)

module _ {S : Type 0} where
  -- What follows the `binder_call` of a request without a name, and of one with a name.
  abbrev pub said : Option (Called × BinderIo × Machine S) → Option (Machine S)
  said none = none
  said (some (call_failed, reply, mc)) = some mc
  said (some (call_ok, reply, mc)) = some (binder_done reply mc).1

  abbrev pub said_to : Option (Called × BinderIo × Machine S) → Option (ℕ × Machine S)
  said_to none = none
  said_to (some (call_failed, reply, mc)) = some (0, mc)
  said_to (some (call_ok, reply, mc)) =
      let (ret, reply1) = read_answer reply mc.mem in some (ret, (binder_done reply1 mc).1)

  module _ (env : Env S) (readbuf iodata : ℕ) (answers : List Answer) where
    unfoldable pub say_call :
        (interface : List ℕ)
        → (handle code : ℕ) → Machine S
        → Option (Called × BinderIo × Machine S)
    say_call interface handle code mc =
        let (msg, mem) = say_request iodata interface env.junk_io mc.mem in
        binder_call env readbuf answers msg env.junk_io handle code (record mc { mem = mem })

    unfoldable pub say_to_call :
        (interface name : List ℕ)
        → (handle code : ℕ) → Machine S
        → Option (Called × BinderIo × Machine S)
    say_to_call interface name handle code mc =
        let (msg, mem) = say_to_request iodata interface name env.junk_io mc.mem in
        binder_call env readbuf answers msg env.junk_io handle code (record mc { mem = mem })

    -- `g_hello_handle` and `g_goodbye_handle` are arguments.
    unfoldable pub sayhello : (g_hello_handle : ℕ) → Machine S → Option (Machine S)
    sayhello g_hello_handle mc =
        said (say_call hello_interface g_hello_handle hello_svr_cmd_sayhello mc)

    unfoldable pub sayhello_to : (g_hello_handle : ℕ) → List ℕ → Machine S → Option (ℕ × Machine S)
    sayhello_to g_hello_handle name mc =
        said_to (say_to_call hello_interface name g_hello_handle hello_svr_cmd_sayhello_to mc)

    unfoldable pub saygoodbye : (g_goodbye_handle : ℕ) → Machine S → Option (Machine S)
    saygoodbye g_goodbye_handle mc =
        said (say_call goodbye_interface g_goodbye_handle goodbye_svr_cmd_saygoodbye mc)

    unfoldable pub saygoodbye_to :
        (g_goodbye_handle : ℕ) → List ℕ → Machine S → Option (ℕ × Machine S)
    saygoodbye_to g_goodbye_handle name mc =
        said_to
          (say_to_call goodbye_interface name g_goodbye_handle goodbye_svr_cmd_saygoodbye_to mc)

-- ===== src/TestServer.antt =====
-- The services of binder/test_server.c: `hello_service_handler` and `goodbye_service_handler`.
pub mod Greets
pub mod Main
use linux_labs.Prelude.{
  Bool, ◌||◌, leb, ℕ, zero, suc, ◌+◌, ◌%◌, ◌^◌, Option, none, some, [], ◌==◌, if◌then◌else◌,
}
use linux_labs.Memory.{Mem, load, poke}
use linux_labs.Binder.Types.{BinderIo, Transaction}
use linux_labs.Binder.Bio.{bio_get_uint32, bio_get_string16, bio_put_uint32}

abbrev pub hello_svr_cmd_sayhello : ℕ
hello_svr_cmd_sayhello = 1

abbrev pub hello_svr_cmd_sayhello_to : ℕ
hello_svr_cmd_sayhello_to = 2

abbrev pub goodbye_svr_cmd_saygoodbye : ℕ
goodbye_svr_cmd_saygoodbye = 1

abbrev pub goodbye_svr_cmd_saygoodbye_to : ℕ
goodbye_svr_cmd_saygoodbye_to = 2

-- An int is its 32-bit word. The words behind 2 ^ 31 - 1 stand for an overflow, which C leaves open.
abbrev pub int_mod : ℕ
int_mod = 2 ^ 32

-- The static `cnt` of `sayhello` and of `sayhello_to`, or of `saygoodbye` and `saygoodbye_to`; and
-- whether a name was written beyond its array. The stack is destroyed then, and what follows is not
-- told any more.
pub record Said : Type 0 where
  pub said : ℕ
  pub said_to : ℕ
  pub is_overrun : Bool

-- What a request to a service can change.
pub record Service : Type 0 where
  pub cnt : Said
  pub msg : BinderIo
  pub reply : BinderIo
  pub mem : Mem

-- The result -1.
abbrev pub refused : ℕ
refused = 0xffff_ffff

-- `name[i] = s[i]` for each unit, of which a char takes the low byte, and the NUL behind the last.
unfoldable pub copy_name : ℕ → (s name : ℕ) → Mem → Mem
copy_name zero s name m = poke name 0 m
copy_name (suc n) s name m = copy_name n (s + 2) (name + 1) (poke name (load 2 s m % 256) m)

-- The case of the command without a name.
unfoldable pub say : BinderIo → Service → ℕ × Service
say msg w =
    let (reply, mem) = bio_put_uint32 0 (w.reply, w.mem) in
    (
      0,
      record {
        cnt = record (w.cnt) { said = (w.cnt.said + 1) % int_mod };
        msg = msg;
        reply = reply;
        mem = mem;
      },
    )

-- `char name[512]`
abbrev pub name_room : ℕ
name_room = 512

-- The case of the command with a name, behind the two `bio_get_string16`. The array `name` stands
-- at `name_at`. A name of 512 units or more is written over the rest of the stack: of such a run the
-- definition tells what the copy writes, and that the array was overrun, and not what becomes of the
-- function.
unfoldable pub say_to : (name_at : ℕ) → Option ℕ × ℕ × BinderIo → Service → ℕ × Service
say_to name_at (none, len, msg) w = (refused, record w { msg = msg })
say_to name_at (some s, len, msg) w =
    let n = (w.cnt.said_to + 1) % int_mod in
    let overrun = w.cnt.is_overrun || leb name_room len in
    let (reply, mem) =
      bio_put_uint32 n (bio_put_uint32 0 (w.reply, copy_name len s name_at w.mem)) in
    (
      0,
      record {
        cnt = record (w.cnt) { said_to = n; is_overrun = overrun };
        msg = msg;
        reply = reply;
        mem = mem;
      },
    )

unfoldable pub hello_service_handler : (name_at : ℕ) → Transaction → Service → ℕ × Service
hello_service_handler name_at txn w =
    let (strict_policy, msg) = bio_get_uint32 w.msg w.mem in
    if txn.code == hello_svr_cmd_sayhello
    then say msg w
    else if txn.code == hello_svr_cmd_sayhello_to
    then (let (s, len, msg1) = bio_get_string16 msg w.mem in
        say_to name_at (bio_get_string16 msg1 w.mem) w)
    else (refused, record w { msg = msg })

unfoldable pub goodbye_service_handler : (name_at : ℕ) → Transaction → Service → ℕ × Service
goodbye_service_handler name_at txn w =
    let (strict_policy, msg) = bio_get_uint32 w.msg w.mem in
    if txn.code == goodbye_svr_cmd_saygoodbye
    then say msg w
    else if txn.code == goodbye_svr_cmd_saygoodbye_to
    then (let (s, len, msg1) = bio_get_string16 msg w.mem in
        say_to name_at (bio_get_string16 msg1 w.mem) w)
    else (refused, record w { msg = msg })

-- ===== src/TestServer/Greets.antt =====
-- What the services of binder/test_server.c write for a request with a name.
use linux_labs.Prelude.{
  Bool, false, ◌||◌, leb, ℕ, zero, suc, ◌+◌, ◌*◌, ◌%◌, ◌≤◌, ◌<◌, ◌≡◌, refl, ap, ◌∙◌, ◌⊎◌, true,
  false, some, List, [], ◌∷◌, arith, ◌==◌, length, ◌^◌,
}
use linux_labs.Memory.{Mem, load, poke, SameOutside}
use linux_labs.Binder.Types.{Transaction}
use linux_labs.Binder.Bio.{bio_put_uint32, advance}
use linux_labs.Binder.Bio.Layout.{Item, num, text, AreSendable, sizes, Holds, size}
use linux_labs.Binder.Bio.Bounds.{Kept, bio_put_uint32-Kept, Kept-trans}
use linux_labs.ServiceManager.Handler.Requests.{text_at}
use linux_labs.TestServer.{
  name_room, Service, copy_name, say_to, hello_service_handler, hello_svr_cmd_sayhello,
  hello_svr_cmd_sayhello_to, int_mod,
}
use linux_labs.Binder.Bio.Reads.{bio_get_uint32-fits}

copy_name_outside : (n s name : ℕ) (m : Mem) → SameOutside name (n + 1) m (copy_name n s name m)
unfolding copy_name
copy_name_outside zero s name m x h = ground arith
copy_name_outside (suc n) s name m x h =
    ground (arith, copy_name_outside n (s + 2) (name + 1) (poke name (load 2 s m % 256) m) x)

copy_name_end : (n s name : ℕ) (m : Mem) → copy_name n s name m (name + n) ≡ 0
unfolding copy_name
copy_name_end zero s name m = ground arith
copy_name_end (suc n) s name m =
    let m1 = poke name (load 2 s m % 256) m in
    ap (copy_name n (s + 2) (name + 1) m1) (omega arith) ∙ copy_name_end n (s + 2) (name + 1) m1

pub not_overrun : (b : Bool) (n : ℕ) → n < 512 → b || leb name_room n ≡ b
not_overrun true n short = refl
not_overrun false n short = ground (arith, short)

overrun_lem : (b : Bool) (n : ℕ) → 512 ≤ n → b || leb name_room n ≡ true
overrun_lem true n long = refl
overrun_lem false n long = ground (arith, long)

-- A request with the policy `p`, the interface name `i` and the name `k`, which stands in the message.
abbrev pub named : ℕ → List ℕ → List ℕ → List Item
named p i k = num p ∷ text i ∷ text k ∷ []

-- The request holds the items, and asks for a greeting by name.
pub record Asks (txn : Transaction) (w : Service) (p : ℕ) (i k : List ℕ) : Type 0 where
  pub code : txn.code ≡ hello_svr_cmd_sayhello_to
  pub sendable : AreSendable (named p i k)
  pub room : sizes (named p i k) ≤ w.msg.data_avail
  pub held : Holds w.mem w.msg.offs_avail w.msg.offs w.msg.data0 w.msg.cursor (named p i k)

module _ (name_at p : ℕ) (i k : List ℕ) (txn : Transaction) (w : Service)
    (a : Asks txn w p i k) where
  -- Where the units of the name stand.
  pub name_units : ℕ
  name_units = w.msg.cursor + 4 + size (text i) + 4

  pub greeting :
      hello_service_handler name_at txn w
      ≡ say_to name_at
          (
            some name_units,
            length k,
            advance (size (text k)) (advance (size (text i)) (advance 4 w.msg)),
          )
          w
  unfolding hello_service_handler name_units advance
  greeting =
      let other : (txn.code == hello_svr_cmd_sayhello) ≡ false = ground (arith, a.code) in
      let this : (txn.code == hello_svr_cmd_sayhello_to) ≡ true = ground (arith, a.code) in
      let room = a.room in
      rw (
        bio_get_uint32-fits w.msg w.mem (omega arith),
        other,
        this,
        text_at (advance 4 w.msg) w.mem i a.sendable.1.0 (omega arith) a.held.1.0,
        text_at (advance (size (text i)) (advance 4 w.msg)) w.mem k a.sendable.1.1.0 (omega arith)
            a.held.1.1.0,
      )

  two_words-Kept :
      (n : ℕ) (m : Mem)
      → let (io, m') = bio_put_uint32 n (bio_put_uint32 0 (w.reply, m)) in Kept w.reply m io m'
  two_words-Kept n m =
      let (io, m1) = bio_put_uint32 0 (w.reply, m) in
      Kept-trans (bio_put_uint32-Kept 0 w.reply m) (bio_put_uint32-Kept n io m1)

  copied : Mem
  copied = copy_name (length k) name_units name_at w.mem

  -- A well-formed request with a name of fewer than 512 units is counted, where the int that counts
  -- does not overflow, and answered with 0, and writes the array `name`, which it does not overrun, and
  -- then the free part of the reply only.
  pub greets :
      length k < 512
      → w.cnt.said_to + 1 < 2 ^ 31
      → let (res, w1) = hello_service_handler name_at txn w in
        (res ≡ 0)
        × (w1.cnt.said_to ≡ w.cnt.said_to + 1)
        × (w1.cnt.said ≡ w.cnt.said)
        × (w1.cnt.is_overrun ≡ w.cnt.is_overrun)
        × ((m : Mem) × SameOutside name_at 512 w.mem m × Kept w.reply m w1.reply w1.mem)
  unfolding say_to copied
  greets short few = rw greeting (
    refl,
    omega (arith, few),
    refl,
    not_overrun w.cnt.is_overrun (length k) short,
    (
      copied,
      λ x apart. copy_name_outside (length k) name_units name_at w.mem x (omega arith),
      two_words-Kept ((w.cnt.said_to + 1) % int_mod) copied,
    ),
  )

  -- A well-formed request with a name of 512 units or more has the NUL written behind the end of the
  -- array `name`, which is then overrun, where the free part of the reply does not lie there.
  pub greets_overrun :
      512 ≤ length k
      → (name_at + length k < w.reply.offs)
        ⊎ (w.reply.offs + 4 * w.reply.offs_avail ≤ name_at + length k)
      → (name_at + length k < w.reply.cursor)
        ⊎ (w.reply.cursor + w.reply.data_avail ≤ name_at + length k)
      → (name_at + 512 ≤ name_at + length k)
        × ((hello_service_handler name_at txn w).1.mem (name_at + length k) ≡ 0)
        × ((hello_service_handler name_at txn w).1.cnt.is_overrun ≡ true)
  unfolding say_to copied
  greets_overrun long apart apart2 = rw greeting (
    omega arith,
    (two_words-Kept ((w.cnt.said_to + 1) % int_mod) copied).same (name_at + length k) apart apart2
        ∙ copy_name_end (length k) name_units name_at w.mem,
    overrun_lem w.cnt.is_overrun (length k) long,
  )

-- ===== src/TestClient/Greetings/Answers.antt =====
-- What the greetings of binder/test_client.c return, and that they give back what they received.
use linux_labs.Prelude.{
  ℕ, ◌+◌, ◌*◌, ◌≤◌, ◌<◌, ◌≡◌, refl, ap, ◌∙◌, inl, inr, true, Option, none, some, List, [], ◌∷◌,
  ◌++◌, arith, ◌==◌, Bool-cases, ◌^◌, ◌≢◌, length, false, ◌%◌,
}
use linux_labs.Memory.{Mem}
use linux_labs.Binder.Types.{BinderIo, Transaction}
use linux_labs.Binder.Driver.{free_buffer}
use linux_labs.Binder.Bio.{
  bio_get, bio_get_uint32, bio_init, bio_init_from_txn, message_txn, read_word,
}
use linux_labs.Binder.Bio.Layout.{
  Item, num, text, ref, put_items, put_item, get_items, get_item, a_num,
}
use linux_labs.Binder.Bio.RoundTrip.{IsBuffer, message_round_trip}
use linux_labs.Binder.Looper.{Env, Machine}
use linux_labs.Binder.Looper.Call.{Answer, no_answer, Called, call_ok, call_failed, binder_done}
use linux_labs.Binder.Looper.Call.Done.{IsFinished, binder_call-Ends}
use linux_labs.TestClient.Lookup.{SameBuffer, bio_get-SameBuffer, binder_done-shared}
use linux_labs.TestClient.Greetings.{
  read_answer, said_to, say_to_call, say_to_request, sayhello_to, saygoodbye_to, hello_interface,
  goodbye_interface,
}
use linux_labs.TestServer.{
  hello_svr_cmd_sayhello_to, goodbye_svr_cmd_saygoodbye_to, Service, say_to, hello_service_handler,
  int_mod,
}
use linux_labs.TestServer.Greets.{not_overrun, Asks, greeting}

read_word-SameBuffer :
    (io : BinderIo) (m : Mem) (r : Option ℕ × BinderIo)
    → SameBuffer io r.1
    → SameBuffer io (read_word m r).1
read_word-SameBuffer io m (none, io1) h = h
read_word-SameBuffer io m (some p, io1) h = h

pub bio_get_uint32-SameBuffer : (io : BinderIo) (m : Mem) → SameBuffer io (bio_get_uint32 io m).1
unfolding bio_get_uint32
bio_get_uint32-SameBuffer io m = read_word-SameBuffer io m (bio_get io 4) (bio_get-SameBuffer io 4)

read_answer-SameBuffer : (io : BinderIo) (m : Mem) → SameBuffer io (read_answer io m).1
unfolding read_answer
read_answer-SameBuffer io m =
    let (e, io1) = bio_get_uint32 io m in
    let (b, f) = bio_get_uint32-SameBuffer io m in
    let (b1, f1) = bio_get_uint32-SameBuffer io1 m in
    elim (Bool-cases (e == 0)) [ inl fine ↦ rw fine (b1 ∙ b, f1 ∙ f) | inr other ↦ rw other (b, f) ]

answer_fine :
    (io : BinderIo) (m : Mem)
    → (bio_get_uint32 io m).0 ≡ 0
    → (read_answer io m).0 ≡ (bio_get_uint32 (bio_get_uint32 io m).1 m).0
unfolding read_answer
answer_fine io m fine =
    let zero_first : ((bio_get_uint32 io m).0 == 0) ≡ true = ground (arith, fine) in
    rw zero_first refl

answer_raised :
    (io : BinderIo) (m : Mem) → (bio_get_uint32 io m).0 ≢ 0 → (read_answer io m).0 ≡ 0xffff_ffff
unfolding read_answer
answer_raised io m raised =
    let not_zero : ((bio_get_uint32 io m).0 == 0) ≡ false = ground (arith, raised) in
    rw not_zero refl

module _ {S : Type 0} where
  -- The result of a greeting whose call came back with `st` and `io`: after a failure 0, and nothing
  -- is sent; after a reply its second word where the first is 0, else -1, and the buffer of the reply
  -- is given back.
  abbrev pub IsSaid : Called → BinderIo → Machine S → ℕ × Machine S → Type 0
  IsSaid call_failed io mc r = r ≡ (0, mc)
  IsSaid call_ok io mc (ret, mc1) =
      let (exception, io1) = bio_get_uint32 io mc.mem in
      (exception ≡ 0 → ret ≡ (bio_get_uint32 io1 mc.mem).0)
      × (exception ≢ 0 → ret ≡ 0xffff_ffff)
      × (mc1.sent ≡ mc.sent ++ free_buffer io.data0 ∷ [])

  said_to-IsSaid :
      (st : Called) (io : BinderIo) (mc : Machine S)
      → IsFinished st io mc
      → (r : ℕ × Machine S) × (said_to (some (st, io, mc)) ≡ some r) × IsSaid st io mc r
  unfolding bio_init_from_txn
  said_to-IsSaid call_failed io mc h = ((0, mc), refl, refl)
  said_to-IsSaid call_ok io mc h =
      let (ret, io1) = read_answer io mc.mem in
      let (base, flag) = read_answer-SameBuffer io mc.mem in
      let shared : io1.flags.shared ≡ true = flag ∙ ap (λ (i : BinderIo). i.flags.shared) h.0.1 in
      (
        (ret, (binder_done io1 mc).1),
        refl,
        (
          (λ fine. answer_fine io mc.mem fine),
          (λ raised. answer_raised io mc.mem raised),
          binder_done-shared io1 mc shared ∙ ap (λ b. mc.sent ++ free_buffer b ∷ []) base,
        ),
      )

  module _ (env : Env S) (readbuf iodata : ℕ) (front back : List Answer) (handle : ℕ)
      (name : List ℕ) (mc : Machine S) where
    greeted :
        (interface : List ℕ) (code : ℕ)
        → let o =
            say_to_call env readbuf iodata
              (front ++ no_answer ∷ back)
              interface
              name
              handle
              code
              mc in
          (st : Called) × (io : BinderIo) × (mc1 : Machine S) × (r : ℕ × Machine S) × (o
            ≡ some (st, io, mc1))
          × (said_to o ≡ some r)
          × IsSaid st io mc1 r
    unfolding say_to_call
    greeted interface code =
        let (msg, mem) = say_to_request iodata interface name env.junk_io mc.mem in
        let (st, io, mc1, e, h) =
          binder_call-Ends env readbuf front back msg env.junk_io handle code
            (record mc { mem = mem }) in
        let (r, f, g) = said_to-IsSaid st io mc1 h in (st, io, mc1, r, e, ap said_to e ∙ f, g)

    -- A greeting of either service returns when the driver fails, if not before: 0 after a failed
    -- call, with nothing sent behind it; else the second word of the reply where its first is 0, or -1, and the
    -- buffer of the reply is given back, once.
    pub greetings-AreSaid :
        let answers = front ++ no_answer ∷ back in
        ((st : Called) × (io : BinderIo) × (mc1 : Machine S) × (r : ℕ × Machine S) × (say_to_call
              env readbuf iodata answers hello_interface name handle hello_svr_cmd_sayhello_to mc
            ≡ some (st, io, mc1))
          × (sayhello_to env readbuf iodata answers handle name mc ≡ some r)
          × IsSaid st io mc1 r)
        × ((st : Called) × (io : BinderIo) × (mc1 : Machine S) × (r : ℕ × Machine S) × (say_to_call
                env readbuf iodata answers goodbye_interface name handle
                goodbye_svr_cmd_saygoodbye_to mc
              ≡ some (st, io, mc1))
            × (saygoodbye_to env readbuf iodata answers handle name mc ≡ some r)
            × IsSaid st io mc1 r)
    unfolding sayhello_to saygoodbye_to
    greetings-AreSaid = (
      greeted hello_interface hello_svr_cmd_sayhello_to,
      greeted goodbye_interface goodbye_svr_cmd_saygoodbye_to,
    )

-- The word that an item is, the first of a list of items.
abbrev word_of : Option Item → ℕ
word_of none = 0
word_of (some (num n)) = n
word_of (some (text s)) = 0
word_of (some (ref h)) = 0

abbrev words_of : List (Option Item) → ℕ × ℕ
words_of [] = (0, 0)
words_of (x ∷ []) = (word_of x, 0)
words_of (x ∷ y ∷ ys) = (word_of x, word_of y)

read_answer-two_words :
    (n : ℕ) (io : BinderIo) (m : Mem)
    → (get_items (a_num ∷ a_num ∷ []) io m).0 ≡ some (num 0) ∷ some (num n) ∷ []
    → (read_answer io m).0 ≡ n
unfolding get_items get_item read_answer
read_answer-two_words n io m e =
    let zero_first : (bio_get_uint32 io m).0 ≡ 0 = ap (λ xs. (words_of xs).0) e in
    let is_fine : ((bio_get_uint32 io m).0 == 0) ≡ true = ground (arith, zero_first) in
    rw is_fine (ap (λ xs. (words_of xs).1) e)

-- The client reads the count from the reply that the service made of a well-formed request: `reply`
-- was fresh, with room for two words, the name fits the array with its NUL, and the int that counts
-- does not overflow. The message is what the driver hands over.
pub greeting_round_trip :
    (name_at p : ℕ) (i k : List ℕ) (txn : Transaction) (w : Service)
    → Asks txn w p i k
    → (base maxdata maxoffs : ℕ) (junk : BinderIo) → IsBuffer maxdata maxoffs
    → 8 + maxoffs * 4 ≤ maxdata
    → w.reply ≡ bio_init base maxdata maxoffs junk
    → length k < 512
    → w.cnt.said_to + 1 < 2 ^ 31
    → let (res, w1) = hello_service_handler name_at txn w in
      (res ≡ 0)
      × ((read_answer (bio_init_from_txn (message_txn w1.reply txn)) w1.mem).0 ≡ w.cnt.said_to + 1)
      × (w1.cnt.said_to ≡ w.cnt.said_to + 1)
      × (w1.cnt.is_overrun ≡ w.cnt.is_overrun)
unfolding say_to put_items put_item
greeting_round_trip name_at p i k txn w a base maxdata maxoffs junk b room fresh short few =
    let n = (w.cnt.said_to + 1) % int_mod in
    let no_wrap : n ≡ w.cnt.said_to + 1 = omega (arith, few) in
    let answer = num 0 ∷ num n ∷ [] in
    let s = greeting name_at p i k txn w a in
    rw (s, fresh)
      (
        refl,
        read_answer-two_words n _ _
              (message_round_trip base maxdata maxoffs junk b answer _ txn
                (omega arith, (omega arith, tt)) (omega arith) (omega arith)).0
            ∙ no_wrap,
        no_wrap,
        not_overrun w.cnt.is_overrun (length k) short,
      )

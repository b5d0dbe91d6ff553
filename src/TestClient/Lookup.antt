-- ===== src/TestClient/Lookup.antt =====
-- What `svcmgr_lookup` of binder/test_client.c sends behind its call, and in which order.
use mathlib.Core.List.{append-nil}
use linux_labs.Prelude.{
  ℕ, ◌-◌, ◌≡◌, refl, sym, ap, ◌∙◌, inl, inr, true, Option, none, some, List, [], ◌∷◌, ◌++◌, ltb,
  ◌==◌, if◌then◌else◌, Bool-cases,
}
use linux_labs.Memory.{Mem, load}
use linux_labs.Binder.Types.{BinderIo, size_of_object, binder_type_handle}
use linux_labs.Binder.Driver.{Command, acquire, free_buffer, binder_acquire}
use linux_labs.Binder.Bio.{
  bio_get_ref, bio_get_obj, bio_get, read_handle, set_overflow, advance, bio_init_from_txn, align4,
  is_listed,
}
use linux_labs.Binder.Looper.{Env, Machine}
use linux_labs.Binder.Looper.Call.{Answer, no_answer, Called, call_ok, call_failed, binder_done}
use linux_labs.Binder.Looper.Call.Done.{IsFinished, binder_call-Ends}
use linux_labs.TestClient.{
  keep_handle, looked_up, lookup_call, svcmgr_lookup, lookup_request, svc_mgr_check_service,
}
use mathlib.Core.Path.{ap₂}
use linux_labs.ServiceManager.Handler.{svc_mgr_check_service}

-- The buffer and the flag that it is shared stay as they are.
abbrev pub SameBuffer : BinderIo → BinderIo → Type 0
SameBuffer io io1 = (io1.data0 ≡ io.data0) × (io1.flags.shared ≡ io.flags.shared)

read_handle-SameBuffer :
    (io : BinderIo) (m : Mem) (r : Option ℕ × BinderIo)
    → SameBuffer io r.1
    → SameBuffer io (read_handle m r).1
read_handle-SameBuffer io m (none, io1) h = h
read_handle-SameBuffer io m (some p, io1) h = elim (Bool-cases (load 4 p m == binder_type_handle)) [
  | inl is ↦ rw is h
  | inr other ↦ rw other h
]

pub bio_get-SameBuffer : (io : BinderIo) (n : ℕ) → SameBuffer io (bio_get io n).1
unfolding bio_get set_overflow advance
bio_get-SameBuffer io n = elim (Bool-cases (ltb io.data_avail (align4 n))) [
  | inl short ↦ rw short (refl, refl)
  | inr fits ↦ rw fits (refl, refl)
]

bio_get_ref-SameBuffer : (io : BinderIo) (m : Mem) → SameBuffer io (bio_get_ref io m).1
unfolding bio_get_ref bio_get_obj set_overflow
bio_get_ref-SameBuffer io m =
    read_handle-SameBuffer io m (bio_get_obj io m)
      (elim (Bool-cases (is_listed io.offs_avail io.offs (io.cursor - io.data0) m)) [
        | inl listed ↦ rw listed (bio_get-SameBuffer io size_of_object)
        | inr not_listed ↦ rw not_listed (refl, refl)
      ])

abbrev pub kept_handle : ℕ → List Command
kept_handle handle = if handle == 0 then [] else acquire handle ∷ []

module _ {S : Type 0} where
  -- The result of a lookup whose call came back with `st` and `io`: after a failure 0, and nothing is
  -- sent; after a reply the handle in it, which is acquired before the buffer is given back.
  abbrev pub IsLooked : Called → BinderIo → Machine S → ℕ × Machine S → Type 0
  IsLooked call_failed io mc r = r ≡ (0, mc)
  IsLooked call_ok io mc (handle, mc1) =
      (handle ≡ (bio_get_ref io mc.mem).0)
      × (mc1.sent ≡ (mc.sent ++ kept_handle handle) ++ free_buffer io.data0 ∷ [])

  keep_handle-sent : (h : ℕ) (mc : Machine S) → (keep_handle h mc).sent ≡ mc.sent ++ kept_handle h
  unfolding keep_handle binder_acquire
  keep_handle-sent h mc = elim (Bool-cases (h == 0)) [
    | inl null ↦ rw null (sym (append-nil mc.sent))
    | inr real ↦ rw real
  ]

  pub binder_done-shared :
      (io : BinderIo) (mc : Machine S)
      → io.flags.shared ≡ true
      → (binder_done io mc).1.sent ≡ mc.sent ++ free_buffer io.data0 ∷ []
  unfolding binder_done
  binder_done-shared io mc shared = rw shared

  looked_up-IsLooked :
      (st : Called) (io : BinderIo) (mc : Machine S)
      → IsFinished st io mc
      → (r : ℕ × Machine S) × (looked_up (some (st, io, mc)) ≡ some r) × IsLooked st io mc r
  unfolding bio_init_from_txn
  looked_up-IsLooked call_failed io mc h = ((0, mc), refl, refl)
  looked_up-IsLooked call_ok io mc h =
      let (handle, io1) = bio_get_ref io mc.mem in
      let same = bio_get_ref-SameBuffer io mc.mem in
      let shared : io1.flags.shared ≡ true = same.1 ∙ ap (λ (i : BinderIo). i.flags.shared) h.0.1 in
      (
        (handle, (binder_done io1 (keep_handle handle mc)).1),
        refl,
        (
          refl,
          binder_done-shared io1 (keep_handle handle mc) shared
              ∙ ap₂ (λ cs b. cs ++ free_buffer b ∷ []) (keep_handle-sent handle mc) same.0,
        ),
      )

  -- A lookup returns when the driver fails, if not before: 0 after a failed call, with nothing sent
  -- behind it; else the handle of the reply, which is acquired, unless it is 0, before the buffer of
  -- the reply is given back, once.
  pub svcmgr_lookup-IsLooked :
      (env : Env S) (readbuf iodata : ℕ) (front back : List Answer) (target : ℕ) (name : List ℕ)
      (mc : Machine S)
      → (st : Called) × (io : BinderIo) × (mc1 : Machine S) × (r : ℕ × Machine S) × (lookup_call env
            readbuf iodata
            (front ++ no_answer ∷ back)
            target
            name
            mc
          ≡ some (st, io, mc1))
        × (svcmgr_lookup env readbuf iodata (front ++ no_answer ∷ back) target name mc ≡ some r)
        × IsLooked st io mc1 r
  unfolding svcmgr_lookup
  svcmgr_lookup-IsLooked env readbuf iodata front back target name mc =
      let (msg, mem) = lookup_request iodata name env.junk_io mc.mem in
      let (st, io, mc1, e, h) =
        binder_call-Ends env readbuf front back msg env.junk_io target svc_mgr_check_service
          (record mc { mem = mem }) in
      let (r, f, g) = looked_up-IsLooked st io mc1 h in (st, io, mc1, r, e, ap looked_up e ∙ f, g)

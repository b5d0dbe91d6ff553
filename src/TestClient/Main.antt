-- ===== src/TestClient/Main.antt =====
-- `main` of binder/test_client.c: it asks for both services, and greets with the one that its
-- arguments name.
pub mod Counts
pub mod References
use linux_labs.Prelude.{
  ℕ, zero, suc, ◌+◌, ◌-◌, ◌*◌, ◌/◌, ◌%◌, ◌≤◌, ◌<◌, ◌≡◌, refl, sym, ap, ◌∙◌, ◌≢◌, ◌⊎◌, inl, inr,
  Bool, true, false, not, ◌&&◌, ◌||◌, Option, none, some, List, [], ◌∷◌, ◌++◌, arith, ltb, leb,
  ◌==◌, if◌then◌else◌, length, Bool-cases, codes,
}
use linux_labs.Binder.Driver.{binder_release}
use linux_labs.Binder.Device.{Answers, BinderState, binder_open}
use linux_labs.Binder.Looper.{Env, Machine}
use linux_labs.Binder.Looper.Call.{Answer}
use linux_labs.ServiceManager.Main.{binder_service_manager}
use linux_labs.TestClient.{svcmgr_lookup}
use linux_labs.TestClient.Greetings.{sayhello, sayhello_to, saygoodbye, saygoodbye_to}
use linux_labs.TestServer.{refused}

-- `!strcmp` on strings without their NUL.
unfoldable pub same_string : List ℕ → List ℕ → Bool
same_string [] [] = true
same_string [] (y ∷ ys) = false
same_string (x ∷ xs) [] = false
same_string (x ∷ xs) (y ∷ ys) = (x == y) && same_string xs ys

-- The result of the program, the two globals, and the process behind it.
pub record ClientRun (S : Type 0) : Type 0 where
  pub code : ℕ
  pub g_goodbye_handle : ℕ
  pub g_hello_handle : ℕ
  pub machine : Machine S

-- What the driver answers in the calls of the two lookups and of the greeting.
pub record Calls : Type 0 where
  pub goodbye : List Answer
  pub hello : List Answer
  pub greeting : List Answer

module _ {S : Type 0} where
  -- The printed result is dropped.
  abbrev pub machine_of : Option (ℕ × Machine S) → Option (Machine S)
  machine_of none = none
  machine_of (some (ret, mc)) = some mc

  abbrev pub ended : (code g h : ℕ) → Machine S → Option (ClientRun S)
  ended code g h mc =
      some (record { code = code; g_goodbye_handle = g; g_hello_handle = h; machine = mc })

  module _ (env : Env S) (readbuf iodata : ℕ) (calls : Calls) where
    -- The two cases of the command, on the arguments behind it.
    unfoldable pub on_hello : (g_hello_handle : ℕ) → List (List ℕ) → Machine S → Option (Machine S)
    on_hello h [] mc = sayhello env readbuf iodata calls.greeting h mc
    on_hello h (name ∷ []) mc = machine_of (sayhello_to env readbuf iodata calls.greeting h name mc)
    on_hello h (name ∷ other ∷ more) mc = some mc

    unfoldable pub on_goodbye :
        (g_goodbye_handle : ℕ) → List (List ℕ) → Machine S → Option (Machine S)
    on_goodbye g [] mc = saygoodbye env readbuf iodata calls.greeting g mc
    on_goodbye g (name ∷ []) mc =
        machine_of (saygoodbye_to env readbuf iodata calls.greeting g name mc)
    on_goodbye g (name ∷ other ∷ more) mc = some mc

    unfoldable pub greet : (g h : ℕ) → (argv : List (List ℕ)) → Machine S → Option (Machine S)
    greet g h (program ∷ cmd ∷ rest) mc =
        if same_string cmd (codes "hello")
        then on_hello h rest mc
        else if same_string cmd (codes "goodbye")
        then on_goodbye g rest mc
        else some mc
    greet g h argv mc = some mc

    -- `binder_release(bs, handle)`: `handle` is that of the last lookup.
    abbrev pub greeted : (g h : ℕ) → Option (Machine S) → Option (ClientRun S)
    greeted g h none = none
    greeted g h (some mc) = ended 0 g h (record mc { sent = binder_release h mc.sent })

    abbrev pub got_hello :
        (g : ℕ) → (argv : List (List ℕ)) → Option (ℕ × Machine S) → Option (ClientRun S)
    got_hello g argv none = none
    got_hello g argv (some (h, mc)) =
        if h == 0 then ended refused g 0 mc else greeted g h (greet g h argv mc)

    abbrev pub got_goodbye : (argv : List (List ℕ)) → Option (ℕ × Machine S) → Option (ClientRun S)
    got_goodbye argv none = none
    got_goodbye argv (some (g, mc)) =
        if g == 0
        then ended refused 0 0 mc
        else got_hello g argv
            (svcmgr_lookup env readbuf iodata calls.hello binder_service_manager (codes "hello") mc)

    abbrev pub opened :
        (argv : List (List ℕ)) → Option BinderState → Machine S → Option (ClientRun S)
    opened argv none mc = ended refused 0 0 mc
    opened argv (some bs) mc =
        got_goodbye argv (
          svcmgr_lookup env readbuf iodata calls.goodbye binder_service_manager (codes "goodbye")
            mc)

    unfoldable pub main : Answers → (argv : List (List ℕ)) → Machine S → Option (ClientRun S)
    main k argv mc =
        if ltb (length argv) 2
        then ended refused 0 0 mc
        else opened argv (binder_open k 0x20000).state mc

-- ===== src/Binder/Driver.antt =====
-- What binder/binder.c writes to the binder driver: the commands of
-- `enum binder_driver_command_protocol` that it uses, in the order in which `binder_write` and
-- `binder_call` hand them over. The results of these writes are ignored by the callers here.
use linux_labs.Prelude.{ℕ, List, [], ◌∷◌, ◌++◌}
use linux_labs.Binder.Types.{Transaction}

pub data Command : Type 0 where
  transaction : Transaction → Command
  reply : Transaction → Command
  free_buffer : ℕ → Command
  acquire : ℕ → Command
  release : ℕ → Command
  register_looper : Command
  enter_looper : Command
  request_death : (handle cookie : ℕ) → Command

-- `binder_write` of the commands in one buffer.
abbrev pub binder_write : List Command → List Command → List Command
binder_write cs sent = sent ++ cs

unfoldable pub binder_acquire : ℕ → List Command → List Command
binder_acquire target sent = binder_write (acquire target ∷ []) sent

unfoldable pub binder_release : ℕ → List Command → List Command
binder_release target sent = binder_write (release target ∷ []) sent

unfoldable pub binder_link_to_death : (target cookie : ℕ) → List Command → List Command
binder_link_to_death target cookie sent = binder_write (request_death target cookie ∷ []) sent

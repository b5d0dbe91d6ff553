-- ===== src/WaitQueue.antt =====
-- waitqueue/waitqueue.c: the device globalvar, whose readers wait for its writers.
pub mod Runs
pub mod Writes
use linux_labs.Prelude.{
  ℕ, zero, suc, ◌+◌, ◌-◌, ◌%◌, ◌⊎◌, inl, inr, Bool, true, false, not, Option, none, some, List, [],
  ◌∷◌, ltb, ◌==◌, if◌then◌else◌, length, ◌^◌, ◌≡◌, refl, ◌++◌, arith,
}
use linux_labs.Memory.{Mem, poke}
use linux_labs.Memory.Copy.{bytes}
use linux_labs.Resources.{Rv, error, Event, takes, gives, region, ledger, give_back}

-- `LEN`
abbrev pub len_max : ℕ
len_max = 1024

-- An int is its 32-bit word.
abbrev pub int_mod : ℕ
int_mod = 2 ^ 32

-- The memory with the array `global_var` at its address, the indexes, and the flag.
pub record Globals : Type 0 where
  pub mem : Mem
  pub global_var : ℕ
  pub read_index : ℕ
  pub write_index : ℕ
  pub flag : ℕ

-- `global_var + index`, where the index may be negative.
abbrev pub at_index : Globals → ℕ → ℕ
at_index g index =
    if ltb index (2 ^ 31) then g.global_var + index else g.global_var - (int_mod - index)

-- An int as a `size_t` of 64 bits.
abbrev pub as_size : ℕ → ℕ
as_size n = if ltb n (2 ^ 31) then n else n + (2 ^ 64 - int_mod)

-- The bytes of a list, one behind the other.
unfoldable pub put_bytes : ℕ → List ℕ → Mem → Mem
put_bytes a [] m = m
put_bytes a (x ∷ xs) m = put_bytes (a + 1) xs (poke a x m)

abbrev pub efault : Rv
efault = error 14

abbrev pub erestartsys : Rv
erestartsys = error 512

-- What `copy_from_user` stores: the bytes of the user where it returns 0, or some bytes where it does
-- not.
pub data Copied : Type 0 where
  all_copied : (stored : List ℕ) → Copied
  not_all : (stored : List ℕ) → Copied

-- `globalvar_write` up to its `spin_unlock`; the result is the number of bytes or an error.
unfoldable pub write_locked : Copied → Globals → (ℕ ⊎ Rv) × Globals
write_locked (not_all xs) g =
    (inr efault, record g { mem = put_bytes (at_index g g.write_index) xs g.mem })
write_locked (all_copied xs) g = (
  inl (length xs),
  record g {
    mem = put_bytes (at_index g g.write_index) xs g.mem;
    write_index = (g.write_index + length xs) % int_mod;
  },
)

-- What follows the `spin_unlock`: readers that wait see the flag.
unfoldable pub raise_flag : Globals → Globals
raise_flag g = record g { flag = 1 }

abbrev pub after_unlock : (ℕ ⊎ Rv) × Globals → (ℕ ⊎ Rv) × Globals
after_unlock (inr e, g) = (inr e, g)
after_unlock (inl n, g) = (inl n, raise_flag g)

unfoldable pub globalvar_write : Copied → Globals → (ℕ ⊎ Rv) × Globals
globalvar_write c g = after_unlock (write_locked c g)

-- The condition that readers wait for.
abbrev pub is_awake : Globals → Bool
is_awake g = not (g.flag == 0)

abbrev pub read_len : Globals → ℕ
read_len g = (g.write_index + int_mod - g.read_index) % int_mod

-- What a reader copies to its user.
abbrev pub unread : Globals → List ℕ
unread g = bytes (as_size (read_len g)) (at_index g g.read_index) g.mem

-- `globalvar_read` from its `spin_lock` on; `copies` says that `copy_to_user` returns 0. The length
-- that the user asks for plays no part.
unfoldable pub read_locked : (copies : Bool) → Globals → (ℕ ⊎ Rv) × List ℕ × Globals
read_locked false g = (inr efault, [], g)
read_locked true g = (inl (read_len g), unread g, record g { read_index = g.write_index; flag = 0 })

-- `none` is a reader that waits on.
unfoldable pub globalvar_read :
    (is_interrupted copies : Bool) → Globals → Option ((ℕ ⊎ Rv) × List ℕ × Globals)
globalvar_read is_interrupted copies g =
    if is_awake g
    then some (read_locked copies g)
    else if is_interrupted
    then some (inr erestartsys, [], g)
    else none

-- `globalvar_init`: `register_chrdev` returns a major number, 0 or an error; `inl 0` is 0.
unfoldable pub globalvar_init : ℕ ⊎ Rv → Bool
globalvar_init (inl zero) = false
globalvar_init (inl (suc major)) = true
globalvar_init (inr e) = true

-- What `register_chrdev` takes.
abbrev registered : ℕ ⊎ Rv → List Event
registered (inl zero) = []
registered (inl (suc major)) = takes (region (suc major)) ∷ []
registered (inr e) = []

-- `globalvar_exit`, with the result that is in `major`: for an error, which is no number of a device,
-- the kernel finds nothing to unregister.
unfoldable globalvar_exit : ℕ ⊎ Rv → List Event
globalvar_exit (inl major) = gives (region major) ∷ []
globalvar_exit (inr e) = []

-- Where the start succeeds, the exit gives back what was registered, if anything was.
globalvar_init-exit :
    (major : ℕ ⊎ Rv)
    → globalvar_init major ≡ true
    → ledger (registered major ++ globalvar_exit major) [] ≡ some []
unfolding globalvar_init globalvar_exit ledger give_back
globalvar_init-exit (inl zero) h = cc
globalvar_init-exit (inl (suc major)) h = ground arith
globalvar_init-exit (inr e) h = refl

-- ===== src/ServiceManager.antt =====
-- The service list of binder/service_manager.c: `find_svc`, `svcinfo_death`, `do_find_service` and
-- `do_add_service` over the linked list `svclist` and the commands sent to the driver.
pub mod Names
pub mod Registry
pub mod Adding
pub mod Finding
pub mod References
pub mod Runs
pub mod Handler
pub mod Main
pub mod Contract
pub mod LogText
pub mod Start
pub mod TextTest
use linux_labs.Prelude.{
  ℕ, zero, suc, ◌+◌, ◌%◌, Bool, true, false, not, ◌&&◌, ◌||◌, Option, none, some, List, [], ◌∷◌,
  ltb, leb, ◌==◌, if◌then◌else◌, map, set, take, codes,
}
use linux_labs.Binder.Driver.{Command, binder_release, binder_link_to_death, binder_acquire}

-- The int results of the handlers: 0 and -1.
pub data Status : Type 0 where
  ok fail : Status

-- `struct svcinfo` at the address `addr`. Its `death` holds the function `svcinfo_death` and the
-- address itself, and stands for the cookie that the driver is given. `name` has `len + 1` units.
pub record SvcInfo : Type 0 where
  pub addr : ℕ
  pub handle : ℕ
  pub allow_isolated : ℕ
  pub len : ℕ
  pub name : List ℕ

pub record Manager : Type 0 where
  pub svclist : List SvcInfo
  pub sent : List Command

-- `AID_ISOLATED_START`, `AID_ISOLATED_END` and `AID_USER`
abbrev pub aid_isolated_start : ℕ
aid_isolated_start = 99000

abbrev pub aid_isolated_end : ℕ
aid_isolated_end = 99999

abbrev pub aid_user : ℕ
aid_user = 100000

-- `memcmp` of `n` units.
unfoldable pub same_units : ℕ → List ℕ → List ℕ → Bool
same_units zero xs ys = true
same_units (suc n) [] ys = false
same_units (suc n) (x ∷ xs) [] = false
same_units (suc n) (x ∷ xs) (y ∷ ys) = (x == y) && same_units n xs ys

abbrev pub is_svc : List ℕ → ℕ → SvcInfo → Bool
is_svc s16 len si = (len == si.len) && same_units len s16 si.name

unfoldable pub find_svc : List ℕ → ℕ → List SvcInfo → Option SvcInfo
find_svc s16 len [] = none
find_svc s16 len (si ∷ rest) = if is_svc s16 len si then some si else find_svc s16 len rest

-- The tests of permissions, which always pass; nothing calls the first.
unfoldable check_mac_perms : (spid : ℕ) → (tctx perm name : List ℕ) → Bool
check_mac_perms spid tctx perm name = true

unfoldable pub check_mac_perms_from_getcon : (spid : ℕ) → (perm : List ℕ) → Bool
check_mac_perms_from_getcon spid perm = true

unfoldable pub check_mac_perms_from_lookup : (spid : ℕ) → (perm name : List ℕ) → Bool
check_mac_perms_from_lookup spid perm name = true

-- The bytes that `str8` makes of a name: the low bytes of its units up to the first NUL, and a NUL. The
-- array `buf` of `str8`, which is static and nobody else reads, is passed on as these bytes;
-- ServiceManager.LogText has the loop that writes it.
unfoldable pub low_bytes : List ℕ → List ℕ
low_bytes [] = 0 ∷ []
low_bytes (x ∷ xs) = if x == 0 then 0 ∷ [] else (x % 256) ∷ low_bytes xs

abbrev pub max_units : (x_len : ℕ) → ℕ
max_units x_len = if ltb x_len 127 then x_len else 127

abbrev pub str8_text : (name : List ℕ) → (name_len : ℕ) → List ℕ
str8_text name name_len = low_bytes (take (max_units name_len) name)

unfoldable pub svc_can_register : (name : List ℕ) → (name_len spid : ℕ) → Bool
unfolding check_mac_perms_from_lookup
svc_can_register name name_len spid =
    check_mac_perms_from_lookup spid (codes "add") (str8_text name name_len)

unfoldable pub svc_can_list : ℕ → Bool
unfolding check_mac_perms_from_getcon
svc_can_list spid = check_mac_perms_from_getcon spid (codes "list")

unfoldable pub svc_can_find : (name : List ℕ) → (name_len spid : ℕ) → Bool
unfolding check_mac_perms_from_lookup
svc_can_find name name_len spid =
    check_mac_perms_from_lookup spid (codes "find") (str8_text name name_len)

-- `si->handle` of the object at `p`, and the write to it.
unfoldable pub handle_at : ℕ → List SvcInfo → ℕ
handle_at p [] = 0
handle_at p (si ∷ rest) = if si.addr == p then si.handle else handle_at p rest

abbrev pub with_handle : ℕ → ℕ → SvcInfo → SvcInfo
with_handle p h si = if si.addr == p then record si { handle = h } else si

unfoldable pub set_handle : ℕ → ℕ → List SvcInfo → List SvcInfo
set_handle p h l = map (with_handle p h) l

unfoldable pub svcinfo_death : ℕ → Manager → Manager
unfolding handle_at set_handle binder_release
svcinfo_death p mgr =
    let h = handle_at p mgr.svclist in
    if h == 0
    then mgr
    else record { svclist = set_handle p 0 mgr.svclist; sent = binder_release h mgr.sent }

-- What `do_find_service` makes of the service that it found.
unfoldable pub found_handle : ℕ → Option SvcInfo → ℕ
found_handle uid none = 0
found_handle uid (some si) =
    if si.handle == 0
    then 0
    else (let appid = uid % aid_user in
        if (si.allow_isolated == 0) && leb aid_isolated_start appid && leb appid aid_isolated_end
        then 0
        else si.handle)

unfoldable pub do_find_service : List ℕ → ℕ → (uid spid : ℕ) → List SvcInfo → ℕ
do_find_service s len uid spid l =
    if not (svc_can_find s len spid) then 0 else found_handle uid (find_svc s len l)

-- The tail of `do_add_service`: the service at `p` is announced under the handle.
unfoldable pub announce : (handle p : ℕ) → Manager → Manager
announce handle p mgr = record mgr {
  sent = binder_link_to_death handle p (binder_acquire handle mgr.sent);
}

-- A service of that name is there: its old handle is given up.
unfoldable pub override : ℕ → SvcInfo → Manager → Manager
override handle si mgr =
    let mgr1 = if si.handle == 0 then mgr else svcinfo_death si.addr mgr in
    record mgr1 { svclist = set_handle si.addr handle mgr1.svclist }

-- `memcpy` of `len + 1` units, and the NUL written behind the first `len`.
abbrev pub new_svc : (p : ℕ) → List ℕ → (len handle allow_isolated : ℕ) → SvcInfo
new_svc p s len handle allow_isolated = record {
  addr = p;
  handle = handle;
  allow_isolated = allow_isolated;
  len = len;
  name = set (take (len + 1) s) len 0;
}

-- `fresh` is what `malloc` returns.
abbrev pub insert_svc :
    Option ℕ → List ℕ → (len handle allow_isolated : ℕ) → Manager → Status × Manager
insert_svc none s len handle allow_isolated mgr = (fail, mgr)
insert_svc (some p) s len handle allow_isolated mgr = (
  ok,
  announce handle p (record mgr { svclist = new_svc p s len handle allow_isolated ∷ mgr.svclist }),
)

abbrev pub add_or_override :
    Option SvcInfo
    → Option ℕ
    → List ℕ
    → (len handle allow_isolated : ℕ) → Manager
    → Status × Manager
add_or_override (some si) fresh s len handle allow_isolated mgr =
    (ok, announce handle si.addr (override handle si mgr))
add_or_override none fresh s len handle allow_isolated mgr =
    insert_svc fresh s len handle allow_isolated mgr

unfoldable pub do_add_service :
    Option ℕ → List ℕ → (len handle uid allow_isolated spid : ℕ) → Manager → Status × Manager
do_add_service fresh s len handle uid allow_isolated spid mgr =
    if (handle == 0) || (len == 0) || ltb 127 len
    then (fail, mgr)
    else if not (svc_can_register s len spid)
    then (fail, mgr)
    else add_or_override (find_svc s len mgr.svclist) fresh s len handle allow_isolated mgr
